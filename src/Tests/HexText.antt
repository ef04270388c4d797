-- ===== src/Tests/HexText.antt =====
-- A text of IP addresses that has the laws of `IsIpText`: two letters for each byte. It stands for
-- the formatting of `std::net` in the tests.
use snell_rs.Prelude.{
  ℕ, ◌+◌, ◌-◌, ◌*◌, ◌/◌, ◌%◌, ◌≤◌, ◌<◌, ◌≡◌, refl, ap, [], ◌∷◌, none, some, true, length, All, ◌==◌,
  if◌then◌else◌, arith, ◌∙◌,
}
use snell_rs.Kernel.Slice.{Bytes, IsByte}
use snell_rs.Kernel.Utf8.{start, is_utf8, is_utf8_from}
use snell_rs.Address.{IpAddr}
use snell_rs.Address.Wire.{IsHost}
use snell_rs.Address.Text.{IpText, IsIpText, IsIpAddr}

abbrev spell : Bytes → Bytes
spell [] = []
spell (b ∷ bs) = (65 + b / 16) ∷ (65 + b % 16) ∷ spell bs

abbrev read : Bytes → Bytes
read [] = []
read (_ ∷ []) = []
read (a ∷ b ∷ bs) = ((a - 65) * 16 + (b - 65)) ∷ read bs

read-spell : (o : Bytes) → All IsByte o → read (spell o) ≡ o
read-spell [] h = refl
read-spell (b ∷ bs) h = rw (read-spell bs h.1) (ap (λ x. x ∷ bs) (omega arith))

length-spell : (o : Bytes) → length (spell o) ≡ 2 * length o
length-spell [] = refl
length-spell (b ∷ bs) = omega (arith, length-spell bs)

ascii_first : (b : ℕ) (bs : Bytes) → b < 128 → is_utf8_from start (b ∷ bs) ≡ is_utf8_from start bs
unfolding is_utf8_from
ascii_first b bs h = ground (arith)

spell-is_utf8 : (o : Bytes) → All IsByte o → is_utf8_from start (spell o) ≡ true
unfolding is_utf8_from
spell-is_utf8 [] h = refl
spell-is_utf8 (b ∷ bs) h =
    ascii_first (65 + b / 16) ((65 + b % 16) ∷ spell bs) (omega arith)
    ∙ ascii_first (65 + b % 16) (spell bs) (omega arith)
    ∙ spell-is_utf8 bs h.1

abbrev pub hex_text : IpText
hex_text = record {
  to_string = λ a. elim a [ IpAddr.v4 o ↦ spell o | IpAddr.v6 o ↦ spell o ];
  parse = λ h.
      if length h == 8
      then some (IpAddr.v4 (read h))
      else if length h == 32
      then some (IpAddr.v6 (read h))
      else none;
}

spell-IsHost : (o : Bytes) → All IsByte o → 0 < length o → length o ≤ 16 → IsHost (spell o)
spell-IsHost o h pos short = record {
  text = unfold is_utf8 in spell-is_utf8 o h;
  nonempty = omega (arith, length-spell o);
  short = omega (arith, length-spell o);
}

parse_spelled : (a : IpAddr) → IsIpAddr a → hex_text.parse (hex_text.to_string a) ≡ some a
parse_spelled (IpAddr.v4 o) h = ground (arith, length-spell o, read-spell o h.1)
parse_spelled (IpAddr.v6 o) h = ground (arith, length-spell o, read-spell o h.1)

spelled-IsHost : (a : IpAddr) → IsIpAddr a → IsHost (hex_text.to_string a)
spelled-IsHost (IpAddr.v4 o) h = spell-IsHost o h.1 (omega arith) (omega arith)
spelled-IsHost (IpAddr.v6 o) h = spell-IsHost o h.1 (omega arith) (omega arith)

pub hex_text-IsIpText : IsIpText hex_text
hex_text-IsIpText = record { parse-to_string = parse_spelled; to_string-IsHost = spelled-IsHost }
