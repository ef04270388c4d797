-- ===== src/Address/Wire.antt =====
-- The shared address layouts: what the parsers of address.rs make of the bytes of an address, and
-- of more bytes behind them.
use snell_rs.Prelude.{
  ℕ, ◌+◌, ◌%◌, ◌≤◌, ◌<◌, ◌≡◌, refl, [], ◌∷◌, ◌++◌, some, true, length, arith, length-append, take,
  drop, take-append_le, drop-append_le, length-drop, length-take, if◌then◌else◌, All,
}
use mathlib.Core.Option
use snell_rs.Kernel.Error.{invalid_host_utf8, ok, err}
use snell_rs.Kernel.Slice.{
  Bytes, IsByte, split_at_checked, from_be_bytes, to_be_bytes, from_be_bytes-to_be_bytes,
  split_at_checked-append_length,
}
use snell_rs.Kernel.Utf8.{is_utf8, from_utf8}
use snell_rs.Address.{
  IpAddr, SocketAddr, Address, ip, domain, socket_addr, ip_port, split_host_port,
}

-- The bytes of a text that fit the one-byte length field.
pub record IsHost (h : Bytes) : Type 0 where
  pub text : is_utf8 h ≡ true
  pub nonempty : 0 < length h
  pub short : length h ≤ 255

-- What the Rust types `SocketAddr` and `u16` hold.
abbrev pub IsSocketAddr : SocketAddr → Type 0
IsSocketAddr (SocketAddr.v4 o p) = (length o ≡ 4) × (p < 65536) × All IsByte o
IsSocketAddr (SocketAddr.v6 o p f s) = (length o ≡ 16) × (p < 65536) × All IsByte o

abbrev pub IsAddress : Address → Type 0
IsAddress (ip a) = IsSocketAddr a
IsAddress (domain h p) = IsHost h × (p < 65536)

-- What is left of an address on the wire: a V6 address loses its flow label and scope.
unfoldable pub on_wire : Address → Address
on_wire (ip (SocketAddr.v4 o p)) = ip (SocketAddr.v4 o p)
on_wire (ip (SocketAddr.v6 o p f s)) = ip (SocketAddr.v6 o p 0 0)
on_wire (domain h p) = domain h p

pub ip_port-append :
    (n : ℕ) (from : Bytes → IpAddr) (o : Bytes) (p : ℕ) (more : Bytes)
    → length o ≡ n
    → p < 65536
    → ip_port n from (o ++ (to_be_bytes p ++ more)) ≡ some (socket_addr (from o) p)
unfolding ip_port Option.bind
ip_port-append n from o p more e h = rw (
  split_at_checked-append_length n o (to_be_bytes p ++ more) e,
  split_at_checked-append_length 2 (to_be_bytes p) more (unfold to_be_bytes in refl),
  from_be_bytes-to_be_bytes p h,
)

-- A parse that succeeded is not changed by the bytes that follow.
pub ip_port-more :
    (n : ℕ) (from : Bytes → IpAddr) (src more : Bytes) {a : SocketAddr}
    → ip_port n from src ≡ some a
    → ip_port n from (src ++ more) ≡ some a
unfolding ip_port Option.bind split_at_checked
ip_port-more n from src more h = ground (
  arith,
  length-append src more,
  take-append_le n src more,
  drop-append_le n src more,
  length-append (drop n src) more,
  take-append_le 2 (drop n src) more,
)

pub ip_port_long :
    (n : ℕ) (from : Bytes → IpAddr) (src : Bytes)
    → n + 2 ≤ length src
    → ip_port n from src
      ≡ some (socket_addr (from (take n src)) (from_be_bytes (take 2 (drop n src))))
unfolding ip_port Option.bind split_at_checked
ip_port_long n from src h = ground (arith, length-drop n src)

pub split_host_port-append :
    (h : Bytes) (p : ℕ) (more : Bytes)
    → IsHost h
    → p < 65536
    → split_host_port ((length h % 256) ∷ (h ++ (to_be_bytes p ++ more)))
      ≡ ok (h, p, 1 + length h + 2)
unfolding split_host_port from_utf8
split_host_port-append h p more v hp = rw (
  split_at_checked-append_length (length h % 256) h (to_be_bytes p ++ more) (omega arith),
  split_at_checked-append_length 2 (to_be_bytes p) more (unfold to_be_bytes in refl),
  v.text,
  from_be_bytes-to_be_bytes p hp,
)

pub split_host_port-more :
    (src more : Bytes) {r : Bytes × ℕ × ℕ}
    → split_host_port src ≡ ok r
    → split_host_port (src ++ more) ≡ ok r
unfolding split_host_port split_at_checked
split_host_port-more [] more h = cc
split_host_port-more (n ∷ rest) more h = ground (
  arith,
  length-append rest more,
  take-append_le n rest more,
  drop-append_le n rest more,
  length-append (drop n rest) more,
  take-append_le 2 (drop n rest) more,
)

-- With enough bytes the parse is not truncated.
pub split_host_port_long :
    (n : ℕ) (rest : Bytes)
    → n + 2 ≤ length rest
    → split_host_port (n ∷ rest) ≡ (
        if is_utf8 (take n rest)
        then ok (take n rest, from_be_bytes (take 2 (drop n rest)), 1 + n + 2)
        else err invalid_host_utf8)
unfolding split_host_port split_at_checked from_utf8
split_host_port_long n rest h = ground (arith, length-drop n rest, length-take n rest)

-- The bytes that a successful parse has read are there.
pub split_host_port_bound :
    (src : Bytes) {h : Bytes} {p n : ℕ}
    → split_host_port src ≡ ok (h, p, n)
    → (n ≤ length src) × (n ≡ 1 + length h + 2) × (is_utf8 h ≡ true)
unfolding split_host_port split_at_checked from_utf8
split_host_port_bound [] h = cc
split_host_port_bound (n ∷ rest) h = ground (arith, length-drop n rest, length-take n rest)

pub split_host_port_within :
    (src : Bytes) (r : Bytes × ℕ × ℕ) → split_host_port src ≡ ok r → r.2 ≤ length src
split_host_port_within src r e = (split_host_port_bound src e).0
