-- ===== src/Control/Prefix.antt =====
-- The CONNECT decoder of control/mod.rs behind its first three bytes, on bytes that arrive in pieces.
use snell_rs.Prelude.{
  ℕ, ◌+◌, ◌≤◌, ◌<◌, ◌≡◌, refl, [], ◌∷◌, ◌++◌, arith, length, drop, length-append, ◌≢◌,
  take-append_le, length-take, drop-append_le, length-drop, ◌==◌, not, Option-cases, inl, inr, none,
  some, Bool,
}
use snell_rs.Kernel.Error.{
  Error, truncated, invalid_version, Result, ok, err, ◌>>=◌, ◌>>◌, ok_or, fail_if,
}
use snell_rs.Kernel.Consts.{protocol_version}
use snell_rs.Kernel.Slice.{Bytes, get_from, split_at_checked}
use snell_rs.Kernel.Utf8.{from_utf8}
use snell_rs.Address.{split_host_port, new_domain, validate_domain}
use snell_rs.Address.Text.{IpText}
use snell_rs.Address.Wire.{split_host_port-more, split_host_port_bound, split_host_port_within}
use snell_rs.Control.{
  ConnectRequest, control_head, reuse_of, check_host_len, destination_of,
  decode_connect_request_prefix,
}

split_host_port_refuses :
    (src more : Bytes) (e : Error)
    → e ≢ truncated
    → split_host_port src ≡ err e
    → split_host_port (src ++ more) ≡ err e
unfolding split_host_port split_at_checked
split_host_port_refuses [] more e ne h = ground arith
split_host_port_refuses (n ∷ rest) more e ne h = ground (
  arith,
  length-append rest more,
  take-append_le n rest more,
  drop-append_le n rest more,
  length-append (drop n rest) more,
)

split_host_port_missing :
    (src more : Bytes) (r : Bytes × ℕ × ℕ)
    → split_host_port src ≡ err truncated
    → split_host_port (src ++ more) ≡ ok r
    → length src < r.2
unfolding split_host_port split_at_checked from_utf8
split_host_port_missing [] more r h k = ground (arith, split_host_port_bound more)
split_host_port_missing (n ∷ rest) more r h k =
    ground (arith, length-append rest more, length-take n (rest ++ more), length-drop n rest)

split_host_port_pos : (src : Bytes) (r : Bytes × ℕ × ℕ) → split_host_port src ≡ ok r → 3 ≤ r.2
split_host_port_pos src r h = omega (arith, split_host_port_bound src h)

get_from-append :
    (xs more : Bytes) (n : ℕ) (ys : Bytes)
    → get_from xs n ≡ some ys
    → get_from (xs ++ more) n ≡ some (ys ++ more)
unfolding get_from
get_from-append xs more n ys h = ground (arith, length-append xs more, drop-append_le n xs more)

get_from_len :
    (xs : Bytes) (n : ℕ) (ys : Bytes) → get_from xs n ≡ some ys → length xs ≡ n + length ys
unfolding get_from
get_from_len xs n ys h = ground (arith, length-drop n xs)

get_from_short : (xs : Bytes) (n : ℕ) → get_from xs n ≡ none → length xs < n
unfolding get_from
get_from_short xs n h = ground arith

destination_of-ne-truncated :
    (t : IpText) (h : Bytes) (p : ℕ) → destination_of t h p ≢ err truncated
unfolding destination_of new_domain validate_domain
destination_of-ne-truncated t h p e = ground arith

reuse_of-ne-truncated : (c : ℕ) → reuse_of c ≢ err truncated
unfolding reuse_of
reuse_of-ne-truncated c e = ground arith

-- What stands behind the version, the command and the client id: the host, the port and the rest.
decode_tail : IpText → ℕ → Bool → Bytes → Result (ConnectRequest × ℕ)
decode_tail t k reuse host_port = do
  check_host_len host_port
  (host, port, host_port_len) ← split_host_port host_port
  destination ← destination_of t host port
  ok (record { destination = destination; reuse = reuse }, 3 + k + host_port_len)

tail_stands :
    (t : IpText) (k : ℕ) (reuse : Bool) (buf more : Bytes) (r : ConnectRequest × ℕ)
    → decode_tail t k reuse buf ≡ ok r
    → decode_tail t k reuse (buf ++ more) ≡ ok r
unfolding decode_tail check_host_len
tail_stands t k reuse [] more r h = ground arith
tail_stands t k reuse (n ∷ rest) more r h = grind (arith, split_host_port-more (n ∷ rest) more)

tail_refuses :
    (t : IpText) (k : ℕ) (reuse : Bool) (buf more : Bytes) (e : Error)
    → e ≢ truncated
    → decode_tail t k reuse buf ≡ err e
    → decode_tail t k reuse (buf ++ more) ≡ err e
unfolding decode_tail check_host_len
tail_refuses t k reuse [] more e ne h = ground arith
tail_refuses t k reuse (n ∷ rest) more e ne h =
    grind (arith, split_host_port-more (n ∷ rest) more, split_host_port_refuses (n ∷ rest) more)

tail_within :
    (t : IpText) (k : ℕ) (reuse : Bool) (buf : Bytes) (r : ConnectRequest × ℕ)
    → decode_tail t k reuse buf ≡ ok r
    → r.1 ≤ 3 + k + length buf
unfolding decode_tail
tail_within t k reuse buf r h = grind (arith, split_host_port_within buf)

tail_least :
    (t : IpText) (k : ℕ) (reuse : Bool) (buf : Bytes) (r : ConnectRequest × ℕ)
    → decode_tail t k reuse buf ≡ ok r
    → 6 + k ≤ r.1
unfolding decode_tail
tail_least t k reuse buf r h = grind (arith, split_host_port_pos buf)

tail_missing :
    (t : IpText) (k : ℕ) (reuse : Bool) (buf more : Bytes) (r : ConnectRequest × ℕ)
    → decode_tail t k reuse buf ≡ err truncated
    → decode_tail t k reuse (buf ++ more) ≡ ok r
    → 3 + k + length buf < r.1
unfolding decode_tail check_host_len
tail_missing t k reuse [] more r h l = grind (arith, split_host_port_pos more)
tail_missing t k reuse (n ∷ rest) more r h l =
    grind (arith, split_host_port_missing (n ∷ rest) more, destination_of-ne-truncated)

-- The decoder behind the three bytes of its head.
pub decode_rest : IpText → ℕ → ℕ → ℕ → Bytes → Result (ConnectRequest × ℕ)
decode_rest t v c k after = do
  fail_if (not (v == protocol_version)) (invalid_version v)
  reuse ← reuse_of c
  host_port ← ok_or (get_from after k) truncated
  decode_tail t k reuse host_port

pub decode-eq-decode_rest :
    (t : IpText) (v c k : ℕ) (after : Bytes)
    → decode_connect_request_prefix t (v ∷ c ∷ k ∷ after) ≡ decode_rest t v c k after
unfolding decode_connect_request_prefix decode_rest decode_tail control_head
decode-eq-decode_rest t v c k after = refl

pub rest_stands :
    (t : IpText) (v c k : ℕ) (after more : Bytes) (r : ConnectRequest × ℕ)
    → decode_rest t v c k after ≡ ok r
    → decode_rest t v c k (after ++ more) ≡ ok r
unfolding decode_rest
rest_stands t v c k after more r h = elim (Option-cases (get_from after k)) [
  | inl e ↦ ground (arith, e)
  | inr (ys, e) ↦
      grind (arith, e, get_from-append after more k ys e, λ (b : Bool). tail_stands t k b ys more r)
]

pub rest_refuses :
    (t : IpText) (v c k : ℕ) (after more : Bytes) (e : Error)
    → e ≢ truncated
    → decode_rest t v c k after ≡ err e
    → decode_rest t v c k (after ++ more) ≡ err e
unfolding decode_rest
rest_refuses t v c k after more e ne h = elim (Option-cases (get_from after k)) [
  | inl x ↦ ground (arith, x)
  | inr (ys, x) ↦
      grind
        (arith, x, get_from-append after more k ys x, λ (b : Bool). tail_refuses t k b ys more e ne)
]

pub rest_within :
    (t : IpText) (v c k : ℕ) (after : Bytes) (r : ConnectRequest × ℕ)
    → decode_rest t v c k after ≡ ok r
    → r.1 ≤ 3 + length after
unfolding decode_rest
rest_within t v c k after r h = grind (arith, get_from_len after k, tail_within)

pub rest_missing :
    (t : IpText) (v c k : ℕ) (after more : Bytes) (r : ConnectRequest × ℕ)
    → decode_rest t v c k after ≡ err truncated
    → decode_rest t v c k (after ++ more) ≡ ok r
    → 3 + length after < r.1
unfolding decode_rest
rest_missing t v c k after more r h l = elim (Option-cases (get_from after k)) [
  | inl e ↦
      grind (arith, e, get_from_short after k e, λ (b : Bool) (zs : Bytes). tail_least t k b zs r)
  | inr (ys, e) ↦ grind (
    arith,
    e,
    get_from-append after more k ys e,
    get_from_len after k ys e,
    reuse_of-ne-truncated,
    λ (b : Bool). tail_missing t k b ys more r,
  )
]

pub rest_least :
    (t : IpText) (v c k : ℕ) (after : Bytes) (r : ConnectRequest × ℕ)
    → decode_rest t v c k after ≡ ok r
    → 6 + k ≤ r.1
unfolding decode_rest
rest_least t v c k after r h = grind (arith, tail_least)
