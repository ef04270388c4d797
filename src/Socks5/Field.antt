-- ===== src/Socks5/Field.antt =====
-- The address field of socks5.rs, on bytes that arrive in pieces.
use snell_rs.Prelude.{
  ℕ, ◌+◌, ◌≤◌, ◌<◌, ◌≡◌, [], ◌∷◌, ◌++◌, arith, length, take, drop, length-append, ◌≢◌,
  if◌then◌else◌, ◌==◌, take-append_le, drop-append_le, length-drop,
}
use snell_rs.Kernel.Error.{
  Error, Result, ok, err, panic, need, done, ne-panic→Returns, ◌>>=◌, invalid_host_utf8,
}
use snell_rs.Kernel.Slice.{Bytes, index, index_from, from_be_bytes}
use snell_rs.Kernel.Utf8.{is_utf8}
use snell_rs.Kernel.Incremental.{IsIncremental}
use snell_rs.Address.{IpAddr, Address, ip, domain, socket_addr}
use snell_rs.Address.Wire.{ip_port_long, split_host_port_long}
use snell_rs.Socks5.Codes.{atyp_ipv4, atyp_ipv6}
use snell_rs.Socks5.{addr_len, addr_body, parse_addr}

addr_len_need : (buf : Bytes) (n : ℕ) → addr_len buf ≡ ok (need n) → length buf < n
unfolding addr_len
addr_len_need [] n h = ground arith
addr_len_need (t ∷ []) n h = ground arith
addr_len_need (t ∷ b ∷ rest) n h = ground arith

addr_len-more :
    (buf more : Bytes) (l : ℕ) → addr_len buf ≡ ok (done l) → addr_len (buf ++ more) ≡ ok (done l)
unfolding addr_len
addr_len-more [] more l h = cc
addr_len-more (t ∷ []) more l h = ground arith
addr_len-more (t ∷ b ∷ rest) more l h = ground arith

addr_len-more_err :
    (buf more : Bytes) (e : Error) → addr_len buf ≡ err e → addr_len (buf ++ more) ≡ err e
unfolding addr_len
addr_len-more_err [] more l h = cc
addr_len-more_err (t ∷ []) more l h = ground arith
addr_len-more_err (t ∷ b ∷ rest) more l h = ground arith

addr_len-ne-panic : (buf : Bytes) → addr_len buf ≢ panic
unfolding addr_len
addr_len-ne-panic [] h = cc
addr_len-ne-panic (t ∷ []) h = ground arith
addr_len-ne-panic (t ∷ b ∷ rest) h = ground arith

-- The field with more bytes behind it asks for no less than `n`.
addr_len_need_le :
    (buf more : Bytes) (n l : ℕ)
    → addr_len buf ≡ ok (need n)
    → addr_len (buf ++ more) ≡ ok (done l)
    → n ≤ l
unfolding addr_len
addr_len_need_le [] [] n l h k = ground arith
addr_len_need_le [] (t ∷ []) n l h k = ground arith
addr_len_need_le [] (t ∷ b ∷ more) n l h k = ground arith
addr_len_need_le (t ∷ []) [] n l h k = ground arith
addr_len_need_le (t ∷ []) (b ∷ more) n l h k = ground arith
addr_len_need_le (t ∷ b ∷ rest) more n l h k = ground arith

-- What a complete field holds, cut out of the bytes behind its tag.
complete_body : ℕ → ℕ → Bytes → Result Address
complete_body t n rest =
    let tail = n ∷ rest in
    if t == atyp_ipv4
    then ok (ip (socket_addr (IpAddr.v4 (take 4 tail)) (from_be_bytes (take 2 (drop 4 tail)))))
    else if t == atyp_ipv6
    then ok (ip (socket_addr (IpAddr.v6 (take 16 tail)) (from_be_bytes (take 2 (drop 16 tail)))))
    else if is_utf8 (take n rest)
    then ok (domain (take n rest) (from_be_bytes (take 2 (drop n rest))))
    else err invalid_host_utf8

addr_body-eq-complete_body :
    (t n : ℕ) (rest : Bytes) (l : ℕ)
    → addr_len (t ∷ n ∷ rest) ≡ ok (done l)
    → l ≤ length rest + 2
    → addr_body (t ∷ n ∷ rest) ≡ complete_body t n rest
unfolding addr_len addr_body index index_from complete_body
addr_body-eq-complete_body t n rest l h k = ground (
  arith,
  ip_port_long 4 IpAddr.v4 (n ∷ rest),
  ip_port_long 16 IpAddr.v6 (n ∷ rest),
  split_host_port_long n rest,
)

complete_body-more :
    (t n : ℕ) (rest more : Bytes) (l : ℕ)
    → addr_len (t ∷ n ∷ rest) ≡ ok (done l)
    → l ≤ length rest + 2
    → complete_body t n (rest ++ more) ≡ complete_body t n rest
unfolding addr_len complete_body
complete_body-more t n rest more l h k = ground (
  arith,
  take-append_le 4 (n ∷ rest) more,
  drop-append_le 4 (n ∷ rest) more,
  take-append_le 2 (drop 4 (n ∷ rest)) more,
  length-drop 4 (n ∷ rest),
  take-append_le 16 (n ∷ rest) more,
  drop-append_le 16 (n ∷ rest) more,
  take-append_le 2 (drop 16 (n ∷ rest)) more,
  length-drop 16 (n ∷ rest),
  take-append_le n rest more,
  drop-append_le n rest more,
  take-append_le 2 (drop n rest) more,
  length-drop n rest,
)

complete_body-Returns : (t n : ℕ) (rest : Bytes) → complete_body t n rest ≢ panic
unfolding complete_body
complete_body-Returns t n rest h = ground arith

-- The body of a complete field, with or without more bytes.
addr_body-more :
    (t n : ℕ) (rest more : Bytes) (l : ℕ)
    → addr_len (t ∷ n ∷ rest) ≡ ok (done l)
    → l ≤ length rest + 2
    → addr_body (t ∷ n ∷ (rest ++ more)) ≡ addr_body (t ∷ n ∷ rest)
addr_body-more t n rest more l h k = ground (
  arith,
  addr_body-eq-complete_body t n rest l h k,
  addr_body-eq-complete_body t n (rest ++ more) l,
  addr_len-more (t ∷ n ∷ rest) more l h,
  complete_body-more t n rest more l h k,
  length-append rest more,
)

addr_body-ne-panic :
    (t n : ℕ) (rest : Bytes) (l : ℕ)
    → addr_len (t ∷ n ∷ rest) ≡ ok (done l)
    → l ≤ length rest + 2
    → addr_body (t ∷ n ∷ rest) ≢ panic
addr_body-ne-panic t n rest l h k e =
    complete_body-Returns t n rest (cc (addr_body-eq-complete_body t n rest l h k))

-- `parse_addr` when the length of the field is known.
parse_addr_short :
    (buf : Bytes) (l : ℕ)
    → addr_len buf ≡ ok (done l)
    → length buf < l
    → parse_addr buf ≡ ok (need l)
unfolding parse_addr
parse_addr_short buf l h k = ground arith

parse_addr_long :
    (buf : Bytes) (l : ℕ)
    → addr_len buf ≡ ok (done l)
    → l ≤ length buf
    → parse_addr buf ≡ (addr_body buf >>= λ address. ok (done (address, l)))
unfolding parse_addr
parse_addr_long buf l h k = ground arith

pub parse_addr-ne-panic : (buf : Bytes) → parse_addr buf ≢ panic
unfolding parse_addr
parse_addr-ne-panic [] h = unfold addr_len in ground arith
parse_addr-ne-panic (t ∷ []) h = unfold addr_len in ground arith
parse_addr-ne-panic (t ∷ n ∷ rest) h = grind (arith, addr_len-ne-panic, addr_body-ne-panic)

pub parse_addr_asks_more : (buf : Bytes) (n : ℕ) → parse_addr buf ≡ ok (need n) → length buf < n
unfolding parse_addr
parse_addr_asks_more buf n h = grind (arith, addr_len_need)

pub parse_addr_stands :
    (buf more : Bytes) (r : Address × ℕ)
    → parse_addr buf ≡ ok (done r)
    → parse_addr (buf ++ more) ≡ ok (done r)
unfolding parse_addr
parse_addr_stands [] more r h = unfold addr_len in ground arith
parse_addr_stands (t ∷ []) more r h = unfold addr_len in ground arith
parse_addr_stands (t ∷ n ∷ rest) more r h = grind (
  arith,
  addr_len-more (t ∷ n ∷ rest) more,
  addr_body-more t n rest more,
  length-append rest more,
)

pub parse_addr_refuses :
    (buf more : Bytes) (e : Error) → parse_addr buf ≡ err e → parse_addr (buf ++ more) ≡ err e
unfolding parse_addr
parse_addr_refuses [] more e h = unfold addr_len in ground arith
parse_addr_refuses (t ∷ []) more e h = unfold addr_len in ground arith
parse_addr_refuses (t ∷ n ∷ rest) more e h = grind (
  arith,
  addr_len-more (t ∷ n ∷ rest) more,
  addr_len-more_err (t ∷ n ∷ rest) more,
  addr_body-more t n rest more,
  length-append rest more,
)

pub parse_addr_within :
    (buf : Bytes) (r : Address × ℕ) → parse_addr buf ≡ ok (done r) → r.1 ≤ length buf
unfolding parse_addr
parse_addr_within buf r h = grind arith

pub parse_addr_no_more_than :
    (buf more : Bytes) (n : ℕ) (r : Address × ℕ)
    → parse_addr buf ≡ ok (need n)
    → parse_addr (buf ++ more) ≡ ok (done r)
    → n ≤ r.1
unfolding parse_addr
parse_addr_no_more_than buf more n r h k =
    grind (arith, addr_len_need_le buf more, addr_len-more buf more)

-- `parse_addr` is an incremental parser.
pub parse_addr-IsIncremental : IsIncremental parse_addr (λ r. r.1)
parse_addr-IsIncremental = record {
  returns = λ buf. ne-panic→Returns _ (parse_addr-ne-panic buf);
  asks_more = parse_addr_asks_more;
  stands = parse_addr_stands;
  refuses = parse_addr_refuses;
  within = parse_addr_within;
  no_more_than = parse_addr_no_more_than;
}

addr_len_min : (buf : Bytes) (l : ℕ) → addr_len buf ≡ ok (done l) → 5 ≤ l
unfolding addr_len
addr_len_min [] l h = ground arith
addr_len_min (t ∷ []) l h = ground arith
addr_len_min (t ∷ n ∷ rest) l h = ground arith

pub parse_addr_min : (buf : Bytes) (r : Address × ℕ) → parse_addr buf ≡ ok (done r) → 5 ≤ r.1
unfolding parse_addr
parse_addr_min buf r h = grind (arith, addr_len_min)
