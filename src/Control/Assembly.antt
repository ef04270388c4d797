-- ===== src/Control/Assembly.antt =====
-- `PlainStream::connect` and `PlainStream::udp_setup` of control/stream.rs, over prefixes that are
-- spread over records.
use snell_rs.Prelude.{ℕ, ◌≤◌, ◌<◌, ◌≡◌, refl, [], ◌∷◌, ◌++◌, arith, length, length-append, ◌≢◌}
use snell_rs.Kernel.Error.{Error, truncated, Result, ok, err, Returns, done}
use snell_rs.Kernel.Slice.{Bytes}
use snell_rs.Kernel.Incremental.{IsIncremental, CutOf, cut}
use snell_rs.Address.Text.{IpText}
use snell_rs.Control.{
  ConnectRequest, control_head, decode_connect_request_prefix, decode_udp_setup_prefix,
}
use snell_rs.Control.Stream.{connect, udp_setup}
use snell_rs.Control.Decode.{decode_connect_request_prefix-Returns}
use snell_rs.Control.Incremental.{IsPrefixDecoder, parse-IsIncremental}
use snell_rs.Control.Prefix.{
  decode_rest, decode-eq-decode_rest, rest_stands, rest_refuses, rest_within, rest_missing,
  rest_least,
}

module _ (t : IpText) where
  abbrev decode : Bytes → Result (ConnectRequest × ℕ)
  decode = decode_connect_request_prefix t

  decode_short :
      (v c : ℕ)
      → (decode [] ≡ err truncated)
        × (decode (v ∷ []) ≡ err truncated)
        × (decode (v ∷ c ∷ []) ≡ err truncated)
  unfolding decode_connect_request_prefix control_head
  decode_short v c = (refl, refl, refl)

  -- The three bytes of the head are missing, or the decoder goes on behind them.
  decode_rest_at :
      (v c k : ℕ) (after : Bytes) {r : Result (ConnectRequest × ℕ)}
      → decode (v ∷ c ∷ k ∷ after) ≡ r
      → decode_rest t v c k after ≡ r
  decode_rest_at v c k after h = cc (decode-eq-decode_rest t v c k after)

  at_decode_rest :
      (v c k : ℕ) (after : Bytes) {r : Result (ConnectRequest × ℕ)}
      → decode_rest t v c k after ≡ r
      → decode (v ∷ c ∷ k ∷ after) ≡ r
  at_decode_rest v c k after h = cc (decode-eq-decode_rest t v c k after)

  stands :
      (buf more : Bytes) (r : ConnectRequest × ℕ) → decode buf ≡ ok r → decode (buf ++ more) ≡ ok r
  stands [] more r h = cc ((decode_short 0 0).0)
  stands (v ∷ []) more r h = cc ((decode_short v 0).1)
  stands (v ∷ c ∷ []) more r h = cc ((decode_short v c).2)
  stands (v ∷ c ∷ k ∷ after) more r h =
      at_decode_rest v c k (after ++ more)
        (rest_stands t v c k after more r (decode_rest_at v c k after h))

  refuses :
      (buf more : Bytes) (e : Error)
      → e ≢ truncated
      → decode buf ≡ err e
      → decode (buf ++ more) ≡ err e
  refuses [] more e ne h = absurd (ne (cc ((decode_short 0 0).0)))
  refuses (v ∷ []) more e ne h = absurd (ne (cc ((decode_short v 0).1)))
  refuses (v ∷ c ∷ []) more e ne h = absurd (ne (cc ((decode_short v c).2)))
  refuses (v ∷ c ∷ k ∷ after) more e ne h =
      at_decode_rest v c k (after ++ more)
        (rest_refuses t v c k after more e ne (decode_rest_at v c k after h))

  within : (buf : Bytes) (r : ConnectRequest × ℕ) → decode buf ≡ ok r → r.1 ≤ length buf
  within [] r h = cc ((decode_short 0 0).0)
  within (v ∷ []) r h = cc ((decode_short v 0).1)
  within (v ∷ c ∷ []) r h = cc ((decode_short v c).2)
  within (v ∷ c ∷ k ∷ after) r h =
      omega (arith, rest_within t v c k after r (decode_rest_at v c k after h))

  least : (buf : Bytes) (r : ConnectRequest × ℕ) → decode buf ≡ ok r → 6 ≤ r.1
  least [] r h = cc ((decode_short 0 0).0)
  least (v ∷ []) r h = cc ((decode_short v 0).1)
  least (v ∷ c ∷ []) r h = cc ((decode_short v c).2)
  least (v ∷ c ∷ k ∷ after) r h =
      omega (arith, rest_least t v c k after r (decode_rest_at v c k after h))

  missing :
      (buf more : Bytes) (r : ConnectRequest × ℕ)
      → decode buf ≡ err truncated
      → decode (buf ++ more) ≡ ok r
      → length buf < r.1
  missing [] more r h l = omega (arith, least more r l)
  missing (v ∷ []) more r h l = omega (arith, least (v ∷ more) r l)
  missing (v ∷ c ∷ []) more r h l = omega (arith, least (v ∷ c ∷ more) r l)
  missing (v ∷ c ∷ k ∷ after) more r h l = omega (
    arith,
    rest_missing t v c k after more r (decode_rest_at v c k after h)
        (decode_rest_at v c k (after ++ more) l),
  )

  connect-IsPrefixDecoder : IsPrefixDecoder decode (λ r. r.1)
  connect-IsPrefixDecoder = record {
    returns = decode_connect_request_prefix-Returns t;
    stands = stands;
    refuses = refuses;
    within = within;
    missing = missing;
  }

  -- `PlainStream::connect` parses a CONNECT prefix incrementally, however it is cut.
  pub connect-IsIncremental : IsIncremental (connect t) (λ r. r.1)
  unfolding connect
  connect-IsIncremental = parse-IsIncremental decode (λ r. r.1) connect-IsPrefixDecoder

setup-Returns : (buf : Bytes) → Returns (decode_udp_setup_prefix buf)
unfolding decode_udp_setup_prefix control_head
setup-Returns (v ∷ c ∷ k ∷ after) = ground arith
setup-Returns _ = tt

setup_stands :
    (buf more : Bytes) (n : ℕ)
    → decode_udp_setup_prefix buf ≡ ok n
    → decode_udp_setup_prefix (buf ++ more) ≡ ok n
unfolding decode_udp_setup_prefix control_head
setup_stands (v ∷ c ∷ k ∷ after) more n h = ground (arith, length-append after more)
setup_stands _ more n h = ground arith

setup_refuses :
    (buf more : Bytes) (e : Error)
    → e ≢ truncated
    → decode_udp_setup_prefix buf ≡ err e
    → decode_udp_setup_prefix (buf ++ more) ≡ err e
unfolding decode_udp_setup_prefix control_head
setup_refuses (v ∷ c ∷ k ∷ after) more e ne h = ground (arith, length-append after more)
setup_refuses _ more e ne h = ground arith

setup_within : (buf : Bytes) (n : ℕ) → decode_udp_setup_prefix buf ≡ ok n → n ≤ length buf
unfolding decode_udp_setup_prefix control_head
setup_within (v ∷ c ∷ k ∷ after) n h = ground arith
setup_within _ n h = ground arith

setup_least : (buf : Bytes) (n : ℕ) → decode_udp_setup_prefix buf ≡ ok n → 3 ≤ n
unfolding decode_udp_setup_prefix control_head
setup_least (v ∷ c ∷ k ∷ after) n h = ground arith
setup_least _ n h = ground arith

setup_missing :
    (buf more : Bytes) (n : ℕ)
    → decode_udp_setup_prefix buf ≡ err truncated
    → decode_udp_setup_prefix (buf ++ more) ≡ ok n
    → length buf < n
unfolding decode_udp_setup_prefix control_head
setup_missing (v ∷ c ∷ k ∷ after) more n h l = ground (arith, length-append after more)
setup_missing [] more n h l = omega (arith, setup_least more n l)
setup_missing (v ∷ []) more n h l = omega (arith, setup_least (v ∷ more) n l)
setup_missing (v ∷ c ∷ []) more n h l = omega (arith, setup_least (v ∷ c ∷ more) n l)

setup-IsPrefixDecoder : IsPrefixDecoder decode_udp_setup_prefix (λ n. n)
setup-IsPrefixDecoder = record {
  returns = setup-Returns;
  stands = setup_stands;
  refuses = setup_refuses;
  within = setup_within;
  missing = setup_missing;
}

-- `PlainStream::udp_setup` parses a UDP setup incrementally.
pub udp_setup-IsIncremental : IsIncremental udp_setup (λ n. n)
unfolding udp_setup
udp_setup-IsIncremental = parse-IsIncremental decode_udp_setup_prefix (λ n. n) setup-IsPrefixDecoder

-- However the bytes of a CONNECT are spread over records, `PlainStream::connect` finishes with the
-- same request once all of it is there, and until then asks for more bytes than there are and for
-- none behind the request.
pub connect_cut :
    (t : IpText) (front more : Bytes) (message : ConnectRequest × ℕ)
    → connect t (front ++ more) ≡ ok (done message)
    → CutOf (connect t) (λ r. r.1) front message
connect_cut t front more message h =
    cut (connect t) (λ r. r.1) (connect-IsIncremental t) front more message h

-- However a UDP setup is cut, the front either holds the setup whole and is read as the setup, or the parser
-- asks for more bytes than there are and for none behind the setup.
pub udp_setup_cut :
    (front more : Bytes) (message : ℕ)
    → udp_setup (front ++ more) ≡ ok (done message)
    → CutOf udp_setup (λ n. n) front message
udp_setup_cut front more message h =
    cut udp_setup (λ n. n) udp_setup-IsIncremental front more message h
