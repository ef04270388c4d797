-- ===== src/Socks5/Messages.antt =====
-- The messages of socks5.rs, on bytes that arrive in pieces, and its datagrams.
use snell_rs.Prelude.{
  ℕ, ◌≤◌, ◌<◌, ◌≡◌, refl, [], ◌∷◌, ◌++◌, arith, length, length-append, take-append_le,
}
use snell_rs.Kernel.Error.{Error, ok, err, need, done, Returns}
use snell_rs.Kernel.Slice.{Bytes, index, index_from, get_to}
use snell_rs.Kernel.Incremental.{IsIncremental, CutOf, cut}
use snell_rs.Address.{Address}
use snell_rs.Socks5.{
  Request, ReplyMessage, parse_cmd_addr, greeting_need, request_need, reply_need, Greeting,
  parse_udp_packet,
}
use snell_rs.Socks5.Field.{
  parse_addr-ne-panic, parse_addr_asks_more, parse_addr_stands, parse_addr_refuses,
  parse_addr_within, parse_addr_no_more_than, parse_addr_min,
}

module _ {ℓ} {T : Type ℓ} (build : ℕ → Address → ℕ → T) (size : T → ℕ)
    (sized : (c : ℕ) (a : Address) (n : ℕ) → size (build c a n) ≡ n) where
  cmd-Returns : (buf : Bytes) → Returns (parse_cmd_addr buf build)
  unfolding parse_cmd_addr index index_from
  cmd-Returns [] = ground arith
  cmd-Returns (a ∷ []) = ground arith
  cmd-Returns (a ∷ b ∷ []) = ground arith
  cmd-Returns (a ∷ b ∷ c ∷ []) = ground arith
  cmd-Returns (a ∷ b ∷ c ∷ d ∷ rest) = ground (arith, parse_addr-ne-panic (d ∷ rest))

  cmd_asks_more : (buf : Bytes) (n : ℕ) → parse_cmd_addr buf build ≡ ok (need n) → length buf < n
  unfolding parse_cmd_addr index index_from
  cmd_asks_more [] n h = ground arith
  cmd_asks_more (a ∷ []) n h = ground arith
  cmd_asks_more (a ∷ b ∷ []) n h = ground arith
  cmd_asks_more (a ∷ b ∷ c ∷ []) n h = ground arith
  cmd_asks_more (a ∷ b ∷ c ∷ d ∷ rest) n h = grind (arith, parse_addr_asks_more (d ∷ rest))

  cmd_stands :
      (buf more : Bytes) (t : T)
      → parse_cmd_addr buf build ≡ ok (done t)
      → parse_cmd_addr (buf ++ more) build ≡ ok (done t)
  unfolding parse_cmd_addr index index_from
  cmd_stands [] more t h = ground arith
  cmd_stands (a ∷ []) more t h = ground arith
  cmd_stands (a ∷ b ∷ []) more t h = ground arith
  cmd_stands (a ∷ b ∷ c ∷ []) more t h = ground arith
  cmd_stands (a ∷ b ∷ c ∷ d ∷ rest) more t h = grind (arith, parse_addr_stands (d ∷ rest) more)

  cmd_refuses :
      (buf more : Bytes) (e : Error)
      → parse_cmd_addr buf build ≡ err e
      → parse_cmd_addr (buf ++ more) build ≡ err e
  unfolding parse_cmd_addr index index_from
  cmd_refuses [] more t h = ground arith
  cmd_refuses (a ∷ []) more t h = ground arith
  cmd_refuses (a ∷ b ∷ []) more t h = ground arith
  cmd_refuses (a ∷ b ∷ c ∷ []) more t h = ground arith
  cmd_refuses (a ∷ b ∷ c ∷ d ∷ rest) more t h = grind (arith, parse_addr_refuses (d ∷ rest) more)

  cmd_within : (buf : Bytes) (t : T) → parse_cmd_addr buf build ≡ ok (done t) → size t ≤ length buf
  unfolding parse_cmd_addr index index_from
  cmd_within [] t h = ground arith
  cmd_within (a ∷ []) t h = ground arith
  cmd_within (a ∷ b ∷ []) t h = ground arith
  cmd_within (a ∷ b ∷ c ∷ []) t h = ground arith
  cmd_within (a ∷ b ∷ c ∷ d ∷ rest) t h = grind (arith, parse_addr_within (d ∷ rest), sized b)

  cmd_min : (buf : Bytes) (t : T) → parse_cmd_addr buf build ≡ ok (done t) → 4 ≤ size t
  unfolding parse_cmd_addr index index_from
  cmd_min [] t h = ground arith
  cmd_min (a ∷ []) t h = ground arith
  cmd_min (a ∷ b ∷ []) t h = ground arith
  cmd_min (a ∷ b ∷ c ∷ []) t h = ground arith
  cmd_min (a ∷ b ∷ c ∷ d ∷ rest) t h = grind (arith, parse_addr_min (d ∷ rest), sized b)

  cmd_no_more_than :
      (buf more : Bytes) (n : ℕ) (t : T)
      → parse_cmd_addr buf build ≡ ok (need n)
      → parse_cmd_addr (buf ++ more) build ≡ ok (done t)
      → n ≤ size t
  unfolding parse_cmd_addr index index_from
  cmd_no_more_than (a ∷ b ∷ c ∷ d ∷ rest) more n t h k =
      grind (arith, parse_addr_no_more_than (d ∷ rest) more, sized b)
  cmd_no_more_than buf more n t h k = ground (arith, cmd_min (buf ++ more) t k)

  cmd-IsIncremental : IsIncremental (λ buf. parse_cmd_addr buf build) size
  cmd-IsIncremental = record {
    returns = cmd-Returns;
    asks_more = cmd_asks_more;
    stands = cmd_stands;
    refuses = cmd_refuses;
    within = cmd_within;
    no_more_than = cmd_no_more_than;
  }

-- `request_need` and `reply_need` are incremental parsers of as many bytes as `header_len` says.
pub request_need-IsIncremental : IsIncremental request_need (λ r. r.header_len)
unfolding request_need
request_need-IsIncremental = cmd-IsIncremental _ _ (λ c a n. refl)

pub reply_need-IsIncremental : IsIncremental reply_need (λ r. r.header_len)
unfolding reply_need
reply_need-IsIncremental = cmd-IsIncremental _ _ (λ c a n. refl)

greeting-Returns : (buf : Bytes) → Returns (greeting_need buf)
unfolding greeting_need get_to
greeting-Returns [] = tt
greeting-Returns (a ∷ []) = tt
greeting-Returns (a ∷ b ∷ ms) = ground arith

greeting_asks_more : (buf : Bytes) (n : ℕ) → greeting_need buf ≡ ok (need n) → length buf < n
unfolding greeting_need get_to
greeting_asks_more [] n h = ground arith
greeting_asks_more (a ∷ []) n h = ground arith
greeting_asks_more (a ∷ b ∷ ms) n h = ground arith

greeting_stands :
    (buf more : Bytes) (g : Greeting)
    → greeting_need buf ≡ ok (done g)
    → greeting_need (buf ++ more) ≡ ok (done g)
unfolding greeting_need get_to
greeting_stands [] more g h = ground arith
greeting_stands (a ∷ []) more g h = ground arith
greeting_stands (a ∷ b ∷ ms) more g h =
    ground (arith, length-append ms more, take-append_le b ms more)

greeting_refuses :
    (buf more : Bytes) (e : Error) → greeting_need buf ≡ err e → greeting_need (buf ++ more) ≡ err e
unfolding greeting_need get_to
greeting_refuses [] more g h = ground arith
greeting_refuses (a ∷ []) more g h = ground arith
greeting_refuses (a ∷ b ∷ ms) more g h = ground arith

greeting_within :
    (buf : Bytes) (g : Greeting) → greeting_need buf ≡ ok (done g) → g.consumed_len ≤ length buf
unfolding greeting_need get_to
greeting_within [] g h = ground arith
greeting_within (a ∷ []) g h = ground arith
greeting_within (a ∷ b ∷ ms) g h = ground arith

greeting_no_more_than :
    (buf more : Bytes) (n : ℕ) (g : Greeting)
    → greeting_need buf ≡ ok (need n)
    → greeting_need (buf ++ more) ≡ ok (done g)
    → n ≤ g.consumed_len
unfolding greeting_need get_to
greeting_no_more_than [] [] n g h k = ground arith
greeting_no_more_than [] (x ∷ []) n g h k = ground arith
greeting_no_more_than [] (x ∷ y ∷ more) n g h k = ground arith
greeting_no_more_than (a ∷ []) [] n g h k = ground arith
greeting_no_more_than (a ∷ []) (x ∷ more) n g h k = ground arith
greeting_no_more_than (a ∷ b ∷ ms) more n g h k = ground arith

-- `greeting_need` is an incremental parser of as many bytes as `consumed_len` says.
pub greeting_need-IsIncremental : IsIncremental greeting_need (λ g. g.consumed_len)
greeting_need-IsIncremental = record {
  returns = greeting-Returns;
  asks_more = greeting_asks_more;
  stands = greeting_stands;
  refuses = greeting_refuses;
  within = greeting_within;
  no_more_than = greeting_no_more_than;
}

-- No datagram makes the parser of SOCKS5 datagrams panic: all its indices and slices are in range.
pub parse_udp_packet-Returns : (buf : Bytes) → Returns (parse_udp_packet buf)
unfolding parse_udp_packet index index_from
parse_udp_packet-Returns [] = tt
parse_udp_packet-Returns (a ∷ []) = tt
parse_udp_packet-Returns (a ∷ b ∷ []) = tt
parse_udp_packet-Returns (a ∷ b ∷ c ∷ []) = tt
parse_udp_packet-Returns (a ∷ b ∷ c ∷ d ∷ rest) =
    grind (arith, parse_addr-ne-panic (d ∷ rest), parse_addr_within (d ∷ rest))

-- However a SOCKS5 greeting is cut, the parser finishes with the same greeting if the front holds
-- all of it, and otherwise asks for more bytes than there are and for none behind the greeting.
pub greeting_need_cut :
    (front more : Bytes) (message : Greeting)
    → greeting_need (front ++ more) ≡ ok (done message)
    → CutOf greeting_need (λ g. g.consumed_len) front message
greeting_need_cut front more message h =
    cut greeting_need (λ g. g.consumed_len) greeting_need-IsIncremental front more message h

-- However a SOCKS5 request is cut, the parser finishes with the same request if the front holds
-- all of it, and otherwise asks for more bytes than there are and for none behind the request.
pub request_need_cut :
    (front more : Bytes) (message : Request)
    → request_need (front ++ more) ≡ ok (done message)
    → CutOf request_need (λ r. r.header_len) front message
request_need_cut front more message h =
    cut request_need (λ r. r.header_len) request_need-IsIncremental front more message h

-- However a reply is cut, the front either holds the reply whole and is read as the reply, or the parser
-- asks for more bytes than there are and for none behind the reply.
pub reply_need_cut :
    (front more : Bytes) (message : ReplyMessage)
    → reply_need (front ++ more) ≡ ok (done message)
    → CutOf reply_need (λ r. r.header_len) front message
reply_need_cut front more message h =
    cut reply_need (λ r. r.header_len) reply_need-IsIncremental front more message h
