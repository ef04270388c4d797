-- ===== src/Outbound/Exchange.antt =====
-- The two ends of a SOCKS5 exchange: server/outbound.rs and client/socks.rs.
use snell_rs.Prelude.{
  ℕ, ◌+◌, ◌≤◌, ◌≡◌, refl, sym, ap, ◌∙◌, [], ◌∷◌, ◌++◌, length, take, drop, replicate, arith,
  length-take_of_le, append_assoc, take-append-drop, true, le→leb,
}
use snell_rs.Kernel.Error.{done, ok, oversized_reply}
use snell_rs.Kernel.Incremental.{cut, finished, waits}
use snell_rs.Kernel.Slice.{Bytes, index_to, index_to_le, get_to, contains}
use snell_rs.Address.{Address}
use snell_rs.Address.Wire.{IsAddress, on_wire}
use snell_rs.Socks5.{
  Greeting, Request, ReplyMessage, method_selection_need, reply_need, request_need, greeting_need,
  supports,
}
use snell_rs.Socks5.Codes.{Command, connect, succeeded, command_from, command_into}
use snell_rs.Socks5.Encode.{encode_request}
use snell_rs.Socks5.Messages.{reply_need-IsIncremental, request_need-IsIncremental}
use snell_rs.Socks5.RoundTrip.{request_need-encode_request}
use snell_rs.Client.{
  Stream, returned, max_request_len, method_no_auth, accept_socks5, connect_to, run_command, ◌>>=◌,
}
use snell_rs.Client.Read.{read_message_from}
use snell_rs.Client.Accept.{accept_socks5_lem}
use snell_rs.Outbound.Returned.{
  greeting_written, >>=-eq-returned, greet-eq-returned, request-eq-returned,
}
use snell_rs.Outbound.{greet, request, socks5_request, read_exact}

-- The buffer when the request is written: the method is in front.
abbrev pub answered : Bytes
answered = 5 ∷ 0 ∷ 0 ∷ replicate 259 0

greet_lem :
    (rest w : Bytes)
    → greet (record { incoming = 5 ∷ 0 ∷ rest; written = w })
      ≡ returned answered (record { incoming = rest; written = w ++ (5 ∷ 1 ∷ 0 ∷ []) })
unfolding greet index_to read_exact method_selection_need
greet_lem rest w = rw (greet, greeting_written, le→leb 2 (length (5 ∷ 0 ∷ rest)) (omega arith)) refl

request_lem :
    (c : Command) (a : Address) (n : ℕ) (old buf r more w : Bytes) (reply : ReplyMessage)
    → encode_request old c a ≡ ok (n, buf)
    → n ≤ length buf
    → reply_need r ≡ ok (done reply)
    → reply.header_len ≡ length r
    → length r ≤ max_request_len
    → reply.reply ≡ succeeded
    → request c a old (record { incoming = r ++ more; written = w })
      ≡ returned reply.bind (record { incoming = more; written = w ++ take n buf })
unfolding request
request_lem c a n old buf r more w reply e fits h whole size good =
    rw
      (
        request,
        e,
        index_to_le buf n fits,
        read_message_from reply_need (λ q. q.header_len) reply_need-IsIncremental max_request_len
            oversized_reply (max_request_len + 1) [] r more (w ++ take n buf) reply h whole
            (omega arith) (omega arith),
        good,
      )
      refl

-- If the upstream answers the greeting with method 0 and the request with a reply of success,
-- parsed whole and within the buffer, `socks5_request` returns the bound address of the reply, has
-- written the greeting and the encoded request, and all that the upstream sends behind the reply
-- is still in the stream.
pub socks5_request_lem :
    (c : Command) (a : Address) (n : ℕ) (buf r more w : Bytes) (reply : ReplyMessage)
    → encode_request answered c a ≡ ok (n, buf)
    → n ≤ length buf
    → reply_need r ≡ ok (done reply)
    → reply.header_len ≡ length r
    → length r ≤ max_request_len
    → reply.reply ≡ succeeded
    → socks5_request c a (record { incoming = 5 ∷ 0 ∷ (r ++ more); written = w })
      ≡ returned reply.bind
          (record { incoming = more; written = (w ++ (5 ∷ 1 ∷ 0 ∷ [])) ++ take n buf })
unfolding socks5_request
socks5_request_lem c a n buf r more w reply e fits h whole size good =
    ap (λ m. m >>= request c a) (greet_lem (r ++ more) w)
    ∙ request_lem c a n answered buf r more (w ++ (5 ∷ 1 ∷ 0 ∷ [])) reply e fits h whole size good

abbrev greeting : Bytes
greeting = 5 ∷ 1 ∷ 0 ∷ []

abbrev greeted : Greeting
greeted = record { methods = 0 ∷ []; consumed_len = 3 }

greeting_read : greeting_need greeting ≡ ok (done greeted)
unfolding greeting_need get_to
greeting_read = refl

no_auth : supports greeted method_no_auth ≡ true
unfolding supports contains
no_auth = refl

-- A parser that finished with as many bytes as stand in front does so on them alone.
front_alone :
    (front back : Bytes) (q : Request)
    → request_need (front ++ back) ≡ ok (done q)
    → q.header_len ≡ length front
    → request_need front ≡ ok (done q)
front_alone front back q h size =
    elim (cut request_need (λ q. q.header_len) request_need-IsIncremental front back q h) [
      | finished e within ↦ e
      | waits m e lo hi ↦ absurd (omega arith)
    ]

-- The greeting and an encoded request that fits the buffer of `accept_socks5` are accepted by it.
accept_socks5-encode_request :
    (a : Address) (n : ℕ) (old buf more w : Bytes)
    → IsAddress a
    → encode_request old connect a ≡ ok (n, buf)
    → n ≤ length buf
    → n ≤ max_request_len
    → accept_socks5 (record { incoming = (5 ∷ 1 ∷ 0 ∷ []) ++ (take n buf ++ more); written = w })
      ≡ returned (connect_to (on_wire a)) (record { incoming = more; written = w ++ (5 ∷ 0 ∷ []) })
unfolding command_from command_into run_command
accept_socks5-encode_request a n old buf more w v e fits small =
    let size : length (take n buf) ≡ n = length-take_of_le n buf fits in
    let q : Request = record { command = connect; destination = on_wire a; header_len = n } in
    let parsed : request_need (take n buf) ≡ ok (done q) =
      front_alone (take n buf) (drop n buf) q
        (ap request_need (take-append-drop n buf)
          ∙ (request_need-encode_request old connect a v e).0)
        (sym size) in
    accept_socks5_lem greeting (take n buf) more w greeted q greeting_read refl (omega arith)
      no_auth parsed (sym size) (omega (arith, size))

-- If `socks5_request` returns for a CONNECT to a well-formed address, whatever the upstream sent,
-- then `accept_socks5` accepts what it has written, with anything behind it: it goes on to connect
-- to that address as the wire carries it, has answered method 0 and nothing more, and leaves what
-- stands behind the request in the stream.
pub accept_socks5-socks5_request :
    (a bind : Address) (i more w : Bytes) (t : Stream)
    → IsAddress a
    → socks5_request connect a (record { incoming = i; written = [] }) ≡ returned bind t
    → accept_socks5 (record { incoming = t.written ++ more; written = w })
      ≡ returned (connect_to (on_wire a)) (record { incoming = more; written = w ++ (5 ∷ 0 ∷ []) })
unfolding socks5_request
accept_socks5-socks5_request a bind i more w t v h =
    let s0 : Stream = record { incoming = i; written = [] } in
    let (old, s1, h1, k1) = >>=-eq-returned (greet s0) (request connect a) h in
    let (size, greeted) = greet-eq-returned s0 s1 old h1 in
    let (n, buf, e, fits, sent) = request-eq-returned connect a old s1 t bind k1 in
    let kept = (request_need-encode_request old connect a v e).2 in
    let bytes : t.written ++ more ≡ (5 ∷ 1 ∷ 0 ∷ []) ++ (take n buf ++ more) =
      ap (λ q. q ++ more) (sent ∙ ap (λ q. q ++ take n buf) greeted)
      ∙ append_assoc (5 ∷ 1 ∷ 0 ∷ []) (take n buf) more in
    ap (λ q. accept_socks5 (record { incoming = q; written = w })) bytes
    ∙ accept_socks5-encode_request a n old buf more w v e fits (omega (arith, kept, size))
