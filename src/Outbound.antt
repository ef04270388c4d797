-- ===== src/Outbound.antt =====
-- The SOCKS5 client of crates/snell-runtime/src/server/outbound.rs, on a stream as the accept has one.
pub mod Returned
pub mod Exchange
use snell_rs.Prelude.{
  ℕ, ◌+◌, [], ◌∷◌, ◌++◌, length, take, drop, replicate, leb, ◌==◌, if◌then◌else◌,
}
use snell_rs.Kernel.Error.{oversized_reply, ParseState, need, done, Result, ok, err, panic}
use snell_rs.Kernel.Slice.{Bytes, index_to}
use snell_rs.Address.{Address}
use snell_rs.Session.{
  SessionError, no_acceptable_method, io, from_protocol, unexpected_eof, other_kind,
}
use snell_rs.Socks5.{ReplyMessage, method_selection_need, reply_need}
use snell_rs.Socks5.Codes.{Command, Reply, succeeded}
use snell_rs.Socks5.Encode.{encode_greeting, encode_request}
use snell_rs.Client.{
  Stream, Session, returned, failed, panicked, ◌>>=◌, read_message, max_request_len, method_no_auth,
}

-- The `?` behind a call of the protocol.
abbrev pub lift {ℓ} : {A : Type ℓ} → Result A → Stream → Session A
lift (ok a) s = returned a s
lift (err e) s = failed (from_protocol e) s
lift panic s = panicked

abbrev pub write_all : Bytes → Stream → Session (Unit {0})
write_all bytes s = returned tt (record s { written = s.written ++ bytes })

unfoldable pub read_exact : ℕ → Stream → Session Bytes
read_exact n s =
    if leb n (length s.incoming)
    then returned (take n s.incoming) (record s { incoming = drop n s.incoming })
    else failed (io unexpected_eof) (record s { incoming = [] })

-- The `match` on the method.
abbrev pub select : ParseState ℕ → Stream → Session (Unit {0})
select (done method) s =
    if method == method_no_auth then returned tt s else failed no_acceptable_method s
select (need _) s = failed (io unexpected_eof) s

-- The `Done` arms of the loop.
abbrev pub succeed : ReplyMessage → Stream → Session Address
succeed reply s = elim reply.reply [
  | succeeded ↦ returned reply.bind s
  | _ ↦ failed (io other_kind) s
]

-- The greeting and the method, up to the request. `buf` is one array throughout: the method stands in
-- its first two bytes when the request is written.
unfoldable pub greet : Stream → Session Bytes
greet s =
    lift (encode_greeting (replicate max_request_len 0) (method_no_auth ∷ [])) s >>= λ greeting s1.
    lift (index_to greeting.1 greeting.0) s1 >>= λ out s2. write_all out s2 >>= λ _ s3.
    read_exact 2 s3 >>= λ answer s4. lift (method_selection_need answer) s4 >>= λ method s5.
    select method s5 >>= λ _ s6. returned (answer ++ drop 2 greeting.1) s6

unfoldable pub request : Command → Address → Bytes → Stream → Session Address
request command destination buf s = lift (encode_request buf command destination) s >>= λ r s1.
    lift (index_to r.1 r.0) s1 >>= λ out s2. write_all out s2 >>= λ _ s3.
    read_message reply_need max_request_len oversized_reply (max_request_len + 1) [] s3 >>= succeed

unfoldable pub socks5_request : Command → Address → Stream → Session Address
socks5_request command destination s = greet s >>= request command destination
