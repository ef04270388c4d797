-- ===== src/Client.antt =====
-- crates/snell-runtime/src/client/socks.rs: the SOCKS5 accept of the client. A stream is what the
-- peer sends until it ends the stream, and what has been written to it; writing does not fail.
pub mod Read
pub mod Accept
pub mod Refusal
use snell_rs.Prelude.{
  ℕ, zero, suc, ◌+◌, ◌-◌, ◌≤◌, [], ◌∷◌, ◌++◌, Bool, true, false, ◌&&◌, not, length, take, drop,
  replicate, ltb, leb, if◌then◌else◌,
}
use snell_rs.Kernel.Error.{
  Error, malformed, Malformed, oversized_greeting, oversized_request, ParseState, need, done,
  Result, ok, err, panic,
}
use snell_rs.Kernel.Slice.{Bytes}
use snell_rs.Kernel.Consts.{max_domain_len}
use snell_rs.Address.{SocketAddr, Address, ip}
use snell_rs.Session.{
  SessionError, no_acceptable_method, connect_timeout, handshake_timeout, io, from_protocol,
  IoErrorKind, unexpected_eof, connection_aborted, connection_reset, timed_out, not_found,
  addr_not_available,
}
use snell_rs.Socks5.{Greeting, Request, supports, greeting_need, request_need}
use snell_rs.Socks5.Codes.{
  Command, connect, udp_associate, Reply, command_not_supported, general_failure, ttl_expired,
  host_unreachable, address_type_not_supported,
}
use snell_rs.Socks5.Encode.{encode_method_selection, encode_reply}

-- `MAX_GREETING_LEN` and `MAX_REQUEST_LEN`
abbrev pub max_greeting_len : ℕ
max_greeting_len = 2 + 255

abbrev pub max_request_len : ℕ
max_request_len = 3 + 1 + 1 + max_domain_len + 2

abbrev pub method_no_auth : ℕ
method_no_auth = 0x00

abbrev pub method_no_acceptable : ℕ
method_no_acceptable = 0xff

pub record Stream : Type 0 where
  pub incoming : Bytes
  pub written : Bytes

-- How a session's step ends, and the stream then. `spinning` is a loop that ran out of fuel.
pub data Session {ℓ} (A : Type ℓ) : Type ℓ where
  returned : A → Stream → Session A
  failed : SessionError → Stream → Session A
  panicked spinning : Session A

infixl 5 ◌>>=◌
abbrev pub ◌>>=◌ {ℓ κ} :
    {A : Type ℓ} {B : Type κ} → Session A → (A → Stream → Session B) → Session B
returned a s >>= f = f a s
failed e s >>= f = failed e s
panicked >>= f = panicked
spinning >>= f = spinning

-- The loop of `accept_socks5` around a parser: `buf[..filled]` grows by `read_exact` up to what
-- the parser asks for, and `buf` has room for `max` bytes.
unfoldable pub read_message {ℓ} :
    {A : Type ℓ} → (Bytes → Result (ParseState A)) → ℕ → Malformed → ℕ → Bytes → Stream → Session A
read_message parse max oversized zero filled s = spinning
read_message parse max oversized (suc fuel) filled s = elim (parse filled) [
  | ok (done a) ↦ returned a s
  | ok (need total) ↦
      let missing = total - length filled in
      let next =
        read_message parse max oversized fuel (filled ++ take missing s.incoming)
          (record s { incoming = drop missing s.incoming }) in
      if leb (length filled) total && leb total max
      then if leb missing (length s.incoming)
        then next
        else failed (io unexpected_eof) (record s { incoming = [] })
      else failed (from_protocol (malformed oversized)) s
  | err e ↦ failed (from_protocol e) s
  | panic ↦ panicked
]

-- `write_all` of what an encoder has put in the first `n` bytes of a buffer of `len` bytes.
unfoldable pub write_encoded : Stream → ℕ → (Bytes → Result (ℕ × Bytes)) → Session (Unit {0})
write_encoded s len encode = elim (encode (replicate len 0)) [
  | ok (n, buf) ↦
      if leb n (length buf)
      then returned tt (record s { written = s.written ++ take n buf })
      else panicked
  | err e ↦ failed (from_protocol e) s
  | panic ↦ panicked
]

unfoldable pub write_method : Stream → ℕ → Session (Unit {0})
write_method s method = write_encoded s 2 (λ buf. encode_method_selection buf method)

unfoldable pub write_socks5_reply_bind : Stream → Reply → SocketAddr → Session (Unit {0})
write_socks5_reply_bind s reply bind =
    write_encoded s max_request_len (λ buf. encode_reply buf reply (ip bind))

-- The bound address is `0.0.0.0:0`.
unfoldable pub write_socks5_reply : Stream → Reply → Session (Unit {0})
write_socks5_reply s reply = write_socks5_reply_bind s reply (SocketAddr.v4 (0 ∷ 0 ∷ 0 ∷ 0 ∷ []) 0)

pub data Socks5Command : Type 0 where
  connect_to : Address → Socks5Command
  associate : Socks5Command

-- The first loop with its `Done` arm.
unfoldable pub accept_greeting : Stream → Session (Unit {0})
accept_greeting s =
    read_message greeting_need max_greeting_len oversized_greeting (max_greeting_len + 1) [] s
    >>= λ greeting s'.
        if supports greeting method_no_auth
        then returned tt s'
        else (write_method s' method_no_acceptable >>= λ _ s''. failed no_acceptable_method s'')

-- The `Done` arm of the second loop: the `match` on the command.
unfoldable pub run_command : Command → Address → Stream → Session Socks5Command
run_command connect destination s = returned (connect_to destination) s
run_command udp_associate destination s = returned associate s
run_command _ destination s = write_socks5_reply s command_not_supported >>= λ _ s'.
    failed SessionError.command_not_supported s'

unfoldable pub accept_socks5 : Stream → Session Socks5Command
accept_socks5 s = accept_greeting s >>= λ _ s1. write_method s1 method_no_auth >>= λ _ s2.
    read_message request_need max_request_len oversized_request (max_request_len + 1) [] s2
    >>= λ request s3. run_command request.command request.destination s3

-- `Reply::from_io_error`
unfoldable pub from_io_error : IoErrorKind → Reply
from_io_error IoErrorKind.connection_refused = Reply.connection_refused
from_io_error connection_aborted = general_failure
from_io_error connection_reset = general_failure
from_io_error timed_out = ttl_expired
from_io_error not_found = host_unreachable
from_io_error addr_not_available = address_type_not_supported
from_io_error _ = general_failure

unfoldable pub socks5_reply_from_error : SessionError → Reply
socks5_reply_from_error SessionError.command_not_supported = Reply.command_not_supported
socks5_reply_from_error connect_timeout = ttl_expired
socks5_reply_from_error handshake_timeout = ttl_expired
socks5_reply_from_error (io error) = from_io_error error
socks5_reply_from_error _ = general_failure
