-- ===== src/Control/Stream.antt =====
-- crates/snell-protocol/src/control/stream.rs: control prefixes that are assembled from several
-- records. `filled` is what the stream has buffered.
use snell_rs.Prelude.{ℕ, ◌+◌, length}
use snell_rs.Kernel.Error.{truncated, ParseState, need, done, Result, ok, err, panic}
use snell_rs.Kernel.Slice.{Bytes}
use snell_rs.Address.Text.{IpText}
use snell_rs.Control.{
  ConnectRequest, ServerReply, decode_connect_request_prefix, decode_udp_setup_prefix,
  decode_server_reply,
}

-- A truncated parse needs one more byte.
unfoldable pub need_more_on_truncated {ℓ} : {A : Type ℓ} → ℕ → Result A → Result (ParseState A)
need_more_on_truncated len (err truncated) = ok (need (len + 1))
need_more_on_truncated len (err e) = err e
need_more_on_truncated len (ok a) = ok (done a)
need_more_on_truncated len panic = panic

unfoldable pub connect : IpText → Bytes → Result (ParseState (ConnectRequest × ℕ))
connect t filled = need_more_on_truncated (length filled) (decode_connect_request_prefix t filled)

unfoldable pub udp_setup : Bytes → Result (ParseState ℕ)
udp_setup filled = need_more_on_truncated (length filled) (decode_udp_setup_prefix filled)

unfoldable pub server_reply : Bytes → Result (ParseState (ServerReply × ℕ))
server_reply filled = decode_server_reply filled
