-- ===== src/Session.antt =====
-- crates/snell-runtime/src/error.rs: the errors of a session, and what the pool and the SOCKS5
-- client make of them. Texts are left out.
use snell_rs.Prelude.{ℕ, Bool, true, false, ◌||◌}
use snell_rs.Kernel.Error.{Error}

-- The kinds of `std::io::Error` that the code tells apart, and all others.
pub data IoErrorKind : Type 0 where
  connection_refused connection_reset connection_aborted not_found : IoErrorKind
  addr_not_available timed_out unexpected_eof broken_pipe not_connected other_kind : IoErrorKind

pub data SessionError : Type 0 where
  handshake_timeout connect_timeout cancelled udp_limit reuse_idle_timeout : SessionError
  early_payload_too_large replay_duplicate ambiguous_protocol kdf_queue_full : SessionError
  unsupported aead no_acceptable_method command_not_supported : SessionError
  server_reject : (code : ℕ) → SessionError
  protocol : Error → SessionError
  io : IoErrorKind → SessionError

-- `From<ProtocolError>`
unfoldable pub from_protocol : Error → SessionError
from_protocol Error.aead = SessionError.aead
from_protocol other = protocol other

-- The `matches!` on the kind.
unfoldable pub is_stale_kind : IoErrorKind → Bool
is_stale_kind unexpected_eof = true
is_stale_kind broken_pipe = true
is_stale_kind connection_aborted = true
is_stale_kind connection_reset = true
is_stale_kind not_connected = true
is_stale_kind timed_out = true
is_stale_kind _ = false

unfoldable pub is_stale_pool_error : SessionError → Bool
is_stale_pool_error handshake_timeout = true
is_stale_pool_error connect_timeout = true
is_stale_pool_error reuse_idle_timeout = true
is_stale_pool_error (io kind) = is_stale_kind kind
is_stale_pool_error _ = false

unfoldable pub is_cancelled : SessionError → Bool
is_cancelled cancelled = true
is_cancelled _ = false

unfoldable pub is_peer_closed : SessionError → Bool
is_peer_closed e = is_cancelled e || is_stale_pool_error e
