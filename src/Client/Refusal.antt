-- ===== src/Client/Refusal.antt =====
-- What `socks5_reply_from_error` of client/socks.rs tells the peer when a session fails.
use snell_rs.Prelude.{◌≤◌, arith}
use snell_rs.Session.{SessionError, IoErrorKind, io}
use snell_rs.Socks5.Codes.{reply_into}
use snell_rs.Client.{from_io_error, socks5_reply_from_error}

from_io_error_code :
    (k : IoErrorKind) → 1 ≤ reply_into (from_io_error k) × reply_into (from_io_error k) ≤ 8
unfolding from_io_error reply_into
from_io_error_code k = ground arith

-- Whatever a session failed with, the code that the peer is sent is one of the failures 1 to 8 of
-- the protocol, never 0 for success.
pub socks5_reply_from_error_code :
    (e : SessionError)
    → 1 ≤ reply_into (socks5_reply_from_error e) × reply_into (socks5_reply_from_error e) ≤ 8
unfolding socks5_reply_from_error reply_into
socks5_reply_from_error_code (io k) = from_io_error_code k
socks5_reply_from_error_code e = ground arith
