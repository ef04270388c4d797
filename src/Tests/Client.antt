-- ===== src/Tests/Client.antt =====
-- The accept of crates/snell-runtime/src/client/socks.rs, run on a CONNECT to 127.0.0.1:80.
use snell_rs.Prelude.{◌≡◌, refl, true, [], ◌∷◌, ◌++◌, arith}
use mathlib.Core.Option
use snell_rs.Kernel.Error.{ok, done}
use snell_rs.Kernel.Slice.{
  Bytes, index, index_from, get_to, contains, split_at_checked, from_be_bytes,
}
use snell_rs.Address.{SocketAddr, ip, ip_port}
use snell_rs.Socks5.{
  Greeting, Request, supports, greeting_need, request_need, parse_cmd_addr, parse_addr, addr_len,
  addr_body,
}
use snell_rs.Socks5.Codes.{connect, command_from}
use snell_rs.Client.{accept_socks5, run_command}
use snell_rs.Client.Accept.{accept_socks5_lem, accept_socks5-Ends}
use snell_rs.Client.Read.{Ends}

abbrev greeting : Bytes
greeting = 5 ∷ 2 ∷ 1 ∷ 0 ∷ []

abbrev greeted : Greeting
greeted = record { methods = 1 ∷ 0 ∷ []; consumed_len = 4 }

greeting_read : greeting_need greeting ≡ ok (done greeted)
unfolding greeting_need get_to
greeting_read = refl

no_auth : supports greeted 0 ≡ true
unfolding supports contains
no_auth = refl

abbrev request : Bytes
request = 5 ∷ 1 ∷ 0 ∷ 1 ∷ 127 ∷ 0 ∷ 0 ∷ 1 ∷ 0 ∷ 80 ∷ []

abbrev requested : Request
requested = record {
  command = connect;
  destination = ip (SocketAddr.v4 (127 ∷ 0 ∷ 0 ∷ 1 ∷ []) 80);
  header_len = 10;
}

request_read : request_need request ≡ ok (done requested)
unfolding request_need parse_cmd_addr parse_addr addr_len addr_body index index_from ip_port
    Option.bind split_at_checked from_be_bytes command_from
request_read = refl

accept_socks5_lem_example :
    accept_socks5 (record { incoming = greeting ++ (request ++ (1 ∷ 2 ∷ [])); written = [] })
    ≡ run_command connect requested.destination
        (record { incoming = 1 ∷ 2 ∷ []; written = 5 ∷ 0 ∷ [] })
accept_socks5_lem_example =
    accept_socks5_lem greeting request (1 ∷ 2 ∷ []) [] greeted requested greeting_read (omega arith)
      (omega arith) no_auth request_read (omega arith) (omega arith)

accept_socks5-Ends_example : Ends (accept_socks5 (record { incoming = 5 ∷ 1 ∷ []; written = [] }))
accept_socks5-Ends_example = accept_socks5-Ends (record { incoming = 5 ∷ 1 ∷ []; written = [] })
