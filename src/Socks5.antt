-- ===== src/Socks5.antt =====
-- crates/snell-protocol/src/socks5.rs: the SOCKS5 messages, incremental parsers and encoders.
pub mod Codes
pub mod Encode
pub mod Field
pub mod Messages
pub mod Written
pub mod RoundTrip
use snell_rs.Prelude.{
  ℕ, ◌+◌, List, [], ◌∷◌, ◌++◌, Option, none, some, Bool, true, false, ◌||◌, not, length, ltb, ◌==◌,
  if◌then◌else◌,
}
use Prim.Native.Nat.{bit_or}
use snell_rs.Kernel.Error.{
  Error, truncated, empty_host, invalid_version, invalid_reserved, invalid_address_type, malformed,
  empty_method_list, ParseState, need, done, Result, ok, err, panic, ◌>>=◌, ◌>>◌, fail_if, ok_or,
}
use snell_rs.Kernel.Slice.{Bytes, index, index_from, get_to, contains}
use snell_rs.Address.{IpAddr, Address, ip, domain, ip_port, split_host_port}
use snell_rs.Socks5.Codes.{
  version, atyp_ipv4, atyp_domain, atyp_ipv6, Command, Reply, command_from, reply_from,
}

pub record Greeting : Type 0 where
  pub methods : Bytes
  pub consumed_len : ℕ

pub record Request : Type 0 where
  pub command : Command
  pub destination : Address
  pub header_len : ℕ

pub record ReplyMessage : Type 0 where
  pub reply : Reply
  pub bind : Address
  pub header_len : ℕ

pub record UdpPacket : Type 0 where
  pub frag : ℕ
  pub destination : Address
  pub header_len : ℕ
  pub payload : Bytes

unfoldable pub supports : Greeting → ℕ → Bool
supports g method = contains g.methods method

-- The slice patterns of the source bind the first two bytes; a shorter buffer takes the `else`.
unfoldable pub greeting_need : Bytes → Result (ParseState Greeting)
greeting_need [] = ok (need 2)
greeting_need (_ ∷ []) = ok (need 2)
greeting_need (v ∷ nmethods ∷ methods) = do
  fail_if (not (v == version)) (invalid_version v)
  fail_if (nmethods == 0) (malformed empty_method_list)
  let total = 2 + nmethods
  ok (elim (get_to methods nmethods) [
    | some ms ↦ done (record { methods = ms; consumed_len = total })
    | none ↦ need total
  ])

unfoldable pub method_selection_need : Bytes → Result (ParseState ℕ)
method_selection_need [] = ok (need 2)
method_selection_need (_ ∷ []) = ok (need 2)
method_selection_need (v ∷ method ∷ _) =
    if v == version then ok (done method) else err (invalid_version v)

-- The first `match` of `parse_addr`: the length of the field, or an early return.
unfoldable pub addr_len : Bytes → Result (ParseState ℕ)
addr_len [] = ok (need 1)
addr_len (atyp ∷ rest) =
    if atyp == atyp_ipv4
    then ok (done (1 + 4 + 2))
    else if atyp == atyp_ipv6
    then ok (done (1 + 16 + 2))
    else if atyp == atyp_domain
    then elim rest [
      | [] ↦ ok (need 2)
      | host_len ∷ _ ↦ if host_len == 0 then err empty_host else ok (done (1 + 1 + host_len + 2))
    ]
    else err (invalid_address_type atyp)

-- The second: the address in a field that is complete.
unfoldable pub addr_body : Bytes → Result Address
addr_body buf = do
  tail ← index_from buf 1
  atyp ← index buf 0
  if atyp == atyp_ipv4
      then (ok_or (ip_port 4 IpAddr.v4 tail) truncated >>= λ a. ok (ip a))
      else if atyp == atyp_ipv6
      then (ok_or (ip_port 16 IpAddr.v6 tail) truncated >>= λ a. ok (ip a))
      else (split_host_port tail >>= λ r. ok (domain (r.0) (r.1)))

-- `ATYP ADDR PORT` at the start of `buf`; `need` counts from its first byte.
unfoldable pub parse_addr : Bytes → Result (ParseState (Address × ℕ))
parse_addr buf = addr_len buf >>= λ s. elim s [
  | need n ↦ ok (need n)
  | done len ↦
      if ltb (length buf) len
      then ok (need len)
      else (addr_body buf >>= λ address. ok (done (address, len)))
]

unfoldable pub parse_cmd_addr {ℓ} :
    {T : Type ℓ} → Bytes → (ℕ → Address → ℕ → T) → Result (ParseState T)
parse_cmd_addr buf build = if ltb (length buf) 4 then ok (need 4) else do
  b0 ← index buf 0
  fail_if (not (b0 == version)) (invalid_version b0)
  b2 ← index buf 2
  fail_if (not (b2 == 0)) (invalid_reserved b2)
  tail ← index_from buf 3
  state ← parse_addr tail
  b1 ← index buf 1
  ok (elim state [
    | need n ↦ need (3 + n)
    | done (address, len) ↦ done (build b1 address (3 + len))
  ])

unfoldable pub request_need : Bytes → Result (ParseState Request)
request_need buf = parse_cmd_addr buf λ command destination header_len. record {
  command = command_from command;
  destination = destination;
  header_len = header_len;
}

unfoldable pub reply_need : Bytes → Result (ParseState ReplyMessage)
reply_need buf =
    parse_cmd_addr buf
      λ rep bind header_len. record { reply = reply_from rep; bind = bind; header_len = header_len }

-- A datagram is complete: a field that needs more bytes is truncated.
unfoldable pub parse_udp_packet : Bytes → Result UdpPacket
parse_udp_packet buf = do
  fail_if (ltb (length buf) 4) truncated
  b0 ← index buf 0
  b1 ← index buf 1
  fail_if (not (b0 == 0) || not (b1 == 0)) (invalid_reserved (bit_or b0 b1))
  tail ← index_from buf 3
  state ← parse_addr tail
  elim state [
    | need _ ↦ err truncated
    | done (destination, len) ↦ do
      let header_len = 3 + len
      frag ← index buf 2
      payload ← index_from buf header_len
      ok (record {
        frag = frag;
        destination = destination;
        header_len = header_len;
        payload = payload;
      })
  ]
