-- ===== src/Socks5/Codes.antt =====
-- The codes of socks5.rs: constants, commands and replies, and their conversions from and to bytes.
use snell_rs.Prelude.{ℕ, ◌≡◌, arith, ◌==◌, if◌then◌else◌}

abbrev pub version : ℕ
version = 0x05

abbrev pub cmd_connect : ℕ
cmd_connect = 0x01

abbrev pub cmd_bind : ℕ
cmd_bind = 0x02

abbrev pub cmd_udp_associate : ℕ
cmd_udp_associate = 0x03

abbrev pub atyp_ipv4 : ℕ
atyp_ipv4 = 0x01

abbrev pub atyp_domain : ℕ
atyp_domain = 0x03

abbrev pub atyp_ipv6 : ℕ
atyp_ipv6 = 0x04

pub data Command : Type 0 where
  connect bind udp_associate : Command
  other : ℕ → Command

unfoldable pub command_from : ℕ → Command
command_from value =
    if value == cmd_connect
    then connect
    else if value == cmd_bind
    then bind
    else if value == cmd_udp_associate
    then udp_associate
    else other value

unfoldable pub command_into : Command → ℕ
command_into connect = cmd_connect
command_into bind = cmd_bind
command_into udp_associate = cmd_udp_associate
command_into (other value) = value

pub data Reply : Type 0 where
  succeeded general_failure connection_not_allowed network_unreachable host_unreachable : Reply
  connection_refused ttl_expired command_not_supported address_type_not_supported : Reply
  other : ℕ → Reply

unfoldable pub reply_from : ℕ → Reply
reply_from value =
    if value == 0x00
    then succeeded
    else if value == 0x01
    then general_failure
    else if value == 0x02
    then connection_not_allowed
    else if value == 0x03
    then network_unreachable
    else if value == 0x04
    then host_unreachable
    else if value == 0x05
    then connection_refused
    else if value == 0x06
    then ttl_expired
    else if value == 0x07
    then command_not_supported
    else if value == 0x08
    then address_type_not_supported
    else other value

unfoldable pub reply_into : Reply → ℕ
reply_into succeeded = 0x00
reply_into general_failure = 0x01
reply_into connection_not_allowed = 0x02
reply_into network_unreachable = 0x03
reply_into host_unreachable = 0x04
reply_into connection_refused = 0x05
reply_into ttl_expired = 0x06
reply_into command_not_supported = 0x07
reply_into address_type_not_supported = 0x08
reply_into (other value) = value

pub command_into-command_from : (value : ℕ) → command_into (command_from value) ≡ value
unfolding command_into command_from
command_into-command_from value = ground arith

pub reply_into-reply_from : (value : ℕ) → reply_into (reply_from value) ≡ value
unfolding reply_into reply_from
reply_into-reply_from value = ground arith
