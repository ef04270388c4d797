-- ===== src/Config/Values.antt =====
-- The values of crates/snell-config/src/lib.rs: what a key has to hold.
pub mod Checked
use snell_rs.Prelude.{
  ℕ, ◌+◌, List, [], ◌∷◌, Option, none, some, Bool, true, false, not, ◌&&◌, ◌||◌, ◌==◌, ltb, leb,
  if◌then◌else◌,
}
use snell_rs.Config.Error.{
  Text, Message, ConfigError, expected_range, expected_u32, unknown_protocol_version, expected_mode,
  expected_version, invalid_socket_address, expected_boolean, mode_without_v6, psk_length,
  missing_key, invalid, unsafe_raw_disabled, Result, ok, err, ◌>>=◌, ◌>>◌, fail_if, ok_or,
  ProtocolFlavor, v4, v5, v6_shaped, v6_unshaped, ProtocolSelection, exact, auto,
}
use snell_rs.Config.Str.{codes, trim, to_ascii_lowercase, text_eq, byte_len, parse_number}
use snell_rs.Config.IniFile.{Pairs, get}

abbrev pub client_section : Text
client_section = codes "snell-client"

abbrev pub server_section : Text
server_section = codes "snell-server"

abbrev pub tcp_brutal_cwnd_gain_min : ℕ
tcp_brutal_cwnd_gain_min = 5

abbrev pub tcp_brutal_cwnd_gain_max : ℕ
tcp_brutal_cwnd_gain_max = 80

abbrev pub tcp_brutal_send_mbps_max : ℕ
tcp_brutal_send_mbps_max = 100000

abbrev pub psk_min_len : ℕ
psk_min_len = 16

abbrev pub psk_max_len : ℕ
psk_max_len = 255

unfoldable pub required : (section : Text) → Pairs → (key : Text) → Result Text
required section keys key = ok_or (get keys key) (missing_key section key)

unfoldable pub parse_bool : (section key value : Text) → Result Bool
parse_bool section key value =
    let word = to_ascii_lowercase value in
    if text_eq word (codes "true")
      || text_eq word (codes "yes")
      || text_eq word (codes "1")
      || text_eq word (codes "on")
    then ok true
    else if text_eq word (codes "false")
        || text_eq word (codes "no")
        || text_eq word (codes "0")
        || text_eq word (codes "off")
    then ok false
    else err (invalid section key (expected_boolean value))

unfoldable pub optional_bool : (section : Text) → Pairs → (key : Text) → Result (Option Bool)
optional_bool section keys key = elim (get keys key) [
  | none ↦ ok none
  | some value ↦ parse_bool section key value >>= λ b. ok (some b)
]

unfoldable pub parse_u32 : (section key value : Text) → Result ℕ
parse_u32 section key value = ok_or (parse_number value) (invalid section key (expected_u32 value))

pub record TcpBrutal : Type 0 where
  pub send_mbps : ℕ
  pub cwnd_gain : ℕ

-- `unwrap_or(false)`
abbrev pub is_on : Option Bool → Bool
is_on none = false
is_on (some b) = b

unfoldable pub tcp_brutal_params : Pairs → Result TcpBrutal
tcp_brutal_params keys = do
  send_text ← required server_section keys (codes "tcp_brutal_send_mbps")
  send_mbps ← parse_u32 server_section (codes "tcp_brutal_send_mbps") send_text
  fail_if (send_mbps == 0 || ltb tcp_brutal_send_mbps_max send_mbps) (
      invalid server_section (codes "tcp_brutal_send_mbps")
        (expected_range 1 tcp_brutal_send_mbps_max send_mbps))
  gain_text ← required server_section keys (codes "tcp_brutal_cwnd_gain")
  cwnd_gain ← parse_u32 server_section (codes "tcp_brutal_cwnd_gain") gain_text
  fail_if (not (leb tcp_brutal_cwnd_gain_min cwnd_gain && leb cwnd_gain tcp_brutal_cwnd_gain_max)) (
      invalid server_section (codes "tcp_brutal_cwnd_gain")
        (expected_range tcp_brutal_cwnd_gain_min tcp_brutal_cwnd_gain_max cwnd_gain))
  ok (record { send_mbps = send_mbps; cwnd_gain = cwnd_gain })

unfoldable pub parse_tcp_brutal : Pairs → Result (Option TcpBrutal)
parse_tcp_brutal keys = do
  enabled ← optional_bool server_section keys (codes "tcp_brutal")
  if is_on enabled then (tcp_brutal_params keys >>= λ t. ok (some t)) else ok none

unfoldable pub parse_client_version : Text → Result ProtocolFlavor
parse_client_version value =
    let word = to_ascii_lowercase (trim value) in
    if text_eq word (codes "v4")
    then ok v4
    else if text_eq word (codes "v5")
    then ok v5
    else if text_eq word (codes "v6-default")
    then ok v6_shaped
    else if text_eq word (codes "v6-unshaped")
    then ok v6_unshaped
    else if text_eq word (codes "v6-unsafe-raw")
    then err unsafe_raw_disabled
    else err (invalid client_section (codes "version") (unknown_protocol_version value))

abbrev pub mode_requires_v6 : ConfigError
mode_requires_v6 = invalid server_section (codes "mode") mode_without_v6

unfoldable pub parse_mode : Text → Result ProtocolFlavor
parse_mode raw =
    let mode = to_ascii_lowercase raw in
    if text_eq mode (codes "default")
    then ok v6_shaped
    else if text_eq mode (codes "unshaped")
    then ok v6_unshaped
    else if text_eq mode (codes "unsafe-raw")
    then err unsafe_raw_disabled
    else err (invalid server_section (codes "mode") (expected_mode raw))

unfoldable pub parse_plain_version : Text → Result ProtocolFlavor
parse_plain_version version =
    let word = to_ascii_lowercase version in
    if text_eq word (codes "4") || text_eq word (codes "v4")
    then ok v4
    else if text_eq word (codes "5") || text_eq word (codes "v5")
    then ok v5
    else if text_eq word (codes "6") || text_eq word (codes "v6-default")
    then ok v6_shaped
    else if text_eq word (codes "v6-unshaped")
    then ok v6_unshaped
    else if text_eq word (codes "v6-unsafe-raw")
    then err unsafe_raw_disabled
    else err (invalid server_section (codes "version") (expected_version version))

unfoldable pub parse_server_version : (version : Text) (mode : Option Text) → Result ProtocolFlavor
parse_server_version version none = parse_plain_version (trim version)
parse_server_version version (some mode) =
    if not (text_eq (to_ascii_lowercase (trim version)) (codes "6"))
    then err mode_requires_v6
    else parse_mode (trim mode)

unfoldable pub parse_server_selection : (version mode : Option Text) → Result ProtocolSelection
parse_server_selection (some version) mode = parse_server_version version mode >>= λ f. ok (exact f)
parse_server_selection none (some mode) = err mode_requires_v6
parse_server_selection none none = ok auto

-- `Psk::new`, by the key's text.
unfoldable pub parse_psk : (section value : Text) → Result Text
parse_psk section value =
    if leb psk_min_len (byte_len value) && leb (byte_len value) psk_max_len
    then ok value
    else err (invalid section (codes "psk") (psk_length (byte_len value)))
