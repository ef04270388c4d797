-- ===== src/Kernel/Consts.antt =====
-- crates/snell-protocol/src/lib.rs: the frozen constants of the protocol.
use snell_rs.Prelude.{ℕ, ◌+◌}

abbrev pub protocol_version : ℕ
protocol_version = 0x01

abbrev pub command_connect : ℕ
command_connect = 0x01

abbrev pub command_connect_v2 : ℕ
command_connect_v2 = 0x05

abbrev pub command_udp : ℕ
command_udp = 0x06

abbrev pub command_udp_forward : ℕ
command_udp_forward = 0x01

abbrev pub command_tunnel : ℕ
command_tunnel = 0x00

abbrev pub command_error : ℕ
command_error = 0x02

abbrev pub error_reject : ℕ
error_reject = 0x01

abbrev pub udp_request_ip_len : ℕ
udp_request_ip_len = 0x00

abbrev pub atyp_ipv4 : ℕ
atyp_ipv4 = 0x04

abbrev pub atyp_ipv6 : ℕ
atyp_ipv6 = 0x06

abbrev pub salt_len : ℕ
salt_len = 16

abbrev pub nonce_len : ℕ
nonce_len = 12

abbrev pub tag_len : ℕ
tag_len = 16

abbrev pub header_plain_len : ℕ
header_plain_len = 7

abbrev pub header_cipher_len : ℕ
header_cipher_len = header_plain_len + tag_len

abbrev pub header_version_marker : ℕ
header_version_marker = 4

abbrev pub max_packet_size : ℕ
max_packet_size = 0x3fff

abbrev pub max_packet_size_v6 : ℕ
max_packet_size_v6 = 65535

abbrev pub v4_wire_cap : ℕ
v4_wire_cap = salt_len + header_cipher_len + max_packet_size + max_packet_size + tag_len

abbrev pub v4_mss_base : ℕ
v4_mss_base = 0x05b4

abbrev pub v4_first_record_overhead : ℕ
v4_first_record_overhead = 0x37

abbrev pub v4_reset_overhead : ℕ
v4_reset_overhead = 0x27

abbrev pub v4_initial_padding_min : ℕ
v4_initial_padding_min = 0x100

abbrev pub v4_initial_padding_span : ℕ
v4_initial_padding_span = 0x100

abbrev pub v4_idle_reset_secs : ℕ
v4_idle_reset_secs = 30

abbrev pub max_domain_len : ℕ
max_domain_len = 255

abbrev pub client_pool_max_size : ℕ
client_pool_max_size = 10

abbrev pub client_pool_max_idle_secs : ℕ
client_pool_max_idle_secs = 300

abbrev pub replay_cache_capacity : ℕ
replay_cache_capacity = 4096

abbrev pub replay_cache_ttl_secs : ℕ
replay_cache_ttl_secs = 3600
