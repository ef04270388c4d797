-- ===== src/Config/Files.antt =====
-- `ClientConfig::parse` and `ServerConfig::parse` of crates/snell-config/src/lib.rs.
pub mod Checked
use snell_rs.Prelude.{ℕ, List, Option, none, some, Bool}
use snell_rs.Config.Error.{
  Text, missing_section, invalid, invalid_socket_address, Result, ok, err, ◌>>=◌, ok_or,
  ProtocolFlavor, ProtocolSelection,
}
use snell_rs.Config.Str.{codes}
use snell_rs.Config.IniFile.{Pairs, get, section}
use snell_rs.Config.IniFile
use snell_rs.Config.Values.{
  client_section, server_section, required, optional_bool, TcpBrutal, is_on, parse_tcp_brutal,
  parse_client_version, parse_server_selection, parse_psk,
}

-- `str::parse::<SocketAddr>` is a parameter.
module _ {Socket : Type 0} (socket_addr : Text → Option Socket) where
  pub data Outbound : Type 0 where
    direct : Outbound
    socks5 : Socket → Outbound

  pub record ClientConfig : Type 0 where
    pub listen : Socket
    pub server : Socket
    pub psk : Text
    pub version : ProtocolFlavor
    pub reuse : Bool

  pub record ServerConfig : Type 0 where
    pub listen : Socket
    pub psk : Text
    pub selection : ProtocolSelection
    pub outbound : Outbound
    pub tcp_brutal : Option TcpBrutal

  unfoldable pub parse_socket : (section key value : Text) → Result Socket
  parse_socket section key value =
      ok_or (socket_addr value) (invalid section key (invalid_socket_address value))

  unfoldable pub client_of : Pairs → Result ClientConfig
  client_of keys = do
    reuse ← optional_bool client_section keys (codes "reuse")
    version_text ← required client_section keys (codes "version")
    version ← parse_client_version version_text
    listen_text ← required client_section keys (codes "listen")
    listen ← parse_socket client_section (codes "listen") listen_text
    server_text ← required client_section keys (codes "server")
    server ← parse_socket client_section (codes "server") server_text
    psk_text ← required client_section keys (codes "psk")
    psk ← parse_psk client_section psk_text
    ok (record {
      listen = listen;
      server = server;
      psk = psk;
      version = version;
      reuse = is_on reuse;
    })

  unfoldable pub parse_client : Text → Result ClientConfig
  parse_client raw = do
    file ← IniFile.parse raw
    keys ← ok_or (section file client_section) (missing_section client_section)
    client_of keys

  unfoldable pub parse_outbound : Option Text → Result Outbound
  parse_outbound none = ok direct
  parse_outbound (some value) =
      parse_socket server_section (codes "upstream_socks5") value >>= λ s. ok (socks5 s)

  unfoldable pub server_of : Pairs → Result ServerConfig
  server_of keys = do
    tcp_brutal ← parse_tcp_brutal keys
    selection ← parse_server_selection (get keys (codes "version")) (get keys (codes "mode"))
    outbound ← parse_outbound (get keys (codes "upstream_socks5"))
    listen_text ← required server_section keys (codes "listen")
    listen ← parse_socket server_section (codes "listen") listen_text
    psk_text ← required server_section keys (codes "psk")
    psk ← parse_psk server_section psk_text
    ok (record {
      listen = listen;
      psk = psk;
      selection = selection;
      outbound = outbound;
      tcp_brutal = tcp_brutal;
    })

  unfoldable pub parse_server : Text → Result ServerConfig
  parse_server raw = do
    file ← IniFile.parse raw
    keys ← ok_or (section file server_section) (missing_section server_section)
    server_of keys
