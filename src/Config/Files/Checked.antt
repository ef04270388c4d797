-- ===== src/Config/Files/Checked.antt =====
-- What a server's configuration of crates/snell-config/src/lib.rs has been checked for.
use snell_rs.Prelude.{◌≡◌, refl, ap, ◌∙◌, Option, none, some, arith}
use mathlib.Core.Path.{subst}
use snell_rs.Config.Error.{
  Text, ConfigError, ok, ok_or, >>=-eq-ok, ok-eq, missing_section, ProtocolSelection, exact, auto,
}
use snell_rs.Config.Str.{codes}
use snell_rs.Config.IniFile.{Pairs, get, section}
use snell_rs.Config.IniFile
use snell_rs.Config.Values.{
  server_section, required, parse_tcp_brutal, parse_server_version, parse_server_selection,
  parse_psk,
}
use snell_rs.Config.Values.Checked.{
  IsTcpBrutal, IsOption, IsPsk, parse_tcp_brutal-IsTcpBrutal, parse_psk-IsPsk,
}
use snell_rs.Config.Files.{ServerConfig, parse_socket, parse_outbound, server_of, parse_server}

-- The protocol is probed for only if the file leaves both keys out.
abbrev pub IsSelected : Pairs → ProtocolSelection → Type 0
IsSelected keys auto = (get keys (codes "version") ≡ none) × (get keys (codes "mode") ≡ none)
IsSelected keys (exact f) =
    (version : Text) × (get keys (codes "version") ≡ some version)
    × (parse_server_version version (get keys (codes "mode")) ≡ ok f)

selection-IsSelected :
    (keys : Pairs) (version mode : Option Text) (s : ProtocolSelection)
    → get keys (codes "version") ≡ version
    → get keys (codes "mode") ≡ mode
    → parse_server_selection version mode ≡ ok s
    → IsSelected keys s
unfolding parse_server_selection
selection-IsSelected keys (some version) mode s v m h =
    let (f, made, same) = >>=-eq-ok (parse_server_version version mode) _ h in
    subst (IsSelected keys) (ok-eq same) (version, v, rw m made)
selection-IsSelected keys none (some mode) s v m h = cc
selection-IsSelected keys none none s v m h = subst (IsSelected keys) (ok-eq h) (v, m)

section-eq :
    (o : Option Pairs) (e : ConfigError) (keys : Pairs) → ok_or o e ≡ ok keys → o ≡ some keys
section-eq o e keys h = ground arith

module _ {Socket : Type 0} (socket_addr : Text → Option Socket) where
  -- The configuration holds what the section of the file says, within its limits.
  pub record IsServer (keys : Pairs) (c : ServerConfig socket_addr) : Type 0 where
    pub psk : IsPsk c.psk × (get keys (codes "psk") ≡ some c.psk)
    pub selection : IsSelected keys c.selection
    pub tcp_brutal : IsOption IsTcpBrutal c.tcp_brutal
    pub listen :
        (text : Text) × (get keys (codes "listen") ≡ some text) × (socket_addr text ≡ some c.listen)

  required-eq :
      (s : Text) (keys : Pairs) (key v : Text) → required s keys key ≡ ok v → get keys key ≡ some v
  unfolding required
  required-eq s keys key v h = ground arith

  socket-eq :
      (s key value : Text) (a : Socket)
      → parse_socket socket_addr s key value ≡ ok a
      → socket_addr value ≡ some a
  unfolding parse_socket
  socket-eq s key value a h = ground arith

  psk-eq : (s value psk : Text) → parse_psk s value ≡ ok psk → value ≡ psk
  unfolding parse_psk
  psk-eq s value psk h = ground arith

  server_of-IsServer :
      (keys : Pairs) (c : ServerConfig socket_addr)
      → server_of socket_addr keys ≡ ok c
      → IsServer keys c
  unfolding server_of
  server_of-IsServer keys c h =
      let (brutal, b, h1) = >>=-eq-ok (parse_tcp_brutal keys) _ h in
      let (selection, s, h2) =
        >>=-eq-ok (parse_server_selection (get keys (codes "version")) (get keys (codes "mode"))) _
          h1 in
      let (outbound, _, h3) =
        >>=-eq-ok (parse_outbound socket_addr (get keys (codes "upstream_socks5"))) _ h2 in
      let (listen_text, l, h4) = >>=-eq-ok (required server_section keys (codes "listen")) _ h3 in
      let (listen, a, h5) =
        >>=-eq-ok (parse_socket socket_addr server_section (codes "listen") listen_text) _ h4 in
      let (psk_text, p, h6) = >>=-eq-ok (required server_section keys (codes "psk")) _ h5 in
      let (psk, k, h7) = >>=-eq-ok (parse_psk server_section psk_text) _ h6 in
      subst (IsServer keys) (ok-eq h7) (record {
        psk = (
          parse_psk-IsPsk server_section psk_text psk k,
          required-eq server_section keys (codes "psk") psk_text p
              ∙ ap some (psk-eq server_section psk_text psk k),
        );
        selection = selection-IsSelected keys _ _ selection refl refl s;
        tcp_brutal = parse_tcp_brutal-IsTcpBrutal keys brutal b;
        listen = (
          listen_text,
          required-eq server_section keys (codes "listen") listen_text l,
          socket-eq server_section (codes "listen") listen_text listen a,
        );
      })

  -- A server's configuration that was accepted comes from the server's section of the file: its
  -- PSK is the value of the key and has 16 to 255 bytes, its address is the parse of `listen`, the
  -- protocol is probed for only if the section has neither `version` nor `mode` and else is the
  -- parse of both, and a TCP brutal that is on has 1 to 100000 Mbit per second and a gain of 5 to
  -- 80.
  pub parse_server-IsServer :
      (raw : Text) (c : ServerConfig socket_addr)
      → parse_server socket_addr raw ≡ ok c
      → (file : IniFile.Sections) × (keys : Pairs) × (IniFile.parse raw ≡ ok file)
        × (section file server_section ≡ some keys)
        × IsServer keys c
  unfolding parse_server
  parse_server-IsServer raw c h =
      let (file, f, h1) = >>=-eq-ok (IniFile.parse raw) _ h in
      let (keys, k, h2) =
        >>=-eq-ok (ok_or (section file server_section) (missing_section server_section)) _ h1 in
      (
        file,
        keys,
        f,
        section-eq (section file server_section) (missing_section server_section) keys k,
        server_of-IsServer keys c h2,
      )
