-- ===== src/Tests/Config.antt =====
-- Configuration files at concrete inputs.
use snell_rs.Prelude.{◌≡◌, refl, [], ◌∷◌, Option, some}
use snell_rs.Config.Error.{Text, ok}
use snell_rs.Config.Str.{codes}
use snell_rs.Config.Str
use snell_rs.Config.IniFile.{Sections, Pairs, section, parse}
use snell_rs.Config.IniFile
use snell_rs.Config.IniFile.Render.{IsFile, render, parse-render}
use snell_rs.Config.IniFile.Parsed.{parse-IsFile}
use snell_rs.Config.Values.{server_section}
use snell_rs.Config.Values
use snell_rs.Config.Files.{ServerConfig, parse_server}
use snell_rs.Config.Files
use snell_rs.Config.Files.Checked.{IsServer, parse_server-IsServer}

-- An address is its text.
abbrev socket_addr : Text → Option Text
socket_addr t = some t

abbrev raw : Text
raw = codes "[snell-server]\nlisten = 1:2\npsk = 0123456789abcdef\n"

abbrev sections : Sections
sections =
    (
      codes "snell-server",
      (codes "listen", codes "1:2") ∷ (codes "psk", codes "0123456789abcdef") ∷ [],
    )
    ∷ []

read : parse raw ≡ ok sections
unfolding parse IniFile.read_lines IniFile.read_line IniFile.open_section IniFile.add_pair
    IniFile.push_pair IniFile.section IniFile.get IniFile.find Str.lines Str.lines_from
    Str.without_return Str.strip_suffix Str.split_once Str.trim Str.trim_end Str.trim_start
    Str.is_whitespace Str.eq_ignore_ascii_case
read = refl

parse-IsFile_example : IsFile [] sections
parse-IsFile_example = parse-IsFile raw sections read

parse-IsFile-sections : IsFile [] sections
parse-IsFile-sections = parse-IsFile raw sections read

parse-render_example : parse (render sections) ≡ ok sections
parse-render_example = parse-render sections parse-IsFile-sections

server : (c : ServerConfig socket_addr) × (parse_server socket_addr raw ≡ ok c)
unfolding parse_server Files.server_of Files.parse_socket Files.parse_outbound
    Values.parse_tcp_brutal Values.optional_bool Values.required Values.parse_server_selection
    Values.parse_psk Str.byte_len parse IniFile.read_lines IniFile.read_line IniFile.open_section
    IniFile.add_pair IniFile.push_pair IniFile.section IniFile.get IniFile.find Str.lines
    Str.lines_from Str.without_return Str.strip_suffix Str.split_once Str.trim Str.trim_end
    Str.trim_start Str.is_whitespace Str.eq_ignore_ascii_case
server = (_, refl)

parse_server-IsServer_example :
    (file : Sections) × (keys : Pairs) × (parse raw ≡ ok file)
    × (section file server_section ≡ some keys)
    × IsServer socket_addr keys server.0
parse_server-IsServer_example = parse_server-IsServer socket_addr raw server.0 server.1
