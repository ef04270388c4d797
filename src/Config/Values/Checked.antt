-- ===== src/Config/Values/Checked.antt =====
-- What the values of crates/snell-config/src/lib.rs are checked for.
use snell_rs.Prelude.{
  ℕ, ◌≤◌, ◌≡◌, refl, Option, none, some, Bool, true, false, ◌==◌, ◌||◌, ◌&&◌, not, ltb, leb,
  if◌then◌else◌, arith,
}
use mathlib.Core.Path.{subst}
use snell_rs.Config.Error.{Text, ConfigError, ok-eq, ok, ◌>>=◌, ◌>>◌, fail_if, >>=-eq-ok}
use snell_rs.Config.Str.{codes, byte_len}
use snell_rs.Config.IniFile.{Pairs}
use snell_rs.Config.Values.{
  server_section, required, optional_bool, parse_u32, TcpBrutal, is_on, tcp_brutal_params,
  parse_tcp_brutal, parse_psk, tcp_brutal_send_mbps_max, tcp_brutal_cwnd_gain_min,
  tcp_brutal_cwnd_gain_max, psk_min_len, psk_max_len,
}

pub record IsTcpBrutal (t : TcpBrutal) : Type 0 where
  pub send : 1 ≤ t.send_mbps × t.send_mbps ≤ tcp_brutal_send_mbps_max
  pub gain : tcp_brutal_cwnd_gain_min ≤ t.cwnd_gain × t.cwnd_gain ≤ tcp_brutal_cwnd_gain_max

range_checked :
    (send gain : ℕ) (t : TcpBrutal) (e : ConfigError)
    → (fail_if (not (leb tcp_brutal_cwnd_gain_min gain && leb gain tcp_brutal_cwnd_gain_max)) e
        >> ok (record { send_mbps = send; cwnd_gain = gain }))
      ≡ ok t
    → (send == 0 || ltb tcp_brutal_send_mbps_max send) ≡ false
    → IsTcpBrutal t
range_checked send gain t e h k = ground arith

fail_if-eq : (b : Bool) (e : ConfigError) (u : Unit {0}) → fail_if b e ≡ ok u → b ≡ false
fail_if-eq true e u h = cc
fail_if-eq false e u h = refl

pub tcp_brutal_params-IsTcpBrutal :
    (keys : Pairs) (t : TcpBrutal) → tcp_brutal_params keys ≡ ok t → IsTcpBrutal t
unfolding tcp_brutal_params
tcp_brutal_params-IsTcpBrutal keys t h =
    let (send_text, _, h1) =
      >>=-eq-ok (required server_section keys (codes "tcp_brutal_send_mbps")) _ h in
    let (send, _, h2) =
      >>=-eq-ok (parse_u32 server_section (codes "tcp_brutal_send_mbps") send_text) _ h1 in
    let (u, small, h3) =
      >>=-eq-ok (fail_if (send == 0 || ltb tcp_brutal_send_mbps_max send) _) _ h2 in
    let (gain_text, _, h4) =
      >>=-eq-ok (required server_section keys (codes "tcp_brutal_cwnd_gain")) _ h3 in
    let (gain, _, h5) =
      >>=-eq-ok (parse_u32 server_section (codes "tcp_brutal_cwnd_gain") gain_text) _ h4 in
    range_checked send gain t _ h5
      (fail_if-eq (send == 0 || ltb tcp_brutal_send_mbps_max send) _ u small)

-- A congestion control that was asked for.
abbrev pub IsOption {ℓ κ} : {A : Type ℓ} → (A → Type κ) → Option A → Type κ
IsOption P none = Unit
IsOption P (some a) = P a

if_on :
    (b : Bool) (keys : Pairs) (o : Option TcpBrutal)
    → (if b then (tcp_brutal_params keys >>= λ t. ok (some t)) else ok none) ≡ ok o
    → IsOption IsTcpBrutal o
if_on false keys none h = tt
if_on false keys (some t) h = cc
if_on true keys o h =
    let (t, made, same) = >>=-eq-ok (tcp_brutal_params keys) _ h in
    subst (IsOption IsTcpBrutal) (ok-eq same) (tcp_brutal_params-IsTcpBrutal keys t made)

pub parse_tcp_brutal-IsTcpBrutal :
    (keys : Pairs) (o : Option TcpBrutal) → parse_tcp_brutal keys ≡ ok o → IsOption IsTcpBrutal o
unfolding parse_tcp_brutal
parse_tcp_brutal-IsTcpBrutal keys o h =
    let (enabled, _, h1) = >>=-eq-ok (optional_bool server_section keys (codes "tcp_brutal")) _ h in
    if_on (is_on enabled) keys o h1

-- A key of a length that the cipher takes.
abbrev pub IsPsk : Text → Type 0
IsPsk psk = psk_min_len ≤ byte_len psk × byte_len psk ≤ psk_max_len

pub parse_psk-IsPsk : (section value psk : Text) → parse_psk section value ≡ ok psk → IsPsk psk
unfolding parse_psk
parse_psk-IsPsk section value psk h = ground arith
