-- ===== src/Config/Error.antt =====
-- `ConfigError` of crates/snell-config/src/lib.rs, and the two types of the protocol that a
-- configuration selects. The text of a message is kept by what it is made of.
use snell_rs.Prelude.{ℕ, ◌≡◌, refl, ◌⊎◌, inl, inr, List, Option, none, some, Bool, true, false}

-- The characters of a `str`, by their code points.
abbrev pub Text : Type 0
Text = List ℕ

pub data Ini : Type 0 where
  unclosed_section_header empty_section_name duplicate_section expected_key_value : Ini
  empty_key key_outside_section duplicate_key : Ini

pub data Message : Type 0 where
  expected_range : (from to got : ℕ) → Message
  expected_u32 unknown_protocol_version expected_mode expected_version : Text → Message
  invalid_socket_address expected_boolean : Text → Message
  mode_without_v6 : Message
  psk_length : ℕ → Message

pub data ConfigError : Type 0 where
  ini : Ini → ConfigError
  missing_section : Text → ConfigError
  missing_key : (section key : Text) → ConfigError
  invalid : (section key : Text) → Message → ConfigError
  unsafe_raw_disabled : ConfigError

pub data Result {ℓ} (A : Type ℓ) : Type ℓ where
  ok : A → Result A
  err : ConfigError → Result A

infixl 5 ◌>>=◌
abbrev pub ◌>>=◌ {ℓ₁ ℓ₂} :
    {From : Type ℓ₁} {To : Type ℓ₂} → Result From → (From → Result To) → Result To
err error >>= rest = err error
ok value >>= rest = rest value

-- `ok_or`, and `?`
abbrev pub ok_or {ℓ} : {A : Type ℓ} → Option A → ConfigError → Result A
ok_or (some a) e = ok a
ok_or none e = err e

infixl 5 ◌>>◌
abbrev pub ◌>>◌ {ℓ₂} : {To : Type ℓ₂} → Result (Unit {0}) → Result To → Result To
check >> rest = check >>= λ _. rest

-- `if test { return Err(e) }`
abbrev pub fail_if : Bool → ConfigError → Result (Unit {0})
fail_if true e = err e
fail_if false e = ok tt

pub >>=-eq-ok {ℓ₁ ℓ₂} :
    {From : Type ℓ₁} {To : Type ℓ₂} (r : Result From) (rest : From → Result To) {end : To}
    → (r >>= rest) ≡ ok end
    → (value : From) × (r ≡ ok value) × (rest value ≡ ok end)
>>=-eq-ok (err error) rest h = cc
>>=-eq-ok (ok value) rest h = (value, refl, h)

pub ok-eq {ℓ} : {A : Type ℓ} {a b : A} → ok a ≡ ok b → a ≡ b
ok-eq e = cc

pub Result-cases {ℓ} :
    {A : Type ℓ} (r : Result A) → ((a : A) × (r ≡ ok a)) ⊎ ((e : ConfigError) × (r ≡ err e))
Result-cases (ok a) = inl (a, refl)
Result-cases (err e) = inr (e, refl)

pub data ProtocolFlavor : Type 0 where
  v4 v5 v6_shaped v6_unshaped : ProtocolFlavor

pub data ProtocolSelection : Type 0 where
  exact : ProtocolFlavor → ProtocolSelection
  auto : ProtocolSelection
