-- ===== src/Kernel/Error.antt =====
-- crates/snell-protocol/src/error.rs and parse.rs: errors, results and incremental parses.
use snell_rs.Prelude.{ℕ, ◌≡◌, refl, ◌≢◌, ◌⊎◌, inl, inr, Option, none, some, Bool, true, false}

-- The static text of `Error::Malformed`, by the place that raises it.
pub data Malformed : Type 0 where
  empty_method_list trailing_bytes oversized_greeting oversized_request : Malformed
  oversized_reply : Malformed

pub data Error : Type 0 where
  truncated : Error
  invalid_version : ℕ → Error
  unknown_command : ℕ → Error
  empty_host host_too_long host_contains_nul invalid_host_utf8 : Error
  invalid_address_type : ℕ → Error
  invalid_header zero_chunk_with_padding payload_too_large : Error
  buffer_too_small : (needed available : ℕ) → Error
  invalid_reserved : ℕ → Error
  malformed : Malformed → Error
  invalid_psk_len : ℕ → Error
  kdf entropy_exhausted entropy aead pending_wire plaintext_not_drained poisoned : Error

-- A call ends with a value or an error, or it panics: an index or a length check of a slice failed.
pub data Result {ℓ} (A : Type ℓ) : Type ℓ where
  panic : Result A
  ok : A → Result A
  err : Error → Result A

-- `Need(total)` is the length that the buffer has to reach.
pub data ParseState {ℓ} (A : Type ℓ) : Type ℓ where
  need : ℕ → ParseState A
  done : A → ParseState A

-- The `?` of Rust: what is not a value ends the call.
infixl 5 ◌>>=◌
abbrev pub ◌>>=◌ {ℓ₁ ℓ₂} :
    {From : Type ℓ₁} {To : Type ℓ₂} → Result From → (From → Result To) → Result To
panic >>= rest = panic
err error >>= rest = err error
ok value >>= rest = rest value

infixl 5 ◌>>◌
abbrev pub ◌>>◌ {ℓ₂} : {To : Type ℓ₂} → Result (Unit {0}) → Result To → Result To
check >> rest = check >>= λ _. rest

-- `if test { return Err(e) }`
abbrev pub fail_if : Bool → Error → Result (Unit {0})
fail_if true e = err e
fail_if false e = ok tt

-- The `?` of a method that has changed its state to `state`.
abbrev pub attempt {ℓ₁ ℓ₂} :
    {State : Type 0} {From : Type ℓ₁} {To : Type ℓ₂}
    → State
    → Result From
    → (From → Result To × State)
    → Result To × State
attempt state (ok value) rest = rest value
attempt state (err error) rest = (err error, state)
attempt state panic rest = (panic, state)

abbrev pub ok_or {ℓ} : {A : Type ℓ} → Option A → Error → Result A
ok_or (some a) e = ok a
ok_or none e = err e

-- The call returns: it does not panic.
abbrev pub Returns {ℓ} : {A : Type ℓ} → Result A → Type 0
Returns (ok a) = Unit {0}
Returns (err e) = Unit {0}
Returns panic = ⊥

pub Returns->>= {ℓ κ} :
    {A : Type ℓ} {B : Type κ} (m : Result A) (f : A → Result B)
    → Returns m
    → ((a : A) → m ≡ ok a → Returns (f a))
    → Returns (m >>= f)
Returns->>= (ok a) f h k = k a refl
Returns->>= (err e) f h k = tt
Returns->>= panic f h k = absurd h

pub >>=-eq-ok {ℓ₁ ℓ₂} :
    {From : Type ℓ₁} {To : Type ℓ₂} (r : Result From) (rest : From → Result To) {end : To}
    → (r >>= rest) ≡ ok end
    → (value : From) × (r ≡ ok value) × (rest value ≡ ok end)
>>=-eq-ok panic rest h = cc
>>=-eq-ok (err error) rest h = cc
>>=-eq-ok (ok value) rest h = (value, refl, h)

-- The four ways an incremental parse can end.
pub ParseState-cases {ℓ} :
    {A : Type ℓ} (r : Result (ParseState A))
    → ((n : ℕ) × (r ≡ ok (need n)))
      ⊎ ((a : A) × (r ≡ ok (done a)))
      ⊎ ((e : Error) × (r ≡ err e))
      ⊎ (r ≡ panic)
ParseState-cases (ok (need n)) = inl (n, refl)
ParseState-cases (ok (done a)) = inr (inl (a, refl))
ParseState-cases (err e) = inr (inr (inl (e, refl)))
ParseState-cases panic = inr (inr (inr refl))

pub ne-panic→Returns {ℓ} : {A : Type ℓ} (r : Result A) → r ≢ panic → Returns r
ne-panic→Returns (ok a) h = tt
ne-panic→Returns (err e) h = tt
ne-panic→Returns panic h = h refl

pub attempt-ok_or {ℓ₁ ℓ₂} :
    {State : Type 0} {From : Type ℓ₁} {To : Type ℓ₂} (state : State) (o : Option From) (e : Error)
    (rest : From → Result To × State) {a : From}
    → o ≡ some a
    → attempt state (ok_or o e) rest ≡ rest a
attempt-ok_or state o e rest h = rw h

pub Result-cases {ℓ} :
    {A : Type ℓ} (r : Result A) → ((a : A) × (r ≡ ok a)) ⊎ ((e : Error) × (r ≡ err e)) ⊎ (r ≡ panic)
Result-cases (ok a) = inl (a, refl)
Result-cases (err e) = inr (inl (e, refl))
Result-cases panic = inr (inr refl)
