-- ===== src/Nonce/Count.antt =====
-- The nonce of crypto/nonce.rs as a number.
use snell_rs.Prelude.{
  ℕ, zero, suc, ◌+◌, ◌*◌, ◌%◌, ◌^◌, ◌<◌, ◌≡◌, ◌≢◌, refl, ap, ◌∙◌, sym, [], ◌∷◌, arith, length, All,
}
use native.Mathlib.Nat.{pow-suc, mod-eq_of_lt, mod_self}
use native.Mathlib.Decide.{dec_lt}
use snell_rs.Kernel.Slice.{Bytes, IsByte}
use snell_rs.Nonce.{new, increment, advance}

-- The number that the bytes stand for, lowest byte first.
abbrev pub value : Bytes → ℕ
value [] = 0
value (b ∷ bs) = b + 256 * value bs

pub length-increment : (n : Bytes) → length (increment n) ≡ length n
unfolding increment
length-increment [] = refl
length-increment (b ∷ bs) = ground (arith, length-increment bs)

pub increment-IsByte : (n : Bytes) → All IsByte n → All IsByte (increment n)
unfolding increment
increment-IsByte [] h = h
increment-IsByte (b ∷ bs) h = ground (arith, increment-IsByte bs h.1)

value-lt : (n : Bytes) → All IsByte n → value n < 256 ^ length n
value-lt [] h = omega arith
value-lt (b ∷ bs) h = rw (pow-suc 256 (length bs)) (omega (arith, value-lt bs h.1))

increment_cases :
    (n : Bytes)
    → All IsByte n
    → (value n + 1 < 256 ^ length n → value (increment n) ≡ value n + 1)
      × (value n + 1 ≡ 256 ^ length n → value (increment n) ≡ 0)
unfolding increment
increment_cases [] h = ground arith
increment_cases (b ∷ bs) h =
    ground (arith, increment_cases bs h.1, value-lt bs h.1, pow-suc 256 (length bs))

new-IsByte : All IsByte new
unfolding new
new-IsByte = omega arith

-- `increment` of a nonce of bytes adds one to the little-endian number that it stands for, and
-- wraps at its width.
pub value-increment :
    (n : Bytes) → All IsByte n → value (increment n) ≡ (value n + 1) % 256 ^ length n
value-increment n h = elim (dec_lt (value n + 1) (256 ^ length n)) [
  | yes p ↦ (increment_cases n h).0 p ∙ sym (mod-eq_of_lt p)
  | no p ↦
      let e : value n + 1 ≡ 256 ^ length n = omega (arith, value-lt n h) in
      (increment_cases n h).1 e ∙ rw e (sym (mod_self _))
]

pub advance_lem :
    (k : ℕ) (n : Bytes)
    → All IsByte n
    → All IsByte (advance k n)
      × (length (advance k n) ≡ length n)
      × (value n + k < 256 ^ length n → value (advance k n) ≡ value n + k)
unfolding advance
advance_lem zero n h = (h, refl, λ _. omega arith)
advance_lem (suc k) n h =
    let (bytes, len, count) = advance_lem k (increment n) (increment-IsByte n h) in
    (
      bytes,
      len ∙ length-increment n,
      λ p. ground (arith, count, length-increment n, (increment_cases n h).0 (omega arith)),
    )

-- A nonce of bytes that is advanced `k` times has counted `k` records, as long as the count fits its
-- width.
pub value-advance :
    (k : ℕ) (n : Bytes)
    → All IsByte n
    → value n + k < 256 ^ length n
    → value (advance k n) ≡ value n + k
value-advance k n h fits = (advance_lem k n h).2 fits

-- The nonces of two records of a session, reached from the new nonce by different numbers of
-- increments, differ as long as both numbers are below 2 ^ 96.
pub advance-distinct : (i j : ℕ) → i < j → j < 2 ^ 96 → advance i new ≢ advance j new
unfolding new
advance-distinct i j lt hj e = omega (
  arith,
  ap value e,
  (advance_lem i new new-IsByte).2 (omega arith),
  (advance_lem j new new-IsByte).2 (omega arith),
)
