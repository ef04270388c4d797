-- ===== src/Salt/Xor.antt =====
-- Exclusive or with the same mask twice, as salt.rs applies it.
use snell_rs.Prelude.{ℕ, zero, suc, ◌+◌, ◌*◌, ◌/◌, ◌%◌, ◌<◌, ◌≡◌, refl, ap, ◌∙◌, arith}
use Prim.Native.Nat.{bit_xor, bit_xor-bitwise, digits, differ}

abbrev xor_digits : ℕ → ℕ → ℕ → ℕ
xor_digits n a b = digits (λ b. b) differ n a b

pub differ_bit : (x y : ℕ) → x < 2 → y < 2 → (differ x (differ x y) ≡ y) × (differ x y < 2)
differ_bit zero y hx hy = (refl, hy)
differ_bit (suc zero) zero hx hy = (refl, omega arith)
differ_bit (suc zero) (suc zero) hx hy = (refl, omega arith)
differ_bit (suc zero) (suc (suc y)) hx hy = absurd (omega arith)
differ_bit (suc (suc x)) y hx hy = absurd (omega arith)

split_bit : (r d : ℕ) → d < 2 → ((r * 2 + d) / 2 ≡ r) × ((r * 2 + d) % 2 ≡ d)
split_bit r d h = (omega arith, omega arith)

xor_digits-twice : (n a b : ℕ) → xor_digits n a (xor_digits n a b) ≡ b
xor_digits-twice zero a b = refl
xor_digits-twice (suc n) zero b = refl
xor_digits-twice (suc n) (suc a) b =
    let r = xor_digits n (suc a / 2) (b / 2) in
    let d = differ (suc a % 2) (b % 2) in
    let bits = differ_bit (suc a % 2) (b % 2) (omega arith) (omega arith) in
    let parts = split_bit r d bits.1 in
    rw (parts.0, parts.1, xor_digits-twice n (suc a / 2) (b / 2), bits.0) (omega arith)

bit_xor-xor_digits : (a b : ℕ) → bit_xor a b ≡ xor_digits a a b
bit_xor-xor_digits a b = λ i. bit_xor-bitwise a b i

-- The same mask twice is no mask.
pub bit_xor-twice : (a b : ℕ) → bit_xor a (bit_xor a b) ≡ b
bit_xor-twice a b =
    bit_xor-xor_digits a (bit_xor a b)
    ∙ ap (xor_digits a a) (bit_xor-xor_digits a b)
    ∙ xor_digits-twice a a b
