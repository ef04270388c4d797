-- ===== src/Kernel/Bits.antt =====
-- The masked exchange of two bytes that padding.rs does, digit by digit.
use Prim.Native.Nat.{bit_and, bit_xor, bit_and-bitwise, bit_xor-bitwise, digits, differ}
use snell_rs.Prelude.{
  ℕ, zero, suc, ◌*◌, ◌/◌, ◌%◌, ◌≤◌, ◌<◌, ◌≡◌, refl, sym, ap, ◌∙◌, ◌-◌, min, arith,
}
use snell_rs.Salt.Xor.{bit_xor-twice, differ_bit}

abbrev both : (rounds left right : ℕ) → ℕ
both rounds left right = digits (λ _. zero) min rounds left right

abbrev either : (rounds left right : ℕ) → ℕ
either rounds left right = digits (λ rest. rest) differ rounds left right

-- `power k` is the first number with more than `k` digits.
abbrev power : ℕ → ℕ
power zero = 1
power (suc k) = 2 * power k

power_pos : (k : ℕ) → 0 < power k
power_pos zero = omega arith
power_pos (suc k) = omega (arith, power_pos k)

both-ones : (n k x : ℕ) → x ≤ n → x < power k → both n x (power k - 1) ≡ x
both-ones zero k x enough fits = omega arith
both-ones (suc n) k zero enough fits = refl
both-ones (suc n) zero (suc x) enough fits = absurd (omega arith)
both-ones (suc n) (suc k) (suc x) enough fits =
    let pos = power_pos k in
    let rest : (2 * power k - 1) / 2 ≡ power k - 1 = omega arith in
    let last : (2 * power k - 1) % 2 ≡ 1 = omega arith in
    rw (rest, last, both-ones n k (suc x / 2) (omega arith) (omega arith)) (omega arith)

both-zeros : (n x : ℕ) → both n x 0 ≡ 0
both-zeros zero x = refl
both-zeros (suc n) zero = refl
both-zeros (suc n) (suc x) = rw (both-zeros n (suc x / 2)) (omega arith)

either-small : (n k x y : ℕ) → x < power k → y < power k → either n x y < power k
either-small zero k x y p q = q
either-small (suc n) k zero y p q = q
either-small (suc n) zero (suc x) y p q = absurd (omega arith)
either-small (suc n) (suc k) (suc x) y p q =
    let bit = differ_bit (suc x % 2) (y % 2) (omega arith) (omega arith) in
    omega (arith, either-small n k (suc x / 2) (y / 2) (omega arith) (omega arith), bit.1)

differ_sym : (x y : ℕ) → x < 2 → y < 2 → differ x y ≡ differ y x
differ_sym zero zero p q = refl
differ_sym zero (suc zero) p q = refl
differ_sym (suc zero) zero p q = refl
differ_sym (suc zero) (suc zero) p q = refl
differ_sym x (suc (suc y)) p q = absurd (omega arith)
differ_sym (suc (suc x)) y p q = absurd (omega arith)

differ_none : (x : ℕ) → x < 2 → differ x 0 ≡ x
differ_none x h = differ_sym x 0 h (omega arith)

either-zeros : (n x : ℕ) → x ≤ n → either n x 0 ≡ x
either-zeros zero x h = omega arith
either-zeros (suc n) zero h = refl
either-zeros (suc n) (suc x) h =
    rw (either-zeros n (suc x / 2) (omega arith), differ_none (suc x % 2) (omega arith))
      (omega arith)

either_sym : (n m x y : ℕ) → x ≤ n → y ≤ m → either n x y ≡ either m y x
either_sym zero m zero y p q = sym (either-zeros m y q)
either_sym zero m (suc x) y p q = absurd (omega arith)
either_sym (suc n) m zero y p q = sym (either-zeros m y q)
either_sym (suc n) zero (suc x) zero p q = either-zeros (suc n) (suc x) p
either_sym (suc n) zero (suc x) (suc y) p q = absurd (omega arith)
either_sym (suc n) (suc m) (suc x) zero p q = either-zeros (suc n) (suc x) p
either_sym (suc n) (suc m) (suc x) (suc y) p q =
    rw
      (
        either_sym n m (suc x / 2) (suc y / 2) (omega arith) (omega arith),
        differ_sym (suc x % 2) (suc y % 2) (omega arith) (omega arith),
      )
      refl

bit_xor_sym : (x y : ℕ) → bit_xor x y ≡ bit_xor y x
bit_xor_sym x y =
    bit_xor-bitwise x y ∙ either_sym x y x y (omega arith) (omega arith) ∙ sym (bit_xor-bitwise y x)

-- Where the mask has ones, the bytes change places.
pub exchanged :
    (x y : ℕ)
    → x < 256
    → y < 256
    → (bit_xor x (bit_and (bit_xor x y) 255) ≡ y) × (bit_xor y (bit_and (bit_xor x y) 255) ≡ x)
exchanged x y p q =
    let small : bit_xor x y < 256 = rw (bit_xor-bitwise x y) (either-small x 8 x y p q) in
    let z = bit_xor x y in
    let ones : bit_and z 255 ≡ z = bit_and-bitwise z 255 ∙ both-ones z 8 z (omega arith) small in
    rw ones (bit_xor-twice x y, ap (bit_xor y) (bit_xor_sym x y) ∙ bit_xor-twice y x)

-- Where it has zeros, they stay.
pub kept : (x y : ℕ) → bit_xor x (bit_and y 0) ≡ x
kept x y =
    ap (bit_xor x) (bit_and-bitwise y 0 ∙ both-zeros y y)
    ∙ bit_xor-bitwise x 0
    ∙ either-zeros x x (omega arith)
