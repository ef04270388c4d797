-- ===== src/Prelude/Eq.antt =====
-- Keys that can be compared, and lists of keys used as sets.
use mathlib.Core.Path.{◌≡◌, refl}
use mathlib.Core.Logic.{◌↔◌}
use mathlib.Core.Bool.{Bool, true, false, ◌||◌}
use mathlib.Core.List.{List, [], ◌∷◌}
use native.Mathlib.Omega.{arith}
use Prim.Native.Nat.{ℕ}
use snell_rs.Prelude.Tests.{◌==◌ as nat_beq, ==_iff, if◌then◌else◌}

-- `PartialEq` with its law.
pub record Eq {ℓ} (Key : Type ℓ) : Type ℓ where
  pub beq : Key → Key → Bool
  pub beq_iff : (x y : Key) → (beq x y ≡ true) ↔ (x ≡ y)

instance abbrev pub nat_eq : Eq ℕ
nat_eq = record { beq_iff = ==_iff; beq = nat_beq }

-- A `HashSet`: the elements in no particular order, each once if they are put in by `insert`.
module _ {ℓ} {A : Type ℓ} ⦃e : Eq A⦄ where
  unfoldable pub member : List A → A → Bool
  member [] a = false
  member (x ∷ xs) a = e.beq x a || member xs a

  unfoldable pub remove : List A → A → List A
  remove [] a = []
  remove (x ∷ xs) a = if e.beq x a then remove xs a else x ∷ remove xs a

  pub beq_refl : (a : A) → e.beq a a ≡ true
  beq_refl a = (e.beq_iff a a).1 refl

  pub member-remove :
      (xs : List A) (a b : A) → member (remove xs a) b ≡ (if e.beq a b then false else member xs b)
  unfolding member remove
  member-remove [] a b = ground arith
  member-remove (x ∷ xs) a b =
      ground (arith, member-remove xs a b, e.beq_iff x a, e.beq_iff a b, e.beq_iff x b)
