-- ===== src/Crypto/Entropy.antt =====
-- crates/snell-protocol/src/crypto/entropy.rs. `fill` gives the outcome, the new content of the
-- slice and the generator behind the call.
use snell_rs.Prelude.{ℕ, ◌≡◌, none, some, Bool, true, false, length, replicate}
use snell_rs.Kernel.Error.{Error, entropy_exhausted, Result, ok, err}
use snell_rs.Kernel.Slice.{Bytes, split_at_checked}

pub record Entropy (E : Type 0) : Type 0 where
  pub fill : E → Bytes → Result (Unit {0}) × (Bytes × E)

-- `SystemRandom::fill` is a parameter: whether it succeeds, and what the slice then holds.
unfoldable pub os_fill :
    {E : Type 0} → (E → Bytes → Bool × (Bytes × E)) → E → Bytes → Result (Unit {0}) × (Bytes × E)
os_fill system random buf =
    let (filled, after) = system random buf in
    elim filled [ true ↦ (ok tt, after) | false ↦ (err Error.entropy, after) ]

pub record RepeatEntropy : Type 0 where
  pub byte : ℕ

unfoldable pub repeat_fill : RepeatEntropy → Bytes → Result (Unit {0}) × (Bytes × RepeatEntropy)
repeat_fill e buf = (ok tt, (replicate (length buf) e.byte, e))

pub record SequenceEntropy : Type 0 where
  pub bytes : Bytes

unfoldable pub sequence_fill :
    SequenceEntropy → Bytes → Result (Unit {0}) × (Bytes × SequenceEntropy)
sequence_fill e buf = elim (split_at_checked (length buf) e.bytes) [
  | none ↦ (err entropy_exhausted, (buf, e))
  | some (head, rest) ↦ (ok tt, (head, record { bytes = rest }))
]

unfoldable pub os_entropy : {E : Type 0} → (E → Bytes → Bool × (Bytes × E)) → Entropy E
os_entropy system = record { fill = os_fill system }

unfoldable pub repeat_entropy : Entropy RepeatEntropy
repeat_entropy = record { fill = repeat_fill }

unfoldable pub sequence_entropy : Entropy SequenceEntropy
sequence_entropy = record { fill = sequence_fill }

-- The generator writes within the slice.
pub record KeepsLength {E : Type 0} (g : Entropy E) : Type 0 where
  pub length-fill : (e : E) (buf : Bytes) → length (g.fill e buf).1.0 ≡ length buf
