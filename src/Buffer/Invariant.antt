-- ===== src/Buffer/Invariant.antt =====
-- The live range of the buffer of buffer.rs, its allocation and its limit.
use snell_rs.Prelude.{
  ℕ, ◌+◌, ◌-◌, ◌≤◌, ◌≡◌, refl, [], ◌∷◌, ◌++◌, length, ltb, if◌then◌else◌, min, arith, length-append,
  length-drop, drop-append_le, Bool-cases, inl, inr, ◌≢◌,
}
use snell_rs.Kernel.Error.{payload_too_large, buffer_too_small, ok, err}
use snell_rs.Kernel.Slice.{Bytes}
use snell_rs.Buffer.{Buffer, new, filled, len, compact, spare_capacity_mut, push, extend_from_slice}

pub record IsValid (b : Buffer) : Type 0 where
  pub live : b.start ≤ length b.storage
  pub allocated : length b.storage ≤ b.capacity
  pub limited : length b.storage ≤ b.max

new-IsValid : (capacity max : ℕ) → IsValid (new capacity max)
unfolding new
new-IsValid capacity max = record {
  live = omega arith;
  allocated = omega arith;
  limited = omega arith;
}

pub length-filled : (b : Buffer) → length (filled b) ≡ len b
unfolding filled len
length-filled b = length-drop b.start b.storage

pub compact-IsValid : (b : Buffer) → IsValid b → IsValid (compact b)
unfolding compact
compact-IsValid b v = ground (arith, v.live, v.allocated, v.limited, length-drop b.start b.storage)

pub filled-compact : (b : Buffer) → filled (compact b) ≡ filled b
unfolding compact filled
filled-compact b = ground arith

-- The buffer in which there is room for `need` bytes behind what is stored.
abbrev pub settled : Buffer → ℕ → Buffer
settled b need = if ltb (min b.capacity b.max - length b.storage) need then compact b else b

pub settled-IsValid : (b : Buffer) (need : ℕ) → IsValid b → IsValid (settled b need)
settled-IsValid b need v = elim (Bool-cases (ltb (min b.capacity b.max - length b.storage) need)) [
  | inl moved ↦ rw moved (compact-IsValid b v)
  | inr stays ↦ rw stays v
]

pub filled-settled : (b : Buffer) (need : ℕ) → filled (settled b need) ≡ filled b
filled-settled b need = elim (Bool-cases (ltb (min b.capacity b.max - length b.storage) need)) [
  | inl moved ↦ rw moved (filled-compact b)
  | inr stays ↦ rw stays
]

-- Room behind the bytes that are stored, and the limits that it was measured with.
pub settled_room :
    (b : Buffer) (need : ℕ)
    → IsValid b
    → len b + need ≤ min b.capacity b.max
    → (length (settled b need).storage + need ≤ min b.capacity b.max)
      × ((settled b need).capacity ≡ b.capacity)
      × ((settled b need).max ≡ b.max)
unfolding compact len
settled_room b need v fits =
    ground (arith, v.live, v.allocated, v.limited, length-drop b.start b.storage)

-- `spare_capacity_mut` fails by the limit first and then by the allocation, and moves the live
-- bytes to the front if there is no room behind them.
pub spare_capacity_mut_lem :
    (b : Buffer) (need : ℕ)
    → IsValid b
    → spare_capacity_mut b need ≡ (
        if ltb b.max (len b + need)
        then err payload_too_large
        else if ltb (min b.capacity b.max) (len b + need)
        then err (buffer_too_small (len b + need) b.capacity)
        else ok (min b.capacity b.max - length (settled b need).storage, settled b need))
unfolding spare_capacity_mut len
spare_capacity_mut_lem b need v = ground (arith, v.live, v.allocated, v.limited)

pub filled-push :
    (b : Buffer) (bytes : Bytes)
    → b.start ≤ length b.storage
    → filled (push b bytes) ≡ filled b ++ bytes
unfolding filled
filled-push b bytes h = drop-append_le b.start b.storage bytes h

pub push-IsValid :
    (b : Buffer) (bytes : Bytes)
    → IsValid b
    → length b.storage + length bytes ≤ min b.capacity b.max
    → IsValid (push b bytes)
push-IsValid b bytes v h = record {
  live = omega (arith, v.live, length-append b.storage bytes);
  allocated = omega (arith, length-append b.storage bytes);
  limited = omega (arith, length-append b.storage bytes);
}

-- Bytes that are not empty are refused as too large if the live bytes and they pass the limit of a
-- valid buffer, refused for want of room if they pass what is allocated, and else stored behind
-- the live bytes, which are moved to the front if there is no room behind them.
pub extend_from_slice_lem :
    (b : Buffer) (bytes : Bytes)
    → IsValid b
    → bytes ≢ []
    → extend_from_slice b bytes ≡ (
        if ltb b.max (len b + length bytes)
        then err payload_too_large
        else if ltb (min b.capacity b.max) (len b + length bytes)
        then err (buffer_too_small (len b + length bytes) b.capacity)
        else ok (push (settled b (length bytes)) bytes))
unfolding extend_from_slice
extend_from_slice_lem b [] v ne = absurd (ne refl)
extend_from_slice_lem b (x ∷ bytes) v ne =
    ground (
      arith,
      spare_capacity_mut_lem b (length (x ∷ bytes)) v,
      settled_room b (length (x ∷ bytes)) v,
    )
