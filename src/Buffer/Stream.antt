-- ===== src/Buffer/Stream.antt =====
-- The live bytes of the buffer of buffer.rs under each of its calls.
use snell_rs.Prelude.{
  ℕ, zero, suc, ◌+◌, ◌≤◌, ◌≡◌, refl, sym, ap, ◌∙◌, [], ◌∷◌, ◌++◌, length, drop, replicate, ltb,
  ◌==◌, if◌then◌else◌, min, arith, length-replicate, drop-drop, append-nil, Bool-cases, inl, inr,
  ◌≢◌,
}
use snell_rs.Kernel.Error.{payload_too_large, buffer_too_small, ok, err}
use snell_rs.Kernel.Slice.{Bytes}
use snell_rs.Buffer.{
  Buffer, filled, len, push, extend_from_slice, extend_zeroed, reserve_zeroed, consume,
  replace_storage, Allocation,
}
use snell_rs.Buffer.Invariant.{
  IsValid, length-filled, settled, settled-IsValid, filled-settled, settled_room,
  spare_capacity_mut_lem, filled-push, push-IsValid, extend_from_slice_lem,
}

-- Bytes pushed behind the settled buffer.
settled-push :
    (b : Buffer) (bytes : Bytes)
    → IsValid b
    → len b + length bytes ≤ min b.capacity b.max
    → (filled (push (settled b (length bytes)) bytes) ≡ filled b ++ bytes)
      × IsValid (push (settled b (length bytes)) bytes)
settled-push b bytes v fits = (
  filled-push (settled b (length bytes)) bytes (settled-IsValid b (length bytes) v).live
      ∙ ap (λ t. t ++ bytes) (filled-settled b (length bytes)),
  push-IsValid (settled b (length bytes)) bytes (settled-IsValid b (length bytes) v)
      (omega (arith, settled_room b (length bytes) v fits)),
)

extend_nothing : (b : Buffer) → extend_from_slice b [] ≡ ok b
unfolding extend_from_slice
extend_nothing b = refl

-- What is stored comes behind the live bytes.
pub filled-extend_from_slice :
    (b b' : Buffer) (bytes : Bytes)
    → IsValid b
    → extend_from_slice b bytes ≡ ok b'
    → (filled b' ≡ filled b ++ bytes) × IsValid b'
filled-extend_from_slice b b' [] v h = ground (arith, append-nil (filled b), v, extend_nothing b)
filled-extend_from_slice b b' (x ∷ bytes) v h =
    ground (arith, extend_from_slice_lem b (x ∷ bytes) v, settled-push b (x ∷ bytes) v)

drop_all : (xs : Bytes) (n : ℕ) → length xs ≤ n → drop n xs ≡ []
drop_all [] zero h = refl
drop_all [] (suc n) h = refl
drop_all (x ∷ xs) zero h = absurd (omega arith)
drop_all (x ∷ xs) (suc n) h = drop_all xs n (omega arith)

-- The buffer after `n` live bytes are gone.
abbrev pub consumed : Buffer → ℕ → Buffer
consumed b n =
    if b.start + n == length b.storage
    then record b { storage = []; start = 0 }
    else record b { start = b.start + n }

-- `consume` refuses to go past the live bytes.
pub consume_lem :
    (b : Buffer) (n : ℕ)
    → consume b n ≡ (if ltb (len b) n then err (buffer_too_small n (len b)) else ok (consumed b n))
unfolding consume len
consume_lem b n = ground arith

pub filled-consumed : (b : Buffer) (n : ℕ) → filled (consumed b n) ≡ drop n (filled b)
unfolding filled
filled-consumed b n = elim (Bool-cases (b.start + n == length b.storage)) [
  | inl gone ↦
      rw gone
        (sym (drop-drop b.start n b.storage ∙ drop_all b.storage (b.start + n) (ground arith)))
  | inr some_left ↦ rw some_left (sym (drop-drop b.start n b.storage))
]

pub consumed-IsValid : (b : Buffer) (n : ℕ) → IsValid b → n ≤ len b → IsValid (consumed b n)
unfolding len
consumed-IsValid b n v h = elim (Bool-cases (b.start + n == length b.storage)) [
  | inl gone ↦
      rw gone (record { live = omega arith; allocated = omega arith; limited = omega arith })
  | inr some_left ↦
      rw some_left
        (record { live = omega (arith, v.live); allocated = v.allocated; limited = v.limited })
]

-- What is consumed goes from the front of the live bytes.
pub filled-consume :
    (b b' : Buffer) (n : ℕ)
    → IsValid b
    → consume b n ≡ ok b'
    → (filled b' ≡ drop n (filled b)) × IsValid b'
filled-consume b b' n v h =
    ground (arith, consume_lem b n, filled-consumed b n, consumed-IsValid b n v)

refilled-IsValid :
    (b : Buffer) (size : ℕ)
    → IsValid b
    → len b ≤ size
    → IsValid (record b { storage = filled b; capacity = size; start = 0 })
refilled-IsValid b size v h = record {
  live = omega arith;
  allocated = omega (arith, length-filled b);
  limited = omega (arith, length-filled b, v.limited, len_le b);
}
  where
    len_le : (b : Buffer) → len b ≤ length b.storage
    len_le b = unfold len in omega arith

pub filled-replace_storage :
    (b : Buffer) (a : Allocation) (r : Allocation × Buffer)
    → IsValid b
    → replace_storage b a ≡ ok r
    → (filled r.1 ≡ filled b) × IsValid r.1
unfolding replace_storage
filled-replace_storage b a r v h = ground (arith, refilled-IsValid b a.size v, filled_at b a.size)
  where
    filled_at :
        (b : Buffer) (size : ℕ)
        → filled (record b { storage = filled b; capacity = size; start = 0 }) ≡ filled b
    filled_at b size = unfold filled in refl

reserve_zeroed_lem :
    (b : Buffer) (n : ℕ)
    → IsValid b
    → n ≢ 0
    → reserve_zeroed b n ≡ (
        if ltb b.max (len b + n)
        then err payload_too_large
        else if ltb (min b.capacity b.max) (len b + n)
        then err (buffer_too_small (len b + n) b.capacity)
        else ok (length (settled b n).storage, push (settled b n) (replicate n 0)))
unfolding reserve_zeroed extend_zeroed
reserve_zeroed_lem b n v ne =
    ground
      (arith, spare_capacity_mut_lem b n v, settled_room b n v, (settled-IsValid b n v).allocated)

settled_zeroes :
    (b : Buffer) (n : ℕ)
    → IsValid b
    → len b + n ≤ min b.capacity b.max
    → (filled (push (settled b n) (replicate n 0)) ≡ filled b ++ replicate n 0)
      × IsValid (push (settled b n) (replicate n 0))
settled_zeroes b n v fits = (
  filled-push (settled b n) (replicate n 0) (settled-IsValid b n v).live
      ∙ ap (λ t. t ++ replicate n 0) (filled-settled b n),
  push-IsValid (settled b n) (replicate n 0) (settled-IsValid b n v)
      (omega (arith, settled_room b n v fits, length-replicate {A = ℕ} n 0)),
)

reserve_nothing : (b : Buffer) → reserve_zeroed b 0 ≡ ok (length b.storage, b)
unfolding reserve_zeroed
reserve_nothing b = refl

pub filled-reserve_zeroed :
    (b : Buffer) (n : ℕ) (r : ℕ × Buffer)
    → IsValid b
    → reserve_zeroed b n ≡ ok r
    → (filled r.1 ≡ filled b ++ replicate n 0) × IsValid r.1
filled-reserve_zeroed b zero r v h = ground (arith, append-nil (filled b), v, reserve_nothing b)
filled-reserve_zeroed b (suc n) r v h =
    ground (arith, reserve_zeroed_lem b (suc n) v (omega arith), settled_zeroes b (suc n) v)
