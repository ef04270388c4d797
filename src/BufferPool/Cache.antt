-- ===== src/BufferPool/Cache.antt =====
-- The queues of the cache of crates/snell-runtime/src/buffer.rs.
use snell_rs.Prelude.{
  ℕ, zero, suc, ◌+◌, ◌%◌, ◌/◌, ◌≤◌, ◌≡◌, List, [], ◌∷◌, ◌++◌, Option, none, some, length, ltb, leb,
  arith, All, inl, inr, Bool-cases, Option-cases, length-append, leb→le, ltb→lt,
}
use mathlib.Core.Path.{subst}
use snell_rs.BufferPool.{
  cached_blocks, shards, max_cached_capacity, push, queue_at, set_queue, pop_or_default, scan,
  take_from, class_for,
}

abbrev pub IsQueue : List ℕ → Type 0
IsQueue queue =
    length queue ≤ cached_blocks / shards × All (λ block. block ≤ max_cached_capacity) queue

All-push :
    (queue : List ℕ) (block : ℕ)
    → All (λ b. b ≤ max_cached_capacity) queue
    → block ≤ max_cached_capacity
    → All (λ b. b ≤ max_cached_capacity) (queue ++ block ∷ [])
All-push [] block h k = (k, tt)
All-push (x ∷ queue) block h k = (h.0, All-push queue block h.1 k)

pub push-IsQueue :
    (queue : List ℕ) (block : ℕ)
    → IsQueue queue
    → block ≤ max_cached_capacity
    → IsQueue (push queue block)
push-IsQueue queue block h k = elim (Bool-cases (ltb (length queue) (cached_blocks / shards))) [
  | inl room ↦ rw room (
    omega (
      arith,
      ltb→lt (length queue) (cached_blocks / shards) room,
      length-append queue (block ∷ []),
    ),
    All-push queue block h.1 k,
  )
  | inr full ↦ rw full h
]

pub queue_at-IsQueue :
    (queues : List (List ℕ)) (i : ℕ) → All IsQueue queues → IsQueue (queue_at queues i)
unfolding queue_at
queue_at-IsQueue [] i h = (omega arith, tt)
queue_at-IsQueue (q ∷ queues) zero h = h.0
queue_at-IsQueue (q ∷ queues) (suc i) h = queue_at-IsQueue queues i h.1

pub set_queue-IsQueue :
    (queues : List (List ℕ)) (i : ℕ) (q : List ℕ)
    → All IsQueue queues
    → IsQueue q
    → All IsQueue (set_queue queues i q)
unfolding set_queue
set_queue-IsQueue [] i q h k = tt
set_queue-IsQueue (q' ∷ queues) zero q h k = (k, h.1)
set_queue-IsQueue (q' ∷ queues) (suc i) q h k = (h.0, set_queue-IsQueue queues i q h.1 k)

pub pop-IsQueue : (queue : List ℕ) → IsQueue queue → IsQueue (pop_or_default queue).1
unfolding pop_or_default
pop-IsQueue [] h = h
pop-IsQueue (block ∷ queue) h = (omega (arith, h.0), h.1.1)

-- A block that was found is large enough.
abbrev pub Suits : ℕ → Option ℕ → Type 0
Suits needed none = Unit {0}
Suits needed (some block) = needed ≤ block

pub scan-IsQueue :
    (n needed : ℕ) (queue : List ℕ)
    → IsQueue queue
    → Suits needed (scan n needed queue).0 × IsQueue (scan n needed queue).1
unfolding scan
scan-IsQueue zero needed queue h = (tt, h)
scan-IsQueue (suc n) needed [] h = (tt, h)
scan-IsQueue (suc n) needed (block ∷ queue) h =
    let rest : IsQueue queue = (omega (arith, h.0), h.1.1) in
    elim (Bool-cases (leb needed block)) [
      | inl fits ↦ rw fits (leb→le needed block fits, rest)
      | inr small ↦
          rw small (scan-IsQueue n needed (push queue block) (push-IsQueue queue block rest h.1.0))
    ]

pub take_from-IsQueue :
    (n needed at : ℕ) (queues : List (List ℕ))
    → All IsQueue queues
    → Suits needed (take_from n needed at queues).0 × All IsQueue (take_from n needed at queues).1
unfolding take_from
take_from-IsQueue zero needed at queues h = (tt, h)
take_from-IsQueue (suc n) needed at queues h =
    let i = at % shards in
    let q = queue_at queues i in
    let s = scan-IsQueue (length q) needed q (queue_at-IsQueue queues i h) in
    let after = set_queue-IsQueue queues i (scan (length q) needed q).1 h s.1 in
    elim (Option-cases (scan (length q) needed q).0) [
      | inl nothing ↦ rw (take_from, nothing) (take_from-IsQueue n needed (at + 1) _ after)
      | inr (block, found) ↦ rw (take_from, found) (subst (Suits needed) found s.0, after)
    ]

pub class_for_le :
    (cs : List ℕ) (needed class : ℕ) → class_for cs needed ≡ some class → needed ≤ class
unfolding class_for
class_for_le [] needed class h = cc
class_for_le (n ∷ more) needed class h = elim (Bool-cases (leb needed n)) [
  | inl fits ↦ let e = rw fits at h in subst (λ o. Suits needed o) e (leb→le needed n fits)
  | inr small ↦ class_for_le more needed class (rw small at h)
]
