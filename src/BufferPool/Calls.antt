-- ===== src/BufferPool/Calls.antt =====
-- Each call on a lease of crates/snell-runtime/src/buffer.rs.
use snell_rs.Prelude.{
  ℕ, ◌+◌, ◌≤◌, ◌<◌, ◌≡◌, refl, sym, [], ◌∷◌, Option, none, some, false, length, ltb, leb, arith,
  inl, inr, Bool-cases, Option-cases, min,
}
use mathlib.Core.Path.{subst}
use snell_rs.Kernel.Error.{Error, Result, ok, err, panic, attempt}
use snell_rs.Kernel.Slice.{Bytes}
use snell_rs.Chunk.{usize_max}
use snell_rs.Buffer.{Buffer, len, extend_from_slice, push}
use snell_rs.Buffer.Invariant.{
  IsValid, settled, settled-IsValid, settled_room, push-IsValid, extend_from_slice_lem,
}
use snell_rs.BufferPool.Cache.{Suits, take_from-IsQueue, class_for_le}
use snell_rs.BufferPool.Leases.{Sharded, IsLease, Settled, grow-Settled, choose_shard-IsLease}
use snell_rs.BufferPool.{
  BufferPool, PooledBuffer, shards, classes, class_for, grow, choose_shard, take_suitable, allocate,
  ensure, extend,
}

-- The room that is asked for holds what is live.
len_within : (b : Buffer) (needed : ℕ) → IsValid b → b.capacity < needed → len b ≤ needed
unfolding len
len_within b needed v h = omega (arith, v.allocated)

-- What storing does to a valid buffer.
abbrev Kept : Buffer → Result Buffer → Type 0
Kept b (ok b') = IsValid b' × (b'.capacity ≡ b.capacity)
Kept b (err _) = Unit {0}
Kept b panic = ⊥

push-settled :
    (b : Buffer) (bytes : Bytes)
    → IsValid b
    → ltb b.max (len b + length bytes) ≡ false
    → ltb (min b.capacity b.max) (len b + length bytes) ≡ false
    → IsValid (push (settled b (length bytes)) bytes)
      × ((push (settled b (length bytes)) bytes).capacity ≡ b.capacity)
push-settled b bytes v h k =
    let fits : len b + length bytes ≤ min b.capacity b.max = ground arith in
    let room = settled_room b (length bytes) v fits in
    (
      push-IsValid (settled b (length bytes)) bytes (settled-IsValid b (length bytes) v)
          (omega (arith, room)),
      room.1,
    )

extend_from_slice-Kept :
    (b : Buffer) (bytes : Bytes) → IsValid b → Kept b (extend_from_slice b bytes)
unfolding extend_from_slice
extend_from_slice-Kept b [] v = (v, refl)
extend_from_slice-Kept b (x ∷ bytes) v =
    subst (Kept b) (sym (extend_from_slice_lem b (x ∷ bytes) v (λ e. cc e)))
      (elim (Bool-cases (ltb b.max (len b + length (x ∷ bytes)))) [
        | inl large ↦ rw large tt
        | inr within ↦ elim (Bool-cases (ltb (min b.capacity b.max) (len b + length (x ∷ bytes)))) [
          | inl short ↦ rw (within, short) tt
          | inr fits ↦ rw (within, fits) (push-settled b (x ∷ bytes) v within fits)
        ]
      ])

store-Settled :
    (others : ℕ) (b : PooledBuffer) (p : BufferPool) (stored : Result Buffer)
    → IsLease others (b, p)
    → Kept b.buffer stored
    → Settled others (attempt (b, p) stored λ buffer. (ok tt, (record b { buffer = buffer }, p)))
store-Settled others b p (ok buffer) v k = (
  (λ e. cc e),
  record {
    counted = rw k.1 v.counted;
    sharded = subst (Sharded b.shard) (sym k.1) v.sharded;
    valid = k.0;
    queues = v.queues;
  },
)
store-Settled others b p (err e) v k = ((λ e'. cc e'), v)
store-Settled others b p panic v k = absurd k

extend_on-Settled :
    (others : ℕ) (b : PooledBuffer) (p : BufferPool) (done : Result (Unit {0})) (bytes : Bytes)
    → Settled others (done, (b, p))
    → Settled others (
        attempt
          (b, p)
          done
          λ _.
            attempt
              (b, p)
              (extend_from_slice b.buffer bytes)
              λ buffer. (ok tt, (record b { buffer = buffer }, p)))
extend_on-Settled others b p (ok _) bytes v =
    store-Settled others b p (extend_from_slice b.buffer bytes) v.1
      (extend_from_slice-Kept b.buffer bytes v.1.valid)
extend_on-Settled others b p (err e) bytes v = ((λ e'. cc e'), v.1)
extend_on-Settled others b p panic bytes v = absurd (v.0 refl)

module _ (io : Error) (try_reserve_exact : ℕ → Option ℕ)
    (reserves : (n c : ℕ) → try_reserve_exact n ≡ some c → n ≤ c) where
  allocate-Settled :
      (others : ℕ) (b : PooledBuffer) (p : BufferPool) (i needed : ℕ)
      → IsLease others (b, p)
      → b.shard ≡ some i
      → i < shards
      → len b.buffer ≤ needed
      → Settled others (allocate io try_reserve_exact (b, p) needed)
  unfolding allocate
  allocate-Settled others b p i needed v s lt h = elim (Option-cases (class_for classes needed)) [
    | inl too_large ↦ rw (allocate, too_large) ((λ e. cc e), v)
    | inr (class, found) ↦ elim (Option-cases (try_reserve_exact class)) [
      | inl failed ↦ rw (allocate, found, failed) ((λ e. cc e), v)
      | inr (capacity, made) ↦
          rw (allocate, found, made)
            (grow-Settled others b p i capacity v s lt (
              omega (arith, class_for_le classes needed class found, reserves class capacity made)))
    ]
  ]

  -- A block from the cache, or a new one.
  supply-Settled :
      (others : ℕ) (b : PooledBuffer) (p : BufferPool) (i needed : ℕ) (found : Option ℕ)
      → IsLease others (b, p)
      → b.shard ≡ some i
      → i < shards
      → len b.buffer ≤ needed
      → Suits needed found
      → Settled others (elim found [
        | some block ↦ grow (b, p) block
        | none ↦ allocate io try_reserve_exact (b, p) needed
      ])
  supply-Settled others b p i needed (some block) v s lt h k =
      grow-Settled others b p i block v s lt (omega arith)
  supply-Settled others b p i needed none v s lt h k = allocate-Settled others b p i needed v s lt h

  pub ensure-Settled :
      (others : ℕ) (b : PooledBuffer) (p : BufferPool) (needed : ℕ)
      → IsLease others (b, p)
      → Settled others (ensure io try_reserve_exact (b, p) needed)
  unfolding ensure take_suitable
  ensure-Settled others b p needed v = elim (Bool-cases (ltb b.buffer.max needed)) [
    | inl beyond ↦ rw beyond ((λ e. cc e), v)
    | inr within ↦ elim (Bool-cases (leb needed b.buffer.capacity)) [
      | inl roomy ↦ rw (within, roomy) ((λ e. cc e), v)
      | inr small ↦
          let (w, s, lt, same) = choose_shard-IsLease others b p v in
          let c = choose_shard (b, p) in
          let t = take_from-IsQueue shards needed c.0 c.1.1.queues w.queues in
          let live : len c.1.0.buffer ≤ needed =
            subst (λ x. len x ≤ needed) (sym same)
              (len_within b.buffer needed v.valid (ground arith)) in
          rw (within, small)
            (supply-Settled others c.1.0 (take_suitable c.1.1 needed c.0).1 c.0 needed _
              (record { counted = w.counted; sharded = w.sharded; valid = w.valid; queues = t.1 }) s
              lt live t.0)
    ]
  ]

  pub extend-Settled :
      (others : ℕ) (b : PooledBuffer) (p : BufferPool) (bytes : Bytes)
      → IsLease others (b, p)
      → Settled others (extend io try_reserve_exact (b, p) bytes)
  unfolding extend
  extend-Settled others b p bytes v =
      elim (Bool-cases (ltb usize_max (len b.buffer + length bytes))) [
        | inl overflows ↦ rw (extend, overflows) ((λ e. cc e), v)
        | inr fits ↦
            let o = ensure io try_reserve_exact (b, p) (len b.buffer + length bytes) in
            rw (extend, fits)
              (extend_on-Settled others o.1.0 o.1.1 o.0 bytes
                (ensure-Settled others b p (len b.buffer + length bytes) v))
      ]
