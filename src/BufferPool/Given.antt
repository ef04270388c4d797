-- ===== src/BufferPool/Given.antt =====
-- A lease that is taken from the pool of crates/snell-runtime/src/buffer.rs, and one that is let go.
use snell_rs.Prelude.{
  ℕ, ◌%◌, ◌≤◌, ◌≡◌, refl, [], none, some, true, false, arith, All, inl, inr, Bool-cases,
  Option-cases,
}
use mathlib.Core.Path.{subst}
use snell_rs.Kernel.Error.{ok}
use snell_rs.Buffer.{Buffer, len, empty, is_empty, take_empty_storage}
use snell_rs.Buffer.Invariant.{IsValid}
use snell_rs.BufferPool.Cache.{IsQueue, set_queue-IsQueue, pop-IsQueue, queue_at-IsQueue}
use snell_rs.BufferPool.Leases.{
  Sharded, IsLease, lease_counts, swap_storage_lem, moved-IsValid, put_counts,
}
use snell_rs.BufferPool.{
  BufferPool, PooledBuffer, State, usize, shards, queue_at, get, pop_or_default, release_empty,
}

pub empty-IsValid : (max : ℕ) → IsValid (empty max)
unfolding empty
empty-IsValid max = record { live = omega arith; allocated = omega arith; limited = omega arith }

len-empty : (max : ℕ) → len (empty max) ≡ 0
unfolding len empty
len-empty max = refl

pub no_capacity : (max : ℕ) → (empty max).capacity ≡ 0
unfolding empty
no_capacity max = refl

ok-eq : {A : Type 0} {a b : A} → ok a ≡ ok b → a ≡ b
ok-eq e = cc

-- `get` gives a lease of the block that it took from the cache.
pub get-IsLease :
    (others max : ℕ) (p : BufferPool) (s : State)
    → p.leased_bytes ≡ others % usize
    → All IsQueue p.queues
    → get p max ≡ ok s
    → IsLease others s
unfolding get
get-IsLease others max p s h q e =
    let shard = p.next % shards in
    let queue = queue_at p.queues shard in
    let popped = pop_or_default queue in
    let fits : len (empty max) ≤ popped.0 = omega (arith, len-empty max) in
    subst (IsLease others) (ok-eq (rw (swap_storage_lem (empty max) popped.0 fits) at e)) (record {
      counted = lease_counts p others popped.0 h;
      sharded = omega arith;
      valid = moved-IsValid (empty max) popped.0 (empty-IsValid max) fits;
      queues =
          set_queue-IsQueue p.queues shard popped.1 q
            (pop-IsQueue queue (queue_at-IsQueue p.queues shard q));
    })

abbrev cleared : Buffer → Buffer
cleared b = record b { storage = []; capacity = 0; start = 0 }

cleared-IsValid : (b : Buffer) → IsValid (cleared b)
cleared-IsValid b = record { live = omega arith; allocated = omega arith; limited = omega arith }

taken_storage :
    (b : Buffer)
    → is_empty b ≡ true
    → take_empty_storage b ≡ (some (record { size = b.capacity }), cleared b)
unfolding take_empty_storage
taken_storage b h = rw (take_empty_storage, h) refl

kept_storage : (b : Buffer) → is_empty b ≡ false → take_empty_storage b ≡ (none, b)
unfolding take_empty_storage
kept_storage b h = rw (take_empty_storage, h) refl

pub release_empty-IsLease :
    (others : ℕ) (b : PooledBuffer) (p : BufferPool)
    → IsLease others (b, p)
    → IsLease others (release_empty (b, p))
unfolding release_empty
release_empty-IsLease others b p v = elim (Bool-cases (is_empty b.buffer)) [
  | inr live ↦ rw (release_empty, kept_storage b.buffer live) v
  | inl gone ↦ elim (Option-cases b.shard) [
    | inl no_shard ↦
        let held : b.buffer.capacity ≡ 0 =
          subst (λ o. Sharded o b.buffer.capacity) no_shard v.sharded in
        rw (release_empty, taken_storage b.buffer gone, no_shard, taken_storage b.buffer gone)
          (record {
            counted = omega (arith, v.counted);
            sharded = rw no_shard refl;
            valid = cleared-IsValid b.buffer;
            queues = v.queues;
          })
    | inr (i, found) ↦
        let r = put_counts others b.buffer.capacity i p v.counted v.queues in
        rw (release_empty, taken_storage b.buffer gone, found, taken_storage b.buffer gone)
          (record {
            counted = omega (arith, r.0);
            sharded = refl;
            valid = cleared-IsValid b.buffer;
            queues = r.1;
          })
  ]
]
