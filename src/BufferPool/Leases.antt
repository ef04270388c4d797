-- ===== src/BufferPool/Leases.antt =====
-- The calls of a lease of crates/snell-runtime/src/buffer.rs, and the count of leased bytes.
use snell_rs.Prelude.{
  ℕ, ◌+◌, ◌%◌, ◌≤◌, ◌<◌, ◌≡◌, ◌≢◌, refl, sym, Option, none, some, leb, ◌==◌, ==_iff, arith, All,
  inl, inr, Bool-cases, Option-cases, le→ltb_false, leb→le,
}
use mathlib.Core.Path.{subst}
use snell_rs.Kernel.Error.{Result, ok, panic}
use snell_rs.Buffer.{Buffer, filled, len, replace_storage}
use snell_rs.Buffer.Invariant.{IsValid, length-filled}
use snell_rs.BufferPool.Cache.{IsQueue, push-IsQueue, queue_at-IsQueue, set_queue-IsQueue}
use snell_rs.BufferPool.{
  BufferPool, PooledBuffer, State, lease, give_back, usize, shards, swap_storage, put, queue_at,
  max_cached_capacity, grow, choose_shard, drop_lease,
}

-- A lease without a shard holds no allocation.
abbrev pub Sharded : Option ℕ → ℕ → Type 0
Sharded none capacity = capacity ≡ 0
Sharded (some i) capacity = i < shards

-- A lease beside others that hold `others` bytes.
pub record IsLease (others : ℕ) (s : State) : Type 0 where
  pub counted : s.1.leased_bytes ≡ (others + s.0.buffer.capacity) % usize
  pub sharded : Sharded s.0.shard s.0.buffer.capacity
  pub valid : IsValid s.0.buffer
  pub queues : All IsQueue s.1.queues

abbrev pub Settled : ℕ → Result (Unit {0}) × State → Type 0
Settled others o = (o.0 ≢ panic) × IsLease others o.1

pub lease_counts :
    (p : BufferPool) (others n : ℕ)
    → p.leased_bytes ≡ others % usize
    → (lease p n).leased_bytes ≡ (others + n) % usize
lease_counts p others n h = omega arith

give_back_counts :
    (p : BufferPool) (others n : ℕ)
    → p.leased_bytes ≡ (others + n) % usize
    → (give_back p n).leased_bytes ≡ others % usize
give_back_counts p others n h = omega arith

exchange_counts :
    (p : BufferPool) (others old new : ℕ)
    → p.leased_bytes ≡ (others + old) % usize
    → (give_back (lease p new) old).leased_bytes ≡ (others + new) % usize
exchange_counts p others old new h = omega arith

-- A buffer in a new allocation.
abbrev pub moved : Buffer → ℕ → Buffer
moved b capacity = record b { storage = filled b; capacity = capacity; start = 0 }

pub moved-IsValid :
    (b : Buffer) (capacity : ℕ) → IsValid b → len b ≤ capacity → IsValid (moved b capacity)
unfolding len
moved-IsValid b capacity v h = record {
  live = omega arith;
  allocated = omega (arith, length-filled b);
  limited = omega (arith, length-filled b, v.limited);
}

replaced :
    (b : Buffer) (capacity : ℕ)
    → len b ≤ capacity
    → replace_storage b (record { size = capacity })
      ≡ ok (record { size = b.capacity }, moved b capacity)
unfolding replace_storage
replaced b capacity h = rw (le→ltb_false capacity (len b) h) refl

pub swap_storage_lem :
    (b : Buffer) (capacity : ℕ)
    → len b ≤ capacity
    → swap_storage b capacity ≡ ok (b.capacity, moved b capacity)
swap_storage_lem b capacity h = rw (swap_storage, replaced b capacity h) refl

pub grow-Settled :
    (others : ℕ) (b : PooledBuffer) (p : BufferPool) (i capacity : ℕ)
    → IsLease others (b, p)
    → b.shard ≡ some i
    → i < shards
    → len b.buffer ≤ capacity
    → Settled others (grow (b, p) capacity)
unfolding grow
grow-Settled others b p i capacity v s lt h = rw (swap_storage_lem b.buffer capacity h) (
  (λ e. cc e),
  record {
    counted = exchange_counts p others b.buffer.capacity capacity v.counted;
    sharded = subst (λ o. Sharded o capacity) (sym s) lt;
    valid = moved-IsValid b.buffer capacity v.valid h;
    queues = v.queues;
  },
)

-- The shard of the lease, which it keeps.
pub choose_shard-IsLease :
    (others : ℕ) (b : PooledBuffer) (p : BufferPool)
    → IsLease others (b, p)
    → IsLease others (choose_shard (b, p)).1
      × ((choose_shard (b, p)).1.0.shard ≡ some (choose_shard (b, p)).0)
      × ((choose_shard (b, p)).0 < shards)
      × ((choose_shard (b, p)).1.0.buffer ≡ b.buffer)
unfolding choose_shard
choose_shard-IsLease others b p v = elim (Option-cases b.shard) [
  | inl none_yet ↦
      rw (choose_shard, none_yet)
        (
          record { counted = v.counted; sharded = omega arith; valid = v.valid; queues = v.queues },
          refl,
          omega arith,
          refl,
        )
  | inr (i, found) ↦
      rw (choose_shard, found)
        (v, found, subst (λ o. Sharded o b.buffer.capacity) found v.sharded, refl)
]

pub put_counts :
    (others capacity shard : ℕ) (p : BufferPool)
    → p.leased_bytes ≡ (others + capacity) % usize
    → All IsQueue p.queues
    → ((put p capacity shard).leased_bytes ≡ others % usize)
      × All IsQueue (put p capacity shard).queues
unfolding put
put_counts others capacity shard p h q = elim (Bool-cases (capacity == 0)) [
  | inl nothing ↦
      let zero_bytes : capacity ≡ 0 = (==_iff capacity 0).0 nothing in rw nothing (omega arith, q)
  | inr something ↦ elim (Bool-cases (leb capacity max_cached_capacity)) [
    | inl cached ↦
        rw (something, cached)
          (
            give_back_counts p others capacity h,
            set_queue-IsQueue p.queues shard _ q (
                push-IsQueue (queue_at p.queues shard) capacity (queue_at-IsQueue p.queues shard q)
                  (leb→le capacity max_cached_capacity cached)),
          )
    | inr large ↦ rw (something, large) (give_back_counts p others capacity h, q)
  ]
]

pub drop_lease_counts :
    (others : ℕ) (b : PooledBuffer) (p : BufferPool)
    → IsLease others (b, p)
    → ((drop_lease (b, p)).leased_bytes ≡ others % usize) × All IsQueue (drop_lease (b, p)).queues
unfolding drop_lease
drop_lease_counts others b p v = elim (Option-cases b.shard) [
  | inl no_shard ↦
      let gone : b.buffer.capacity ≡ 0 =
        subst (λ o. Sharded o b.buffer.capacity) no_shard v.sharded in
      rw no_shard (omega (arith, v.counted), v.queues)
  | inr (i, found) ↦ rw found (put_counts others b.buffer.capacity i p v.counted v.queues)
]
