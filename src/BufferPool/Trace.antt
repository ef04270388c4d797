-- ===== src/BufferPool/Trace.antt =====
-- The leases of a pool of crates/snell-runtime/src/buffer.rs over any sequence of calls.
use snell_rs.Prelude.{
  ℕ, ◌+◌, ◌%◌, ◌≤◌, ◌≡◌, ◌≢◌, refl, sym, ap, ◌∙◌, List, [], ◌∷◌, ◌++◌, Option, some, arith, All,
}
use mathlib.Core.Path.{subst}
use snell_rs.Kernel.Error.{Error, ok, panic}
use snell_rs.Kernel.Slice.{Bytes}
use snell_rs.Buffer.{Buffer}
use snell_rs.Buffer.Invariant.{IsValid}
use snell_rs.BufferPool.Cache.{IsQueue}
use snell_rs.BufferPool.Leases.{Sharded, IsLease, drop_lease_counts}
use snell_rs.BufferPool.Calls.{ensure-Settled, extend-Settled}
use snell_rs.BufferPool.Given.{get-IsLease, release_empty-IsLease, empty-IsValid, no_capacity}
use snell_rs.BufferPool.{
  BufferPool, PooledBuffer, State, default, usize, get, get_empty, ensure, extend, release_empty,
  drop_lease,
}

-- A pool and the leases that are alive.
abbrev pub Pool : Type 0
Pool = BufferPool × List PooledBuffer

-- One call. A lease is also used as the buffer that it is, which leaves its allocation alone.
pub data Step (io : Error) (try_reserve_exact : ℕ → Option ℕ) : Pool → Pool → Type 0 where
  taken :
      {p : BufferPool} {leases : List PooledBuffer} (max : ℕ) (s : State)
      → get p max ≡ ok s
      → Step io try_reserve_exact (p, leases) (s.1, s.0 ∷ leases)
  taken_empty :
      {p : BufferPool} {leases : List PooledBuffer} (max : ℕ)
      → Step io try_reserve_exact (p, leases) (p, get_empty max ∷ leases)
  ensured :
      {p : BufferPool} (front back : List PooledBuffer) (b : PooledBuffer) (needed : ℕ)
      → Step io try_reserve_exact
          (p, front ++ b ∷ back)
          (
            (ensure io try_reserve_exact (b, p) needed).1.1,
            front ++ (ensure io try_reserve_exact (b, p) needed).1.0 ∷ back,
          )
  extended :
      {p : BufferPool} (front back : List PooledBuffer) (b : PooledBuffer) (bytes : Bytes)
      → Step io try_reserve_exact
          (p, front ++ b ∷ back)
          (
            (extend io try_reserve_exact (b, p) bytes).1.1,
            front ++ (extend io try_reserve_exact (b, p) bytes).1.0 ∷ back,
          )
  released :
      {p : BufferPool} (front back : List PooledBuffer) (b : PooledBuffer)
      → Step io try_reserve_exact
          (p, front ++ b ∷ back)
          ((release_empty (b, p)).1, front ++ (release_empty (b, p)).0 ∷ back)
  used :
      {p : BufferPool} (front back : List PooledBuffer) (b : PooledBuffer) (buffer : Buffer)
      → IsValid buffer
      → buffer.capacity ≡ b.buffer.capacity
      → Step io try_reserve_exact
          (p, front ++ b ∷ back)
          (p, front ++ record b { buffer = buffer } ∷ back)
  dropped :
      {p : BufferPool} (front back : List PooledBuffer) (b : PooledBuffer)
      → Step io try_reserve_exact (p, front ++ b ∷ back) (drop_lease (b, p), front ++ back)

pub data Reached (io : Error) (try_reserve_exact : ℕ → Option ℕ) : Pool → Type 0 where
  start : Reached io try_reserve_exact (default, [])
  step :
      {pool pool' : Pool}
      → Reached io try_reserve_exact pool
      → Step io try_reserve_exact pool pool'
      → Reached io try_reserve_exact pool'

-- The capacities of the leases.
unfoldable pub held : List PooledBuffer → ℕ
held [] = 0
held (b ∷ leases) = b.buffer.capacity + held leases

abbrev pub IsFine : PooledBuffer → Type 0
IsFine b = Sharded b.shard b.buffer.capacity × IsValid b.buffer

pub record IsUse (pool : Pool) : Type 0 where
  pub counted : pool.0.leased_bytes ≡ held pool.1 % usize
  pub leases : All IsFine pool.1
  pub queues : All IsQueue pool.0.queues

held-middle :
    (front back : List PooledBuffer) (b : PooledBuffer)
    → held (front ++ b ∷ back) ≡ held (front ++ back) + b.buffer.capacity
unfolding held
held-middle [] back b = omega arith
held-middle (x ∷ front) back b = omega (arith, held-middle front back b)

All-middle :
    (front back : List PooledBuffer) (b : PooledBuffer)
    → All IsFine (front ++ b ∷ back)
    → IsFine b × All IsFine (front ++ back)
All-middle [] back b h = h
All-middle (x ∷ front) back b h = let r = All-middle front back b h.1 in (r.0, (h.0, r.1))

All-insert :
    (front back : List PooledBuffer) (b : PooledBuffer)
    → IsFine b
    → All IsFine (front ++ back)
    → All IsFine (front ++ b ∷ back)
All-insert [] back b k h = (k, h)
All-insert (x ∷ front) back b k h = (h.0, All-insert front back b k h.1)

-- The lease in the middle beside the others, and back.
IsUse-IsLease :
    (p : BufferPool) (front back : List PooledBuffer) (b : PooledBuffer)
    → IsUse (p, front ++ b ∷ back)
    → IsLease (held (front ++ back)) (b, p) × All IsFine (front ++ back)
IsUse-IsLease p front back b u =
    let (fine, others) = All-middle front back b u.leases in
    (
      record {
        counted = u.counted ∙ ap (λ n. n % usize) (held-middle front back b);
        sharded = fine.0;
        valid = fine.1;
        queues = u.queues;
      },
      others,
    )

IsLease-IsUse :
    (front back : List PooledBuffer) (s : State)
    → All IsFine (front ++ back)
    → IsLease (held (front ++ back)) s
    → IsUse (s.1, front ++ s.0 ∷ back)
IsLease-IsUse front back s others v = record {
  counted = v.counted ∙ ap (λ n. n % usize) (sym (held-middle front back s.0));
  leases = All-insert front back s.0 (v.sharded, v.valid) others;
  queues = v.queues;
}

none_cached : IsQueue []
none_cached = (omega arith, tt)

start-IsUse : IsUse (default, [])
unfolding default held
start-IsUse = record {
  counted = refl;
  leases = tt;
  queues = (none_cached, (none_cached, (none_cached, (none_cached, tt))));
}

empty-IsFine : (max : ℕ) → IsFine (get_empty max)
unfolding get_empty
empty-IsFine max = (no_capacity max, empty-IsValid max)

held-empty : (max : ℕ) (leases : List PooledBuffer) → held (get_empty max ∷ leases) ≡ held leases
unfolding held get_empty
held-empty max leases = omega (arith, no_capacity max)

module _ (io : Error) (try_reserve_exact : ℕ → Option ℕ) where
  Step-IsUse :
      {pool pool' : Pool}
      → ((n c : ℕ) → try_reserve_exact n ≡ some c → n ≤ c)
      → Step io try_reserve_exact pool pool'
      → IsUse pool
      → IsUse pool'
  Step-IsUse {pool = (p, leases)} r (taken max s e) u =
      IsLease-IsUse [] leases s u.leases (get-IsLease (held leases) max p s u.counted u.queues e)
  Step-IsUse {pool = (p, leases)} r (taken_empty max) u = record {
    counted = u.counted ∙ ap (λ n. n % usize) (sym (held-empty max leases));
    leases = (empty-IsFine max, u.leases);
    queues = u.queues;
  }
  Step-IsUse {pool = (p, _)} r (ensured front back b needed) u =
      let (v, others) = IsUse-IsLease p front back b u in
      IsLease-IsUse front back _ others
        (ensure-Settled io try_reserve_exact r (held (front ++ back)) b p needed v).1
  Step-IsUse {pool = (p, _)} r (extended front back b bytes) u =
      let (v, others) = IsUse-IsLease p front back b u in
      IsLease-IsUse front back _ others
        (extend-Settled io try_reserve_exact r (held (front ++ back)) b p bytes v).1
  Step-IsUse {pool = (p, _)} r (released front back b) u =
      let (v, others) = IsUse-IsLease p front back b u in
      IsLease-IsUse front back _ others (release_empty-IsLease (held (front ++ back)) b p v)
  Step-IsUse {pool = (p, _)} r (used front back b buffer valid same) u =
      let (v, others) = IsUse-IsLease p front back b u in
      IsLease-IsUse front back (record b { buffer = buffer }, p) others
        (record {
          counted = rw same v.counted;
          sharded = subst (Sharded b.shard) (sym same) v.sharded;
          valid = valid;
          queues = v.queues;
        })
  Step-IsUse {pool = (p, _)} r (dropped front back b) u =
      let (v, others) = IsUse-IsLease p front back b u in
      let d = drop_lease_counts (held (front ++ back)) b p v in
      record { counted = d.0; leases = others; queues = d.1 }

  -- After any sequence of calls on a new pool and its leases, the count of leased bytes is the sum
  -- of the capacities of the leases that are alive, up to the wrap of `usize`, no queue of the
  -- cache holds more than 16 blocks or a block above 73728 bytes, every lease is a valid buffer,
  -- and a lease without a shard holds no allocation. A lease may also be used as a buffer that
  -- keeps its allocation, and an allocation has at least the bytes that were asked for.
  pub Reached-IsUse :
      (pool : Pool)
      → ((n c : ℕ) → try_reserve_exact n ≡ some c → n ≤ c)
      → Reached io try_reserve_exact pool
      → IsUse pool
  Reached-IsUse _ r start = start-IsUse
  Reached-IsUse _ r (step {pool = pool} before s) = Step-IsUse r s (Reached-IsUse pool r before)

  -- In every state that a new pool reaches, `ensure` and `extend` do not panic on any lease that
  -- is alive: a replacement always has room for the live bytes. An allocation has at least the
  -- bytes that were asked for.
  pub calls-ne-panic :
      (p : BufferPool) (front back : List PooledBuffer) (b : PooledBuffer) (needed : ℕ)
      (bytes : Bytes)
      → ((n c : ℕ) → try_reserve_exact n ≡ some c → n ≤ c)
      → Reached io try_reserve_exact (p, front ++ b ∷ back)
      → ((ensure io try_reserve_exact (b, p) needed).0 ≢ panic)
        × ((extend io try_reserve_exact (b, p) bytes).0 ≢ panic)
  calls-ne-panic p front back b needed bytes r reached =
      let (v, _) = IsUse-IsLease p front back b (Reached-IsUse (p, front ++ b ∷ back) r reached) in
      (
        (ensure-Settled io try_reserve_exact r (held (front ++ back)) b p needed v).0,
        (extend-Settled io try_reserve_exact r (held (front ++ back)) b p bytes v).0,
      )
