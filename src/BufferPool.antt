-- ===== src/BufferPool.antt =====
-- crates/snell-runtime/src/buffer.rs: the cache of buffers and their leases. An allocation is known
-- by its capacity. Each call is one step: the atomics are not looked at in between.
pub mod Cache
pub mod Leases
pub mod Calls
pub mod Given
pub mod Trace
use snell_rs.Prelude.{
  ℕ, zero, suc, ◌+◌, ◌-◌, ◌%◌, ◌/◌, ◌^◌, List, [], ◌∷◌, ◌++◌, Option, none, some, Bool, length, ltb,
  leb, ◌==◌, if◌then◌else◌,
}
use snell_rs.Kernel.Error.{
  Error, payload_too_large, Result, ok, err, panic, ◌>>=◌, ◌>>◌, fail_if, attempt,
}
use snell_rs.Kernel.Slice.{Bytes}
use snell_rs.Chunk.{usize_max}
use snell_rs.Buffer.{
  Buffer, Allocation, empty, len, replace_storage, take_empty_storage, extend_from_slice,
}

abbrev pub classes : List ℕ
classes = 64 ∷ 128 ∷ 256 ∷ 512 ∷ 1024 ∷ 2048 ∷ 4096 ∷ 8192 ∷ 16384 ∷ 32768 ∷ 65536 ∷ 73728 ∷ []

abbrev pub shards : ℕ
shards = 4

abbrev pub cached_blocks : ℕ
cached_blocks = 64

abbrev pub max_cached_capacity : ℕ
max_cached_capacity = 73728

abbrev pub usize : ℕ
usize = 2 ^ 64

-- The queues of the shards, oldest block first.
pub record BufferPool : Type 0 where
  pub queues : List (List ℕ)
  pub next : ℕ
  pub leased_bytes : ℕ

unfoldable pub default : BufferPool
default = record { queues = [] ∷ [] ∷ [] ∷ [] ∷ []; next = 0; leased_bytes = 0 }

-- A lease without its pool, which is the argument of the calls.
pub record PooledBuffer : Type 0 where
  pub buffer : Buffer
  pub shard : Option ℕ

-- `fetch_add` and `fetch_sub` wrap.
abbrev pub lease : BufferPool → ℕ → BufferPool
lease p n = record p { leased_bytes = (p.leased_bytes + n) % usize }

abbrev pub give_back : BufferPool → ℕ → BufferPool
give_back p n = record p { leased_bytes = (p.leased_bytes + (usize - n % usize)) % usize }

-- `ArrayQueue::push`: a full queue refuses.
abbrev pub push : List ℕ → ℕ → List ℕ
push queue block =
    if ltb (length queue) (cached_blocks / shards) then queue ++ block ∷ [] else queue

unfoldable pub queue_at : List (List ℕ) → ℕ → List ℕ
queue_at [] i = []
queue_at (q ∷ queues) zero = q
queue_at (q ∷ queues) (suc i) = queue_at queues i

unfoldable pub set_queue : List (List ℕ) → ℕ → List ℕ → List (List ℕ)
set_queue [] i q' = []
set_queue (q ∷ queues) zero q' = q' ∷ queues
set_queue (q ∷ queues) (suc i) q' = q ∷ set_queue queues i q'

-- `pop().unwrap_or_default()`
unfoldable pub pop_or_default : List ℕ → ℕ × List ℕ
pop_or_default [] = (0, [])
pop_or_default (block ∷ queue) = (block, queue)

-- `replace_storage(..).expect(..)`: the buffer, and the capacity that it had.
abbrev pub swap_storage : Buffer → ℕ → Result (ℕ × Buffer)
swap_storage buffer capacity = elim (replace_storage buffer (record { size = capacity })) [
  | ok (previous, buffer') ↦ ok (previous.size, buffer')
  | err _ ↦ panic
  | panic ↦ panic
]

unfoldable pub get : BufferPool → (max : ℕ) → Result (PooledBuffer × BufferPool)
get p max = do
  let shard : ℕ = p.next % shards
  let popped : ℕ × List ℕ = pop_or_default (queue_at p.queues shard)
  (_, buffer) ← swap_storage (empty max) popped.0
  ok (
    record { buffer = buffer; shard = some shard },
    lease (record p { next = (p.next + 1) % usize; queues = set_queue p.queues shard popped.1 })
        popped.0,
  )

unfoldable pub get_empty : (max : ℕ) → PooledBuffer
get_empty max = record { buffer = empty max; shard = none }

-- The inner loop over one queue, for as many blocks as it had: undersized blocks go to its end.
unfoldable pub scan : ℕ → ℕ → List ℕ → Option ℕ × List ℕ
scan zero needed queue = (none, queue)
scan (suc n) needed [] = (none, [])
scan (suc n) needed (block ∷ queue) =
    let rest = scan n needed (push queue block) in
    if leb needed block then (some block, queue) else rest

-- The loop over the shards, from `start` on.
unfoldable pub take_from : ℕ → ℕ → ℕ → List (List ℕ) → Option ℕ × List (List ℕ)
take_from zero needed at queues = (none, queues)
take_from (suc n) needed at queues =
    let i = at % shards in
    let (found, queue) = scan (length (queue_at queues i)) needed (queue_at queues i) in
    elim found [
      | some block ↦ (some block, set_queue queues i queue)
      | none ↦ take_from n needed (at + 1) (set_queue queues i queue)
    ]

unfoldable pub take_suitable : BufferPool → (needed start : ℕ) → Option ℕ × BufferPool
take_suitable p needed start =
    let (found, queues) = take_from shards needed start p.queues in
    (found, record p { queues = queues })

unfoldable pub put : BufferPool → (capacity shard : ℕ) → BufferPool
put p capacity shard =
    if capacity == 0
    then p
    else give_back
        (if leb capacity max_cached_capacity
          then record p {
            queues = set_queue p.queues shard (push (queue_at p.queues shard) capacity);
          }
          else p)
        capacity

-- `CLASSES.iter().find(|&n| n >= needed)`
unfoldable pub class_for : List ℕ → ℕ → Option ℕ
class_for [] needed = none
class_for (n ∷ more) needed = if leb needed n then some n else class_for more needed

-- The state that the methods of a lease share.
abbrev pub State : Type 0
State = PooledBuffer × BufferPool

-- `get_or_insert_with`
unfoldable pub choose_shard : State → ℕ × State
choose_shard (b, p) = elim b.shard [
  | some shard ↦ (shard, (b, p))
  | none ↦ (
    p.next % shards,
    (record b { shard = some (p.next % shards) }, record p { next = (p.next + 1) % usize }),
  )
]

-- The new block comes in, and the old one is dropped.
unfoldable pub grow : State → ℕ → Result (Unit {0}) × State
grow (b, p) capacity =
    let p1 = lease p capacity in
    attempt (b, p1) (swap_storage b.buffer capacity)
      λ swapped. (ok tt, (record b { buffer = swapped.1 }, give_back p1 swapped.0))

-- `try_reserve_exact` gives the capacity that it allocates, or none if the allocation fails; the
-- failure becomes the error `io`.
module _ (io : Error) (try_reserve_exact : ℕ → Option ℕ) where
  unfoldable pub allocate : State → (needed : ℕ) → Result (Unit {0}) × State
  allocate s needed = elim (class_for classes needed) [
    | none ↦ (err payload_too_large, s)
    | some class ↦ elim (try_reserve_exact class) [
      | none ↦ (err io, s)
      | some capacity ↦ grow s capacity
    ]
  ]

  unfoldable pub ensure : State → (needed : ℕ) → Result (Unit {0}) × State
  ensure (b, p) needed =
      if ltb b.buffer.max needed
      then (err payload_too_large, (b, p))
      else if leb needed b.buffer.capacity
      then (ok tt, (b, p))
      else (let (shard, (b1, p1)) = choose_shard (b, p) in
          let (found, p2) = take_suitable p1 needed shard in
          elim found [ some block ↦ grow (b1, p2) block | none ↦ allocate (b1, p2) needed ])

  unfoldable pub extend : State → Bytes → Result (Unit {0}) × State
  extend (b, p) bytes =
      if ltb usize_max (len b.buffer + length bytes)
      then (err payload_too_large, (b, p))
      else (let (done, (b1, p1)) = ensure (b, p) (len b.buffer + length bytes) in
          attempt (b1, p1) done
            λ _.
              attempt (b1, p1) (extend_from_slice b1.buffer bytes)
                λ buffer. (ok tt, (record b1 { buffer = buffer }, p1)))

unfoldable pub release_empty : State → State
release_empty (b, p) =
    let (taken, buffer) = take_empty_storage b.buffer in
    elim taken [
      | none ↦ (b, p)
      | some storage ↦ elim b.shard [
        | none ↦ (record b { buffer = buffer }, p)
        | some shard ↦ (record { buffer = buffer; shard = none }, put p storage.size shard)
      ]
    ]

-- `Drop`: the storage goes back to the shard.
unfoldable pub drop_lease : State → BufferPool
drop_lease (b, p) = elim b.shard [ none ↦ p | some shard ↦ put p b.buffer.capacity shard ]
