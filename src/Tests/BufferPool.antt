-- ===== src/Tests/BufferPool.antt =====
-- The buffer pool of the runtime at concrete inputs.
use snell_rs.Prelude.{ℕ, ◌≡◌, ◌≢◌, ◌≤◌, refl, [], ◌∷◌, Option, some, arith}
use snell_rs.Kernel.Error.{payload_too_large, ok, panic}
use snell_rs.Buffer
use snell_rs.BufferPool.{
  BufferPool, PooledBuffer, State, default, get, ensure, extend, release_empty,
}
use snell_rs.BufferPool
use snell_rs.BufferPool.Trace.{
  Reached, start, step, taken, extended, IsUse, Reached-IsUse, calls-ne-panic,
}

abbrev allocator : ℕ → Option ℕ
allocator n = some n

allocator_lem : (n c : ℕ) → allocator n ≡ some c → n ≤ c
allocator_lem n c h = ground arith

given : (s : State) × (get default 1024 ≡ ok s)
unfolding get default BufferPool.queue_at BufferPool.set_queue BufferPool.pop_or_default
    Buffer.empty Buffer.replace_storage Buffer.len Buffer.filled
given = (_, refl)

abbrev grown : State
grown = (extend payload_too_large allocator (given.0.0, given.0.1) (1 ∷ 2 ∷ [])).1

reached : Reached payload_too_large allocator (grown.1, grown.0 ∷ [])
reached = step (step start (taken 1024 given.0 given.1)) (extended [] [] given.0.0 (1 ∷ 2 ∷ []))

Reached-IsUse_example : IsUse (grown.1, grown.0 ∷ [])
Reached-IsUse_example =
    Reached-IsUse payload_too_large allocator (grown.1, grown.0 ∷ []) allocator_lem reached

calls-ne-panic_example :
    ((ensure payload_too_large allocator (grown.0, grown.1) 100).0 ≢ panic)
    × ((extend payload_too_large allocator (grown.0, grown.1) (3 ∷ [])).0 ≢ panic)
calls-ne-panic_example =
    calls-ne-panic payload_too_large allocator grown.1 [] [] grown.0 100 (3 ∷ []) allocator_lem
      reached

-- Two bytes take the smallest class.
leased : grown.1.leased_bytes ≡ 64
unfolding get default BufferPool.queue_at BufferPool.set_queue BufferPool.pop_or_default
    BufferPool.take_suitable BufferPool.take_from BufferPool.scan BufferPool.class_for
    BufferPool.choose_shard BufferPool.grow BufferPool.allocate ensure extend Buffer.empty
    Buffer.replace_storage Buffer.len Buffer.filled Buffer.extend_from_slice given
    Buffer.spare_capacity_mut
leased = refl
