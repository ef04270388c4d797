-- ===== src/Buffer.antt =====
-- crates/snell-protocol/src/buffer.rs: one allocation with a live range of bytes, which moves to the
-- front only when room is needed. `storage` are the initialised bytes of the vector and `capacity` is
-- what was allocated for it. Bytes that a caller writes into the uninitialised tail before `commit`
-- are an argument of `commit`.
pub mod Invariant
pub mod Stream
pub mod Ranges
pub mod Trace
use snell_rs.Prelude.{
  ℕ, ◌+◌, ◌-◌, [], ◌++◌, Option, none, some, Bool, length, take, drop, replicate, ltb, leb, ◌==◌,
  ◌||◌, ◌&&◌, if◌then◌else◌, min,
}
use snell_rs.Kernel.Error.{
  payload_too_large, buffer_too_small, Result, ok, err, panic, ◌>>=◌, ◌>>◌, fail_if,
}
use snell_rs.Kernel.Slice.{Bytes}
use snell_rs.Address.{is_empty as is_empty_slice}

pub record Buffer : Type 0 where
  pub storage : Bytes
  pub capacity : ℕ
  pub start : ℕ
  pub max : ℕ

-- A vector's storage on its own.
pub record Allocation : Type 0 where
  pub size : ℕ

-- `Vec::with_capacity(max)` allocates `capacity`, which is `max` or more.
unfoldable pub new : (capacity max : ℕ) → Buffer
new capacity max = record { storage = []; capacity = capacity; start = 0; max = max }

unfoldable pub empty : ℕ → Buffer
empty max = record { storage = []; capacity = 0; start = 0; max = max }

unfoldable pub filled : Buffer → Bytes
filled b = drop b.start b.storage

unfoldable pub is_empty : Buffer → Bool
is_empty b = b.start == length b.storage

unfoldable pub len : Buffer → ℕ
len b = length b.storage - b.start

-- The new allocation comes without content, and the old one goes back to the caller.
unfoldable pub replace_storage : Buffer → Allocation → Result (Allocation × Buffer)
replace_storage b allocation = do
  fail_if (ltb allocation.size (len b)) (buffer_too_small (len b) allocation.size)
  ok (
    record { size = b.capacity },
    record b { storage = filled b; capacity = allocation.size; start = 0 },
  )

unfoldable pub take_empty_storage : Buffer → Option Allocation × Buffer
take_empty_storage b =
    if is_empty b
    then (some (record { size = b.capacity }), record b { storage = []; capacity = 0; start = 0 })
    else (none, b)

unfoldable pub compact : Buffer → Buffer
compact b = if b.start == 0 then b else record b { storage = drop b.start b.storage; start = 0 }

-- The writable tail, by its length.
unfoldable pub spare_capacity_mut : Buffer → ℕ → Result (ℕ × Buffer)
spare_capacity_mut b need = do
  let live = len b
  let limit = min b.capacity b.max
  fail_if (ltb b.max (live + need)) payload_too_large
  fail_if (ltb (limit - live) need) (buffer_too_small (live + need) b.capacity)
  let b' = if ltb (limit - length b.storage) need then compact b else b
  ok (limit - length b'.storage, b')

-- `self.storage.set_len` behind a write of `bytes` to the front of the tail.
abbrev pub push : Buffer → Bytes → Buffer
push b bytes = record b { storage = b.storage ++ bytes }

unfoldable pub extend_from_slice : Buffer → Bytes → Result Buffer
extend_from_slice b bytes =
    if is_empty_slice bytes
    then ok b
    else (spare_capacity_mut b (length bytes) >>= λ r.
        if leb (length bytes) r.0 then ok (push r.1 bytes) else panic)

-- The slice index bounds `n` by the allocation.
unfoldable pub extend_zeroed : Buffer → ℕ → Result Buffer
extend_zeroed b n =
    if leb n (b.capacity - length b.storage) then ok (push b (replicate n 0)) else panic

unfoldable pub reserve_record : Buffer → ℕ → ℕ → Result (ℕ × Buffer)
reserve_record b total fixed = do
  (_, b1) ← spare_capacity_mut b total
  b2 ← extend_zeroed b1 fixed
  ok (length b1.storage, b2)

unfoldable pub zero_extend_to : Buffer → ℕ → Result Buffer
zero_extend_to b end =
    if leb (length b.storage) end then extend_zeroed b (end - length b.storage) else ok b

unfoldable pub set_record_end : Buffer → ℕ → Result Buffer
set_record_end b end =
    if ltb (length b.storage) end
    then zero_extend_to b end
    else ok (record b { storage = take end b.storage })

unfoldable pub reserve_zeroed : Buffer → ℕ → Result (ℕ × Buffer)
reserve_zeroed b n =
    if n == 0
    then ok (length b.storage, b)
    else do (_, b1) ← spare_capacity_mut b n; b2 ← extend_zeroed b1 n; ok (length b1.storage, b2)

-- `bytes` are those that the caller has initialised in the tail.
unfoldable pub commit : Buffer → Bytes → Result Buffer
commit b bytes = do
  let writable = min b.capacity b.max - length b.storage
  fail_if (ltb writable (length bytes))
      (buffer_too_small (length b.storage + length bytes) (length b.storage + writable))
  ok (push b bytes)

unfoldable pub truncate : Buffer → ℕ → Result Buffer
truncate b end = do
  fail_if (ltb end b.start || ltb (length b.storage) end) (buffer_too_small end (length b.storage))
  ok (record b { storage = take end b.storage })

unfoldable pub consume : Buffer → ℕ → Result Buffer
consume b written = do
  let remaining = length b.storage - b.start
  fail_if (ltb remaining written) (buffer_too_small written remaining)
  let start = b.start + written
  ok (
      if start == length b.storage
      then record b { storage = []; start = 0 }
      else record b { start = start })

-- `range_mut`, read, and written through.
unfoldable pub range : Buffer → ℕ → ℕ → Result Bytes
range b start end =
    if leb start end && leb end (length b.storage)
    then ok (take (end - start) (drop start b.storage))
    else panic

abbrev pub write_range : Buffer → ℕ → Bytes → Buffer
write_range b start bytes = record b {
  storage = take start b.storage ++ (bytes ++ drop (start + length bytes) b.storage);
}
