-- ===== src/Buffer/Ranges.antt =====
-- `range_mut` of buffer.rs on a buffer that is cut in three.
use snell_rs.Prelude.{
  ℕ, ◌+◌, ◌-◌, ◌≤◌, ◌≡◌, refl, ap, ◌∙◌, ◌++◌, length, take, drop, replicate, arith, length-append,
  take-append_length, drop-append_length, le→leb, drop-drop, lt→ltb, ◌<◌, length-take, length-drop,
}
use snell_rs.Kernel.Error.{ok}
use snell_rs.Buffer.Invariant.{IsValid}
use snell_rs.Kernel.Slice.{Bytes}
use snell_rs.Buffer.{
  Buffer, filled, len, range, write_range, set_record_end, zero_extend_to, extend_zeroed, push,
}

take_parts :
    (b : Buffer) (front middle back : Bytes)
    → b.storage ≡ front ++ (middle ++ back)
    → take (length middle) (drop (length front) b.storage) ≡ middle
take_parts b front middle back e =
    rw (e, drop-append_length front (middle ++ back)) (take-append_length middle back)

pub range_lem :
    (b : Buffer) (front middle back : Bytes) (start end : ℕ)
    → b.storage ≡ front ++ (middle ++ back)
    → start ≡ length front
    → end ≡ start + length middle
    → range b start end ≡ ok middle
unfolding range
range_lem b front middle back start end e s t =
    let n : end - start ≡ length middle = omega arith in
    let size : length b.storage ≡ length front + (length middle + length back) =
      ap length e
      ∙ omega (arith, length-append front (middle ++ back), length-append middle back) in
    rw (le→leb start end (omega arith), le→leb end (length b.storage) (omega arith), n, s)
      (rw (take_parts b front middle back e))

pub write_range_lem :
    (b : Buffer) (front middle back bytes : Bytes) (start : ℕ)
    → b.storage ≡ front ++ (middle ++ back)
    → start ≡ length front
    → length bytes ≡ length middle
    → (write_range b start bytes).storage ≡ front ++ (bytes ++ back)
write_range_lem b front middle back bytes start e s t =
    rw
      (
        s,
        t,
        e,
        take-append_length front (middle ++ back),
        ← drop-drop (length front) (length middle) (front ++ (middle ++ back)),
        drop-append_length front (middle ++ back),
        drop-append_length middle back,
      )
      refl

-- A record's end behind what is stored is reached with zeros, if they are within the allocation.
pub set_record_end-push :
    (b : Buffer) (end n : ℕ)
    → end ≡ length b.storage + n
    → 0 < n
    → end ≤ b.capacity
    → set_record_end b end ≡ ok (push b (replicate n 0))
unfolding set_record_end zero_extend_to extend_zeroed
set_record_end-push b end n e pos h =
    let size : end - length b.storage ≡ n = omega arith in
    rw (
      lt→ltb (length b.storage) end (omega arith),
      le→leb (length b.storage) end (omega arith),
      size,
      le→leb n (b.capacity - length b.storage) (omega arith),
    )

pub filled_lem :
    (b : Buffer) (dead live : Bytes)
    → b.storage ≡ dead ++ live
    → b.start ≡ length dead
    → (filled b ≡ live) × (len b ≡ length live)
unfolding filled len
filled_lem b dead live e s =
    (rw (e, s) (drop-append_length dead live), omega (arith, ap length e, length-append dead live))

-- A write within the storage keeps its length.
pub write_range_size :
    (b : Buffer) (start : ℕ) (bytes : Bytes)
    → start + length bytes ≤ length b.storage
    → length (write_range b start bytes).storage ≡ length b.storage
write_range_size b start bytes h = omega (
  arith,
  length-append (take start b.storage) (bytes ++ drop (start + length bytes) b.storage),
  length-append bytes (drop (start + length bytes) b.storage),
  length-take start b.storage,
  length-drop (start + length bytes) b.storage,
)

pub write_range-IsValid :
    (b : Buffer) (start : ℕ) (bytes : Bytes)
    → start + length bytes ≤ length b.storage
    → IsValid b
    → IsValid (write_range b start bytes) × (len (write_range b start bytes) ≡ len b)
unfolding len
write_range-IsValid b start bytes h v =
    let size = write_range_size b start bytes h in
    (
      record {
        live = omega (arith, size, v.live);
        allocated = omega (arith, size, v.allocated);
        limited = omega (arith, size, v.limited);
      },
      omega (arith, size),
    )

pub range_within :
    (b : Buffer) (start end : ℕ)
    → start ≤ end
    → end ≤ length b.storage
    → range b start end ≡ ok (take (end - start) (drop start b.storage))
unfolding range
range_within b start end h k = rw (le→leb start end h, le→leb end (length b.storage) k)
