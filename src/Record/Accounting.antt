-- ===== src/Record/Accounting.antt =====
-- The accounting of codec/record.rs over several records, and the sizes of codec/mod.rs.
use snell_rs.Prelude.{
  ℕ, ◌+◌, ◌-◌, ◌≤◌, ◌≡◌, refl, sym, ap, ◌∙◌, List, [], ◌∷◌, length, drop, arith, drop-drop,
  length-drop,
}
use snell_rs.Kernel.Error.{Result, ok, err, panic, ◌>>=◌}
use snell_rs.Chunk.{usize_max}
use snell_rs.Buffer.{Buffer, filled, len}
use snell_rs.Buffer.Invariant.{IsValid, length-filled}
use snell_rs.Buffer.Stream.{consumed, consume_lem, filled-consumed, consumed-IsValid}
use snell_rs.Record.{
  DecodedRecord, DecodeStatus, decoded, emit, data_at, pending_consume, RecordSize, stream,
  datagram, payload_len,
}

-- Records that end at the given offsets are handed out one after the other.
unfoldable pub emit_all : ℕ → List (ℕ × (ℕ × ℕ)) → Result (List DecodedRecord × ℕ)
emit_all pending [] = ok ([], pending)
emit_all pending ((end, range) ∷ ends) = do
  (status, pending') ← data_at pending end range
  (records, last) ← emit_all pending' ends
  ok ((elim status [ DecodeStatus.need_more _ ↦ records | decoded r ↦ r ∷ records ]), last)

unfoldable pub consume_all : ℕ → Buffer → List DecodedRecord → ℕ × Result Buffer
consume_all pending buf [] = (pending, ok buf)
consume_all pending buf (r ∷ records) =
    let (left, outcome) = pending_consume pending buf r in
    elim outcome [
      | ok buf' ↦ consume_all left buf' records
      | err e ↦ (left, err e)
      | panic ↦ (left, panic)
    ]

abbrev pub total : List DecodedRecord → ℕ
total [] = 0
total (r ∷ records) = r.consumed + total records

-- The lengths of the records handed out add up to what is pending.
pub total-emit_all :
    (pending : ℕ) (ends : List (ℕ × (ℕ × ℕ))) (r : List DecodedRecord × ℕ)
    → emit_all pending ends ≡ ok r
    → pending + total r.0 ≡ r.1
unfolding emit_all data_at emit
total-emit_all pending [] r h = ground arith
total-emit_all pending ((end, range) ∷ ends) r h = grind (arith, total-emit_all end ends)

len-consumed : (buf : Buffer) (n : ℕ) → len (consumed buf n) ≡ len buf - n
len-consumed buf n =
    sym (length-filled (consumed buf n))
    ∙ ap length (filled-consumed buf n)
    ∙ length-drop n (filled buf)
    ∙ ap (λ k. k - n) (length-filled buf)

pending_consume_lem :
    (buf : Buffer) (r : DecodedRecord) (pending : ℕ)
    → r.consumed ≤ pending
    → pending ≤ len buf
    → pending_consume pending buf r ≡ (pending - r.consumed, ok (consumed buf r.consumed))
unfolding pending_consume
pending_consume_lem buf r pending h k = ground (arith, consume_lem buf r.consumed)

consume_all-cons :
    (buf : Buffer) (r : DecodedRecord) (records : List DecodedRecord) (pending : ℕ)
    → r.consumed ≤ pending
    → pending ≤ len buf
    → consume_all pending buf (r ∷ records)
      ≡ consume_all (pending - r.consumed) (consumed buf r.consumed) records
unfolding consume_all
consume_all-cons buf r records pending h k = ground (arith, pending_consume_lem buf r pending h k)

-- Decoded records of a valid buffer whose lengths are within the pending bytes, which the buffer
-- has, are all consumed in their order: the pending bytes and the front of the live bytes go down
-- by the sum of their lengths, and the buffer is still valid.
pub consume_all_lem :
    (buf : Buffer) (records : List DecodedRecord) (pending : ℕ)
    → IsValid buf
    → total records ≤ pending
    → pending ≤ len buf
    → (b : Buffer) × (consume_all pending buf records ≡ (pending - total records, ok b))
      × (filled b ≡ drop (total records) (filled buf))
      × IsValid b
unfolding consume_all
consume_all_lem buf [] pending v h k = (buf, ap (λ n. (n, ok buf)) (omega arith), refl, v)
consume_all_lem buf (r ∷ records) pending v h k =
    let left : ℕ = pending - r.consumed in
    let buf' = consumed buf r.consumed in
    let (b, run, same, v') =
      consume_all_lem buf' records left (consumed-IsValid buf r.consumed v (omega arith))
        (omega arith) (omega (arith, len-consumed buf r.consumed)) in
    (
      b,
      consume_all-cons buf r records pending (omega arith) k
          ∙ run
          ∙ ap (λ n. (n, ok b)) (omega arith),
      same
          ∙ ap (λ q. drop (total records) q) (filled-consumed buf r.consumed)
          ∙ drop-drop r.consumed (total records) (filled buf),
      v',
    )

-- A payload length that a codec grants, with a limit that fits `usize`, is at least the prefix and
-- at most the limit.
pub payload_len_bounds :
    (size : RecordSize) (prefix_len limit : ℕ) (n : ℕ)
    → payload_len size prefix_len limit ≡ ok n
    → limit ≤ usize_max
    → prefix_len ≤ n × n ≤ limit
unfolding payload_len
payload_len_bounds (stream hint) prefix_len limit n h small = ground arith
payload_len_bounds (datagram k) prefix_len limit n h small = ground arith
