-- ===== src/Record.antt =====
-- crates/snell-protocol/src/codec/record.rs and `RecordSize` of codec/mod.rs: the accounting that the
-- record codecs share. A subtraction of lengths that underflows is a panic.
pub mod Accounting
pub mod Reservation
use snell_rs.Prelude.{
  ℕ, ◌+◌, ◌-◌, ◌≡◌, Option, none, some, Bool, length, take, drop, ltb, leb, ◌==◌, if◌then◌else◌,
  min,
}
use snell_rs.Kernel.Error.{
  Error, payload_too_large, pending_wire, plaintext_not_drained, Result, ok, err, panic, ◌>>=◌,
}
use snell_rs.Kernel.Slice.{Bytes}
use snell_rs.Chunk.{usize_max}
use snell_rs.Buffer.{Buffer, len, consume}

pub data RecordKind : Type 0 where
  data_record zero_chunk : RecordKind

pub record DecodedRecord : Type 0 where
  pub consumed : ℕ
  -- from, and up to
  pub plaintext : ℕ × ℕ
  pub kind : RecordKind

pub data DecodeStatus : Type 0 where
  need_more : (minimum : ℕ) → DecodeStatus
  decoded : DecodedRecord → DecodeStatus

-- `&filled[range]`
unfoldable pub plaintext : DecodedRecord → Bytes → Result Bytes
plaintext record_ filled =
    let (from, to) = record_.plaintext in
    if leb from to
    then (if leb to (length filled) then ok (take (to - from) (drop from filled)) else panic)
    else panic

pub data EncoderState : Type 0 where
  ready reserving poisoned : EncoderState

unfoldable pub ensure_ready : EncoderState → Result (Unit {0})
ensure_ready ready = ok tt
ensure_ready reserving = err pending_wire
ensure_ready poisoned = err Error.poisoned

unfoldable pub after_seal : Bool → EncoderState
after_seal failed_after_nonce = if failed_after_nonce then poisoned else ready

-- `Pending` by its number: the length of the records that are returned and not consumed.
unfoldable pub pending_need : ℕ → Buffer → ℕ → Result (Option DecodeStatus)
pending_need pending buf minimum =
    if ltb minimum pending
    then panic
    else if ltb buf.max (minimum - pending)
    then err payload_too_large
    else if ltb (len buf) minimum
    then ok (some (need_more minimum))
    else ok none

unfoldable pub emit : ℕ → ℕ → ℕ × ℕ → RecordKind → Result (DecodeStatus × ℕ)
emit pending end range kind =
    if ltb end pending
    then panic
    else ok (decoded (record { consumed = end - pending; plaintext = range; kind = kind }), end)

unfoldable pub data_at : ℕ → ℕ → ℕ × ℕ → Result (DecodeStatus × ℕ)
data_at pending end range = emit pending end range data_record

unfoldable pub zero_chunk_at : ℕ → ℕ → Result (DecodeStatus × ℕ)
zero_chunk_at pending end = emit pending end (0, 0) zero_chunk

-- The new number of pending bytes, and the outcome in the buffer.
unfoldable pub pending_consume : ℕ → Buffer → DecodedRecord → ℕ × Result Buffer
pending_consume pending buf r =
    if ltb pending r.consumed
    then (pending, err plaintext_not_drained)
    else (pending - r.consumed, consume buf r.consumed)

pub data RecordSize : Type 0 where
  stream datagram : ℕ → RecordSize

unfoldable pub payload_len : RecordSize → ℕ → ℕ → Result ℕ
payload_len (stream hint) prefix_len limit =
    if leb prefix_len limit
    then ok (min (min (prefix_len + hint) usize_max) limit)
    else err payload_too_large
payload_len (datagram n) prefix_len limit =
    if leb (prefix_len + n) usize_max
    then (if leb (prefix_len + n) limit then ok (prefix_len + n) else err payload_too_large)
    else err payload_too_large
