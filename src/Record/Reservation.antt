-- ===== src/Record/Reservation.antt =====
-- `Slot` and `Reservation` of crates/snell-protocol/src/buffer.rs: a record that is reserved, written
-- and sealed, or cancelled when it is dropped. `Seal` of codec/mod.rs is the encoder's interface.
pub mod Cancel
pub mod Use
use snell_rs.Prelude.{
  ℕ, ◌+◌, ◌-◌, [], ◌++◌, Option, none, some, Bool, not, ◌&&◌, length, take, drop, leb, ltb, ◌==◌,
  if◌then◌else◌, min,
}
use snell_rs.Kernel.Error.{payload_too_large, pending_wire, Result, ok, err, panic, ◌>>=◌}
use snell_rs.Kernel.Slice.{Bytes}
use snell_rs.Chunk.{usize_max}
use snell_rs.Buffer.{Buffer, zero_extend_to, commit, truncate}
use snell_rs.Record.{EncoderState, ready, reserving}

pub record Slot : Type 0 where
  pub record_start : ℕ
  pub payload_start : ℕ
  pub prefix_len : ℕ
  pub max_payload : ℕ

-- `finish` seals a payload of the given length, and may change the encoder and the buffer.
pub record Seal (Enc Rec : Type 0) : Type 0 where
  pub state : Enc → EncoderState
  pub set_state : Enc → EncoderState → Enc
  pub finish : Enc → Buffer → Slot → Rec → ℕ → Result ℕ × (Enc × Buffer)

pub record Reservation (Enc Rec : Type 0) : Type 0 where
  pub encoder : Enc
  pub buf : Buffer
  pub slot : Slot
  pub layout : Rec

module _ {Enc Rec : Type 0} ⦃e : Seal Enc Rec⦄ where
  unfoldable pub hold : Enc → Buffer → Slot → Rec → Reservation Enc Rec
  hold encoder buf slot layout = record {
    encoder = e.set_state encoder reserving;
    buf = buf;
    slot = slot;
    layout = layout;
  }

  unfoldable pub capacity : Reservation Enc Rec → ℕ
  capacity r = r.slot.max_payload - r.slot.prefix_len

  unfoldable pub unwritten_start : Reservation Enc Rec → ℕ
  unwritten_start r = r.slot.payload_start + r.slot.prefix_len

  -- The buffer behind `payload_mut`, whose slice is `[unwritten_start .. payload_start + max_payload]`.
  unfoldable pub payload_mut : Reservation Enc Rec → Result (Reservation Enc Rec)
  payload_mut r = do
    buf ← zero_extend_to r.buf (r.slot.payload_start + r.slot.max_payload)
    ok (record r { buf = buf })

  -- The length of `payload_uninit`.
  unfoldable pub payload_uninit : Reservation Enc Rec → Result ℕ
  payload_uninit r =
      if not (length r.buf.storage == unwritten_start r)
      then ok 0
      else if leb (capacity r) (min r.buf.capacity r.buf.max - length r.buf.storage)
      then ok (capacity r)
      else panic

  unfoldable pub total : Reservation Enc Rec → ℕ → Result ℕ
  total r written =
      if leb (r.slot.prefix_len + written) usize_max
        && leb (r.slot.prefix_len + written) r.slot.max_payload
      then ok (r.slot.prefix_len + written)
      else err payload_too_large

  -- `Drop`: what was neither sealed nor failed is cancelled. An error of `truncate` is ignored.
  unfoldable pub drop_reservation : Reservation Enc Rec → Enc × Buffer
  drop_reservation r = elim (e.state r.encoder) [
    | reserving ↦ (
      e.set_state r.encoder ready,
      elim (truncate r.buf r.slot.record_start) [ ok buf' ↦ buf' | err _ ↦ r.buf | panic ↦ r.buf ],
    )
    | _ ↦ (r.encoder, r.buf)
  ]

  -- A call that takes the reservation drops it at its end.
  unfoldable pub refuse : Reservation Enc Rec → Result ℕ → Result ℕ × (Enc × Buffer)
  refuse r outcome = (outcome, drop_reservation r)

  unfoldable pub finish : Reservation Enc Rec → ℕ → Result ℕ × (Enc × Buffer)
  finish r payload_len =
      let (outcome, (encoder, buf)) = e.finish r.encoder r.buf r.slot r.layout payload_len in
      (outcome, drop_reservation (record r { encoder = encoder; buf = buf }))

  unfoldable pub seal : Reservation Enc Rec → ℕ → Result ℕ × (Enc × Buffer)
  seal r written = elim (total r written) [
    | ok n ↦
        if ltb (length r.buf.storage) (r.slot.payload_start + n)
        then refuse r (err pending_wire)
        else finish r n
    | err error ↦ refuse r (err error)
    | panic ↦ refuse r panic
  ]

  -- `bytes` are those that the caller has initialised in the tail.
  unfoldable pub seal_init : Reservation Enc Rec → Bytes → Result ℕ × (Enc × Buffer)
  seal_init r bytes = elim (total r (length bytes)) [
    | ok n ↦
        if not (length r.buf.storage == unwritten_start r)
        then refuse r (err pending_wire)
        else elim (commit r.buf bytes) [
          | ok buf ↦ finish (record r { buf = buf }) n
          | err error ↦ refuse r (err error)
          | panic ↦ refuse r panic
        ]
    | err error ↦ refuse r (err error)
    | panic ↦ refuse r panic
  ]
