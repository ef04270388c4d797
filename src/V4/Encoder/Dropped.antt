-- ===== src/V4/Encoder/Dropped.antt =====
-- A record of codec/v4/mod.rs that is dropped before it is sealed, with what buffer.rs does then.
use snell_rs.Prelude.{
  ℕ, ◌≤◌, ◌≡◌, refl, sym, ap, ◌∙◌, ◌++◌, length, take, drop, arith, length-append,
  take-append_length, append_assoc,
}
use mathlib.Core.Path.{subst}
use snell_rs.Kernel.Error.{ok, >>=-eq-ok}
use snell_rs.Kernel.Slice.{Bytes}
use snell_rs.Buffer.{Buffer, filled}
use snell_rs.Buffer.Invariant.{IsValid}
use snell_rs.Record.{EncoderState, ready, ensure_ready, RecordSize}
use snell_rs.Record.Reservation.{Slot, Reservation, hold, drop_reservation}
use snell_rs.Record.Reservation.Cancel.{drop_reservation_lem}
use snell_rs.Record.Reservation.Use.{Uses, Uses-Kept}
use snell_rs.Crypto.Aead.{Ring}
use snell_rs.V4.Encoder.{V4Encoder, V4Record, PaddingFill, v4_seal, reserve}
use snell_rs.V4.Encoder.Reserved.{reserve-Made}
use snell_rs.V4.Encoder.Send.{IsEncoder, limit_small}

ensure_ready-eq-ok : (s : EncoderState) → ensure_ready s ≡ ok tt → s ≡ ready
unfolding ensure_ready
ensure_ready-eq-ok s h = ground arith

reserve-ready :
    {E : Type 0} (ring : Ring) (fill : PaddingFill E) (enc : V4Encoder E) (buf : Buffer)
    (prefix : Bytes) (size : RecordSize) (now : ℕ) (res : Reservation (V4Encoder E) V4Record)
    → reserve ⦃s = v4_seal ring fill⦄ enc buf prefix size now ≡ ok res
    → enc.state ≡ ready
unfolding reserve
reserve-ready ring fill enc buf prefix size now res h =
    let (u, e, _) = >>=-eq-ok (ensure_ready enc.state) _ h in ensure_ready-eq-ok enc.state e

held_dropped :
    {E : Type 0} (ring : Ring) (fill : PaddingFill E) (enc : V4Encoder E) (buf new : Buffer)
    (stem back : Bytes) (slot : Slot) (layout : V4Record)
    (last : Reservation (V4Encoder E) V4Record)
    → new.storage ≡ stem ++ back
    → slot.record_start ≡ length stem
    → slot.record_start ≤ slot.payload_start
    → new.start ≤ length stem
    → filled (record new { storage = stem }) ≡ filled buf
    → enc.state ≡ ready
    → Uses ⦃e = v4_seal ring fill⦄ (hold ⦃e = v4_seal ring fill⦄ enc new slot layout) last
    → (filled (drop_reservation ⦃e = v4_seal ring fill⦄ last).1 ≡ filled buf)
      × ((drop_reservation ⦃e = v4_seal ring fill⦄ last).0 ≡ enc)
unfolding hold filled
held_dropped ring fill enc buf new stem back slot layout last stored at behind inside before
      is_ready uses =
    let first = hold ⦃e = v4_seal ring fill⦄ enc new slot layout in
    let size = length-append stem back in
    let k =
      Uses-Kept ⦃e = v4_seal ring fill⦄ first last behind (omega (arith, ap length stored)) uses in
    let starts = ap (λ (q : Slot). q.record_start) k.slot in
    let dropped =
      drop_reservation_lem ⦃e = v4_seal ring fill⦄ last (omega (arith, k.start, starts))
        (omega (arith, k.whole, starts)) (ap (λ (q : V4Encoder _). q.state) k.encoder) in
    let front : take last.slot.record_start last.buf.storage ≡ stem =
      ap (λ (n : ℕ). take n last.buf.storage) starts
      ∙ k.front
      ∙ ap (λ (n : ℕ). take n new.storage) at
      ∙ ap (take (length stem)) stored
      ∙ take-append_length stem back in
    (
      ap (λ (p : V4Encoder _ × Buffer). filled p.1) dropped
          ∙ ap (λ (n : ℕ). drop n (take last.slot.record_start last.buf.storage)) k.start
          ∙ ap (drop new.start) front
          ∙ before,
      ap (λ (p : V4Encoder _ × Buffer). p.0) dropped
          ∙ ap (λ (q : V4Encoder _). record q { state = ready }) k.encoder
          ∙ ap (λ q. record enc { state = q }) (sym is_ready),
    )

-- A v4 record that `reserve` has put into a valid buffer, with salt and prefix, and that is
-- dropped before it is sealed leaves no trace, whatever the caller has written through calls of
-- `payload_mut` in between: the live bytes are as before `reserve`, and the encoder is the one
-- that was given to `reserve`, ready state included. The encoder's salt, padding length and chunk
-- window are valid.
pub drop_reservation-Uses :
    {E : Type 0} (ring : Ring) (fill : PaddingFill E) (enc : V4Encoder E) (buf : Buffer)
    (prefix : Bytes) (size : RecordSize) (now : ℕ) (res last : Reservation (V4Encoder E) V4Record)
    → IsValid buf
    → IsEncoder enc
    → reserve ⦃s = v4_seal ring fill⦄ enc buf prefix size now ≡ ok res
    → Uses ⦃e = v4_seal ring fill⦄ res last
    → (filled (drop_reservation ⦃e = v4_seal ring fill⦄ last).1 ≡ filled buf)
      × ((drop_reservation ⦃e = v4_seal ring fill⦄ last).0 ≡ enc)
unfolding hold
drop_reservation-Uses ring fill enc buf prefix size now res last v good made uses =
    let is_ready = reserve-ready ring fill enc buf prefix size now res made in
    let m =
      reserve-Made ⦃seal = v4_seal ring fill⦄ enc buf prefix size now res v good.salt_size
        (limit_small enc size now good) made in
    let p = m.placed in
    held_dropped ring fill enc buf m.new m.stem _ _ _ last (p.stored ∙ append_assoc m.stem _ _) refl
      (omega arith) p.inside p.before is_ready
      (subst (λ (q : Reservation (V4Encoder _) V4Record). Uses ⦃e = v4_seal ring fill⦄ q last)
        m.made uses)
