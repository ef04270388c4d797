-- ===== src/V6/Unshaped/Encoder/Failed.antt =====
-- `finish` of unshaped.rs when the seal has failed.
use snell_rs.Prelude.{
  ◌≡◌, refl, sym, ap, ◌∙◌, ℕ, true, false, Bool, not, inl, inr, arith, if◌then◌else◌,
}
use snell_rs.Kernel.Error.{Error, poisoned, Result, ok, err, panic, Result-cases}
use snell_rs.Kernel.Slice.{Bytes}
use snell_rs.Buffer.{Buffer, truncate}
use snell_rs.Record.{ready, after_seal, ensure_ready, RecordSize}
use snell_rs.Record.Reservation.{Slot}
use snell_rs.Crypto.Aead.{Ring}
use snell_rs.V4.Encoder.{bytes_eq, is_err}
use snell_rs.V6.Unshaped.Encoder.{
  V6UnshapedEncoder, State, seal_header, seal_payload, seal_record, settle, finish, reserve,
  v6_unshaped_seal,
}

module _ (ring : Ring) where
  settle-err :
      (slot : Slot) (before : Bytes) (outcome : Result (Unit {0})) (enc last : V6UnshapedEncoder)
      (buf after : Buffer) (e : Error)
      → settle ring slot before (outcome, (enc, buf)) ≡ (err e, (last, after))
      → last ≡ record enc { state = after_seal (not (bytes_eq enc.nonce before)) }
  unfolding settle is_err
  settle-err slot before (ok _) enc last buf after e h = cc
  settle-err slot before panic enc last buf after e h = cc
  settle-err slot before (err e') enc last buf after e h =
      elim (Result-cases (truncate buf slot.record_start)) [
        | inl (b, t) ↦ sym (ap (λ (o : Result ℕ × State). o.1.0) (rw t at h))
        | inr (inl (e2, t)) ↦ sym (ap (λ (o : Result ℕ × State). o.1.0) (rw t at h))
        | inr (inr t) ↦ let same = ap (λ (o : Result ℕ × State). o.0) (rw t at h) in cc
      ]

  seal_record-salt_sent :
      (slot : Slot) (n : ℕ) (enc : V6UnshapedEncoder) (buf : Buffer)
      → (seal_record ring slot n (enc, buf)).1.0.salt_sent ≡ enc.salt_sent
  unfolding seal_record seal_header seal_payload
  seal_record-salt_sent slot n enc buf = ground arith

  reserve_flag :
      (last : V6UnshapedEncoder) (same : Bool) (buf : Buffer) (prefix : Bytes) (size : RecordSize)
      → last.state ≡ after_seal (not same)
      → reserve ⦃s = v6_unshaped_seal ring⦄ last buf prefix size ≡ (
          if same
          then reserve ⦃s = v6_unshaped_seal ring⦄ (record last { state = ready }) buf prefix size
          else err poisoned)
  unfolding after_seal
  reserve_flag last true buf prefix size h =
      ap (λ st. reserve ⦃s = v6_unshaped_seal ring⦄ (record last { state = st }) buf prefix size) h
  reserve_flag last false buf prefix size h =
      ap (λ st. reserve ⦃s = v6_unshaped_seal ring⦄ (record last { state = st }) buf prefix size) h
      ∙ unfold reserve in unfold ensure_ready in refl

  -- After an error of `finish` the unshaped v6 encoder has sent its salt only if it had before,
  -- and `reserve` is refused as poisoned unless the nonce is unchanged, in which case it does what
  -- it does on a ready encoder.
  pub reserve-finish_unshaped :
      (enc last : V6UnshapedEncoder) (buf after other : Buffer) (slot : Slot) (payload_len : ℕ)
      (e : Error) (prefix : Bytes) (size : RecordSize)
      → finish ring enc buf slot tt payload_len ≡ (err e, (last, after))
      → (last.salt_sent ≡ enc.salt_sent)
        × (reserve ⦃s = v6_unshaped_seal ring⦄ last other prefix size ≡ (
            if bytes_eq last.nonce enc.nonce
            then reserve ⦃s = v6_unshaped_seal ring⦄
                (record last { state = ready })
                other
                prefix
                size
            else err poisoned))
  unfolding finish
  reserve-finish_unshaped enc last buf after other slot payload_len e prefix size h =
      let out = seal_record ring slot payload_len (enc, buf) in
      let s = settle-err slot enc.nonce out.0 out.1.0 last out.1.1 after e h in
      (
        ap (λ q. q.salt_sent) s ∙ seal_record-salt_sent slot payload_len enc buf,
        reserve_flag last (bytes_eq last.nonce enc.nonce) other prefix size (
            ap (λ q. q.state) s
            ∙ ap (λ n. after_seal (not (bytes_eq n enc.nonce))) (ap (λ q. q.nonce) (sym s))),
      )
