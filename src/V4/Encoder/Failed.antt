-- ===== src/V4/Encoder/Failed.antt =====
-- `finish` of codec/v4/mod.rs when the seal has failed.
use snell_rs.Prelude.{
  ℕ, ◌≡◌, refl, sym, ap, ◌∙◌, [], ◌∷◌, Bool, true, false, not, inl, inr, arith, if◌then◌else◌,
}
use snell_rs.Kernel.Error.{Error, poisoned, Result, ok, err, panic, Result-cases}
use snell_rs.Kernel.Slice.{Bytes}
use snell_rs.Header.{HeaderBytes}
use snell_rs.Buffer.{Buffer, truncate}
use snell_rs.Record.{ready, after_seal, ensure_ready, RecordSize}
use snell_rs.Record.Reservation.{Slot}
use snell_rs.Crypto.Aead.{Ring}
use snell_rs.V4.Encoder.{
  V4Encoder, V4Record, PaddingFill, seal_header, seal_body, cover, seal_record, settle, finish,
  reserve, v4_seal, bytes_eq,
}

pub bytes_eq_refl : (xs : Bytes) → bytes_eq xs xs ≡ true
unfolding bytes_eq
bytes_eq_refl [] = refl
bytes_eq_refl (x ∷ xs) = ground (arith, bytes_eq_refl xs)

bytes_eq→eq : (xs ys : Bytes) → bytes_eq xs ys ≡ true → xs ≡ ys
unfolding bytes_eq
bytes_eq→eq [] [] e = refl
bytes_eq→eq [] (y ∷ ys) e = cc
bytes_eq→eq (x ∷ xs) [] e = cc
bytes_eq→eq (x ∷ xs) (y ∷ ys) e = ground (arith, bytes_eq→eq xs ys)

module _ {E : Type 0} (ring : Ring) (fill : PaddingFill E) where
  settle-err :
      (slot : Slot) (layout : V4Record) (before : Bytes) (outcome : Result (Unit {0}))
      (enc last : V4Encoder E) (buf after : Buffer) (e : Error)
      → settle ring fill slot layout before (outcome, (enc, buf)) ≡ (err e, (last, after))
      → (last.nonce ≡ enc.nonce)
        × (last.chunk ≡ enc.chunk)
        × (last.state ≡ after_seal (not (bytes_eq enc.nonce before)))
  unfolding settle
  settle-err slot layout before (ok _) enc last buf after e h = cc
  settle-err slot layout before panic enc last buf after e h = cc
  settle-err slot layout before (err e') enc last buf after e h =
      elim (Result-cases (truncate buf slot.record_start)) [
        | inl (b, t) ↦
            let same = ap (λ (o : Result ℕ × (V4Encoder E × Buffer)). o.1.0) (rw t at h) in
            (
              ap (λ q. q.nonce) (sym same),
              ap (λ q. q.chunk) (sym same),
              ap (λ q. q.state) (sym same),
            )
        | inr (inl (e2, t)) ↦
            let same = ap (λ (o : Result ℕ × (V4Encoder E × Buffer)). o.1.0) (rw t at h) in
            (
              ap (λ q. q.nonce) (sym same),
              ap (λ q. q.chunk) (sym same),
              ap (λ q. q.state) (sym same),
            )
        | inr (inr t) ↦
            let same = ap (λ (o : Result ℕ × (V4Encoder E × Buffer)). o.0) (rw t at h) in cc
      ]

  seal_header-chunk :
      (start : ℕ) (plain : HeaderBytes) (enc : V4Encoder E) (buf : Buffer)
      → (seal_header ring fill start plain (enc, buf)).1.0.chunk ≡ enc.chunk
  unfolding seal_header
  seal_header-chunk start plain enc buf = ground arith

  seal_body-chunk :
      (start end pad : ℕ) (enc : V4Encoder E) (buf : Buffer)
      → (seal_body ring fill start end pad (enc, buf)).1.0.chunk ≡ enc.chunk
  unfolding seal_body cover
  seal_body-chunk start end pad enc buf = ground arith

  seal_record-chunk :
      (slot : Slot) (layout : V4Record) (n : ℕ) (enc : V4Encoder E) (buf : Buffer)
      → (seal_record ring fill slot layout n (enc, buf)).1.0.chunk ≡ enc.chunk
  unfolding seal_record
  seal_record-chunk slot layout n enc buf = grind (arith, seal_header-chunk, seal_body-chunk)

  reserve_flag :
      (last : V4Encoder E) (same : Bool) (buf : Buffer) (prefix : Bytes) (size : RecordSize)
      (now : ℕ)
      → last.state ≡ after_seal (not same)
      → reserve ⦃s = v4_seal ring fill⦄ last buf prefix size now ≡ (
          if same
          then reserve ⦃s = v4_seal ring fill⦄ (record last { state = ready }) buf prefix size now
          else err poisoned)
  unfolding after_seal
  reserve_flag last true buf prefix size now h =
      ap (λ st. reserve ⦃s = v4_seal ring fill⦄ (record last { state = st }) buf prefix size now) h
  reserve_flag last false buf prefix size now h =
      ap (λ st. reserve ⦃s = v4_seal ring fill⦄ (record last { state = st }) buf prefix size now) h
      ∙ unfold reserve in unfold ensure_ready in refl

  -- After an error of `finish` the chunk window of the v4 encoder is as before, and `reserve` is
  -- refused as poisoned unless the nonce is unchanged, in which case it does what it does on a
  -- ready encoder.
  pub reserve-finish :
      (enc last : V4Encoder E) (buf after other : Buffer) (slot : Slot) (layout : V4Record)
      (payload_len : ℕ) (e : Error) (prefix : Bytes) (size : RecordSize) (now : ℕ)
      → finish ring fill enc buf slot layout payload_len ≡ (err e, (last, after))
      → (last.chunk ≡ enc.chunk)
        × (reserve ⦃s = v4_seal ring fill⦄ last other prefix size now ≡ (
            if bytes_eq last.nonce enc.nonce
            then reserve ⦃s = v4_seal ring fill⦄
                (record last { state = ready })
                other
                prefix
                size
                now
            else err poisoned))
  unfolding finish
  reserve-finish enc last buf after other slot layout payload_len e prefix size now h =
      let out = seal_record ring fill slot layout payload_len (enc, buf) in
      let s = settle-err slot layout enc.nonce out.0 out.1.0 last out.1.1 after e h in
      (
        s.1 ∙ seal_record-chunk slot layout payload_len enc buf,
        reserve_flag last (bytes_eq last.nonce enc.nonce) other prefix size now
            (s.2 ∙ ap (λ n. after_seal (not (bytes_eq n enc.nonce))) (sym s.0)),
      )
