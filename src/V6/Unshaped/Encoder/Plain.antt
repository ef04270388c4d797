-- ===== src/V6/Unshaped/Encoder/Plain.antt =====
-- A record of unshaped.rs beside the v4 record without padding.
use snell_rs.Prelude.{ℕ, ◌+◌, ◌-◌, ◌≡◌, refl, inl, inr, Bool-cases, ◌==◌, arith}
use mathlib.Core.Path.{subst}
use snell_rs.Kernel.Error.{Result, ok, err, panic, attempt}
use snell_rs.Kernel.Consts.{header_cipher_len, tag_len}
use snell_rs.Kernel.Slice.{split_at_mut}
use snell_rs.Header.{HeaderBytes, plain_header}
use snell_rs.Buffer.{Buffer}
use snell_rs.Record.Reservation.{Slot}
use snell_rs.Crypto.Aead.{Ring}
use snell_rs.V4.Encoder.{V4Encoder, V4Record, PaddingFill, cover}
use snell_rs.V4.Encoder
use snell_rs.V6.Unshaped.Encoder.{V6UnshapedEncoder, State, seal_header, seal_payload, seal_record}

module _ {E : Type 0} (ring : Ring) (fill : PaddingFill E) where
  -- A v4 encoder with the same key, nonce and state.
  abbrev pub Same : V4Encoder E × Buffer → State → Type 0
  Same s t = (s.0.aead ≡ t.0.aead) × (s.0.nonce ≡ t.0.nonce) × (s.1 ≡ t.1)

  -- One outcome and one state.
  abbrev pub Agree : Result (Unit {0}) × (V4Encoder E × Buffer) → Result (Unit {0}) × State → Type 0
  Agree x y = (x.0 ≡ y.0) × Same x.1 y.1

  attempt-Agree {ℓ} :
      {A : Type ℓ} (s : V4Encoder E × Buffer) (s' : State) (m : Result A)
      (k : A → Result (Unit {0}) × (V4Encoder E × Buffer)) (k' : A → Result (Unit {0}) × State)
      → Same s s'
      → ((a : A) → Agree (k a) (k' a))
      → Agree (attempt s m k) (attempt s' m k')
  attempt-Agree s s' (ok a) k k' h f = f a
  attempt-Agree s s' (err e) k k' h f = (refl, h)
  attempt-Agree s s' panic k k' h f = (refl, h)

  then-Agree :
      (x : Result (Unit {0}) × (V4Encoder E × Buffer)) (y : Result (Unit {0}) × State)
      (k : V4Encoder E × Buffer → Result (Unit {0}) × (V4Encoder E × Buffer))
      (k' : State → Result (Unit {0}) × State)
      → Agree x y
      → (Same x.1 y.1 → Agree (k x.1) (k' y.1))
      → Agree (attempt x.1 x.0 (λ _. k x.1)) (attempt y.1 y.0 (λ _. k' y.1))
  then-Agree (o, s) (o', s') k k' h f =
      subst (λ r. Agree (attempt s o (λ _. k s)) (attempt s' r (λ _. k' s'))) h.0
        (attempt-Agree s s' o (λ _. k s) (λ _. k' s') h.1 (λ _. f h.1))

  seal_header-v4 :
      (start : ℕ) (plain : HeaderBytes) (v4 : V4Encoder E) (enc : V6UnshapedEncoder) (buf : Buffer)
      → v4.aead ≡ enc.aead
      → v4.nonce ≡ enc.nonce
      → ((Encoder.seal_header ring fill start plain (v4, buf)).0
          ≡ (seal_header ring start (start + header_cipher_len) plain (enc, buf)).0)
        × Same
            (Encoder.seal_header ring fill start plain (v4, buf)).1
            (seal_header ring start (start + header_cipher_len) plain (enc, buf)).1
  unfolding seal_header Encoder.seal_header
  seal_header-v4 start plain v4 enc buf k n = ground arith

  seal_payload-v4 :
      (start end : ℕ) (v4 : V4Encoder E) (enc : V6UnshapedEncoder) (buf : Buffer)
      → v4.aead ≡ enc.aead
      → v4.nonce ≡ enc.nonce
      → ((Encoder.seal_body ring fill start end 0 (v4, buf)).0
          ≡ (seal_payload ring start end (enc, buf)).0)
        × Same
            (Encoder.seal_body ring fill start end 0 (v4, buf)).1
            (seal_payload ring start end (enc, buf)).1
  unfolding seal_payload Encoder.seal_body cover split_at_mut
  seal_payload-v4 start end v4 enc buf k n = ground arith

  seal_payload-Agree :
      (start end : ℕ) (s : V4Encoder E × Buffer) (s' : State)
      → Same s s'
      → Agree (Encoder.seal_body ring fill start end 0 s) (seal_payload ring start end s')
  seal_payload-Agree start end (v4, b) (enc, c) same =
      subst
        (λ x.
          Agree (Encoder.seal_body ring fill start end 0 (v4, b))
            (seal_payload ring start end (enc, x)))
        same.2 (seal_payload-v4 start end v4 enc b same.0 same.1)

  -- Sealing an unshaped v6 record ends as sealing a v4 record without padding at the same place
  -- does, with the same bytes in the buffer and the same next nonce, if both encoders have the
  -- same key and nonce.
  pub seal_record-v4 :
      (slot : Slot) (layout : V4Record) (payload_len : ℕ) (v4 : V4Encoder E)
      (enc : V6UnshapedEncoder) (buf : Buffer)
      → layout.padding_len ≡ 0
      → layout.header_start + header_cipher_len ≡ slot.payload_start
      → v4.aead ≡ enc.aead
      → v4.nonce ≡ enc.nonce
      → Agree
          (Encoder.seal_record ring fill slot layout payload_len (v4, buf))
          (seal_record ring slot payload_len (enc, buf))
  unfolding seal_record Encoder.seal_record
  seal_record-v4 slot layout payload_len v4 enc buf pad at k n =
      let start : layout.header_start + header_cipher_len - header_cipher_len
          ≡ layout.header_start =
        omega arith in
      elim (Bool-cases (payload_len == 0)) [
        | inl empty ↦
            rw (empty, ← at, start)
              (attempt-Agree (v4, buf) (enc, buf) _ _ _ (k, n, refl)
                λ buf1.
                  then-Agree
                    (Encoder.seal_header ring fill layout.header_start (plain_header 0 payload_len)
                      (v4, buf1))
                    (seal_header ring layout.header_start (layout.header_start + header_cipher_len)
                      (plain_header 0 payload_len) (enc, buf1))
                    (λ s. (ok tt, s)) (λ s. (ok tt, s))
                    (seal_header-v4 layout.header_start (plain_header 0 payload_len) v4 enc buf1 k
                      n)
                    (λ same. (refl, same)))
        | inr some_payload ↦
            rw (some_payload, ← at, start, pad)
              (attempt-Agree (v4, buf) (enc, buf) _ _ _ (k, n, refl)
                λ buf1.
                  then-Agree
                    (Encoder.seal_header ring fill layout.header_start (plain_header 0 payload_len)
                      (v4, buf1))
                    (seal_header ring layout.header_start (layout.header_start + header_cipher_len)
                      (plain_header 0 payload_len) (enc, buf1))
                    (Encoder.seal_body ring fill (layout.header_start + header_cipher_len)
                      (layout.header_start + header_cipher_len + payload_len + tag_len) 0)
                    (seal_payload ring (layout.header_start + header_cipher_len)
                      (layout.header_start + header_cipher_len + payload_len + tag_len))
                    (seal_header-v4 layout.header_start (plain_header 0 payload_len) v4 enc buf1 k
                      n)
                    (λ same. seal_payload-Agree _ _ _ _ same))
      ]
