-- ===== src/V4/Decoder/Safe.antt =====
-- The states that `decode` of codec/v4/mod.rs goes through.
use snell_rs.Prelude.{
  ℕ, zero, suc, ◌+◌, ◌-◌, ◌≤◌, ◌<◌, ◌≡◌, ◌≢◌, refl, sym, [], ◌++◌, Option, none, some, arith, inl,
  inr, ◌==◌, Bool-cases, length, take, drop, ltb, length-append, length-take, length-drop,
  length-take_of_le, Option-cases, le→ltb_false, ltb→lt, le→leb,
}
use mathlib.Core.Path.{subst}
use snell_rs.Kernel.Error.{Error, Result, ok, err, panic, attempt, ok_or, ◌>>=◌}
use snell_rs.Kernel.Consts.{header_cipher_len, salt_len}
use snell_rs.Kernel.Slice.{Bytes, get_to, index_from, split_at_mut}
use snell_rs.Buffer.{Buffer, filled, len, write_range}
use snell_rs.Buffer.Invariant.{IsValid, length-filled}
use snell_rs.Buffer.Ranges.{write_range-IsValid, range_within}
use snell_rs.Header.{HeaderBytes, RecordHeader, body_len_v4, parse_v4_plain_header}
use snell_rs.Record.{DecodeStatus, need_more, decoded, pending_need, zero_chunk_at, data_at, emit}
use snell_rs.Crypto.Aead.{Ring, IsRing, open_}
use snell_rs.V4.Padding.{swap_even_indices}
use snell_rs.V4.Swap.{length-swap}
use snell_rs.V4.Decoder.Returns.{
  ok_or-ne-panic, len_lem, derive-ne-panic, length-open_, open_-ne-panic, opened_header-ne-panic,
}
use snell_rs.V4.Decoder.Steps.{offset_ge}
use snell_rs.V4.Decoder.Ends.{decode-ne-none}
use snell_rs.V4.Decoder.{
  V4Decoder, ReadStep, salt, header, body, State, Round, again, returned, unless_need, read_salt,
  accept_header, open_header, read_header, open_body, read_body, round_at, go_on, loop, decode,
  header_offset, opened_header, ensure_aead, kdf_salt,
}

-- A key is there behind the salt, and a body is as long as its header says.
abbrev pub IsStep : ReadStep → Option Bytes → ℕ → Type 0
IsStep salt key pending = pending ≡ 0
IsStep header key pending = key ≢ none
IsStep (body h n) key pending =
    (key ≢ none) × (h.padding_len ≤ n) × (h.padding_len + h.payload_len ≤ n)

pub record IsDecoder (s : State) : Type 0 where
  pub step : IsStep s.0.step s.0.aead s.0.pending
  pub valid : IsValid s.1
  pub pending : s.0.pending ≤ len s.1

-- What a round may end with: it does not panic, it keeps the states, and it asks for more than
-- there is.
abbrev pub Fair : Result Round × State → Type 0
Fair (ok again, s) = IsDecoder s
Fair (ok (returned (need_more n)), s) = IsDecoder s × (len s.1 < n)
Fair (ok (returned (decoded r)), s) = IsDecoder s
Fair (err _, s) = IsDecoder s
Fair (panic, s) = ⊥

-- What `decode` may end with.
abbrev pub FairEnd : Option (Result DecodeStatus × State) → Type 0
FairEnd none = Unit {0}
FairEnd (some (ok (need_more n), s)) = IsDecoder s × (len s.1 < n)
FairEnd (some (ok (decoded r), s)) = IsDecoder s
FairEnd (some (err _, s)) = IsDecoder s
FairEnd (some (panic, s)) = ⊥

-- A failing `?` keeps the state.
attempt-Fair {ℓ} :
    {A : Type ℓ} (s : State) (m : Result A) (k : A → Result Round × State)
    → IsDecoder s
    → m ≢ panic
    → ((a : A) → m ≡ ok a → Fair (k a))
    → Fair (attempt s m k)
attempt-Fair s (ok a) k v h f = f a refl
attempt-Fair s (err e) k v h f = v
attempt-Fair s panic k v h f = absurd (h refl)

-- `pending.need` and its early return.
need-Fair :
    (d : V4Decoder) (buf : Buffer) (minimum : ℕ) (rest : Result Round × State)
    → IsDecoder (d, buf)
    → d.pending ≤ minimum
    → (minimum ≤ len buf → Fair rest)
    → Fair (
        attempt
          (d, buf)
          (pending_need d.pending buf minimum)
          λ need. unless_need (d, buf) need rest)
unfolding pending_need unless_need
need-Fair d buf minimum rest v h f = elim (Bool-cases (ltb buf.max (minimum - d.pending))) [
  | inl big ↦ rw (le→ltb_false minimum d.pending h, big) v
  | inr fits ↦ elim (Bool-cases (ltb (len buf) minimum)) [
    | inl short ↦
        rw (le→ltb_false minimum d.pending h, fits, short) (v, ltb→lt (len buf) minimum short)
    | inr there ↦ rw (le→ltb_false minimum d.pending h, fits, there) (f (ground arith))
  ]
]

parsed-ne-panic : (m : Result HeaderBytes) → m ≢ panic → (m >>= parse_v4_plain_header) ≢ panic
unfolding parse_v4_plain_header
parsed-ne-panic (ok h) k e = ground arith
parsed-ne-panic (err e') k e = cc
parsed-ne-panic panic k e = k refl

body_len-ne-panic : (h : RecordHeader) → body_len_v4 h ≢ panic
unfolding body_len_v4
body_len-ne-panic h e = ground arith

body_len_bounds :
    (h : RecordHeader) (n : ℕ)
    → body_len_v4 h ≡ ok n
    → (h.padding_len ≤ n) × (h.padding_len + h.payload_len ≤ n)
unfolding body_len_v4
body_len_bounds h n e = ground arith

module _ (ring : Ring) (r : IsRing ring) where
  ensure_aead-ne-panic :
      (o : Option Bytes) (psk : Bytes) (buf : Buffer) → ensure_aead ring o psk buf ≢ panic
  unfolding ensure_aead kdf_salt
  ensure_aead-ne-panic (some key) psk buf h = cc
  ensure_aead-ne-panic none psk buf h = elim (Option-cases (get_to (filled buf) salt_len)) [
    | inl missing ↦ let h' = rw missing at h in cc
    | inr (found, e) ↦ derive-ne-panic ring r psk found (rw e at h)
  ]

  read_salt-Fair : (s : State) → s.0.pending ≡ 0 → IsDecoder s → Fair (read_salt ring s)
  unfolding read_salt
  read_salt-Fair (d, buf) h v = need-Fair d buf salt_len _ v (omega arith) (λ there.
      attempt-Fair (d, buf) (ensure_aead ring d.aead d.psk buf) _ v
        (ensure_aead-ne-panic d.aead d.psk buf)
        (λ key e. record { step = λ e. cc; valid = v.valid; pending = v.pending }))

  accept_header-Fair :
      (d : V4Decoder) (buf : Buffer) (end : ℕ) (hdr : Bytes)
      → IsDecoder (d, buf)
      → d.aead ≢ none
      → IsStep d.step d.aead end
      → d.pending ≤ end
      → end ≤ len buf
      → 7 ≤ length hdr
      → Fair (accept_header ring (d, buf) end hdr)
  unfolding accept_header zero_chunk_at emit
  accept_header-Fair d buf end hdr v k stays p there size =
      attempt-Fair (d, buf) (opened_header hdr >>= parse_v4_plain_header) _ v
        (parsed-ne-panic (opened_header hdr) (opened_header-ne-panic ring r hdr size))
        (λ parsed _.
          attempt-Fair (d, buf) (body_len_v4 parsed) _ v (body_len-ne-panic parsed)
            (λ n e. elim (Bool-cases (n == 0)) [
              | inl empty ↦
                  rw (empty, le→ltb_false end d.pending p)
                    (record { step = stays; valid = v.valid; pending = there })
              | inr some_body ↦ rw some_body (record {
                step = (k, (body_len_bounds parsed n e).0, (body_len_bounds parsed n e).1);
                valid = v.valid;
                pending = v.pending;
              })
            ]))

  open_header-Fair :
      (d : V4Decoder) (buf : Buffer) (end : ℕ) (hdr key : Bytes)
      → IsDecoder (d, buf)
      → d.aead ≢ none
      → ((n : ℕ) → IsStep d.step d.aead n)
      → d.pending ≤ end
      → end ≤ len buf
      → length hdr ≡ header_cipher_len
      → Fair (open_header ring (d, buf) end hdr key)
  unfolding open_header
  open_header-Fair d buf end hdr key v k stays p there size =
      let d' = record d { nonce = (open_ ring key d.nonce [] hdr).1.0 } in
      let v' : IsDecoder (d', buf) = record {
        step = v.step;
        valid = v.valid;
        pending = v.pending;
      } in
      attempt-Fair (d', buf) (open_ ring key d.nonce [] hdr).0 _ v'
        (open_-ne-panic ring r key d.nonce hdr)
        (λ _ _.
          accept_header-Fair d' buf end (open_ ring key d.nonce [] hdr).1.1 v' k (stays end) p there
            (omega (arith, length-open_ ring r key d.nonce hdr, size)))

  read_header-Fair :
      (d : V4Decoder) (buf : Buffer)
      → IsDecoder (d, buf)
      → d.step ≡ header
      → Fair (read_header ring (d, buf))
  unfolding read_header index_from get_to
  read_header-Fair d buf v at =
      let keyed : d.aead ≢ none = subst (λ st. IsStep st d.aead d.pending) at v.step in
      let stays : (n : ℕ) → IsStep d.step d.aead n =
        λ n. subst (λ st. IsStep st d.aead n) (sym at) keyed in
      let off : ℕ = header_offset d in
      need-Fair d buf (off + header_cipher_len) _ v (omega (arith, offset_ge d)) λ there.
        let size : length (filled buf) ≡ len buf = length-filled buf in
        let rest : length (drop off (filled buf)) ≡ len buf - off =
          omega (arith, length-drop off (filled buf), size) in
        rw
          (
            le→leb off (length (filled buf)) (omega (arith, size)),
            le→leb header_cipher_len (length (drop off (filled buf))) (omega (arith, rest)),
          )
          (attempt-Fair (d, buf) (ok_or d.aead Error.aead) _ v (ok_or-ne-panic d.aead Error.aead)
            (λ key _.
              open_header-Fair d buf (off + header_cipher_len)
                (take header_cipher_len (drop off (filled buf))) key v keyed stays
                (omega (arith, offset_ge d)) there
                (length-take_of_le header_cipher_len (drop off (filled buf))
                  (omega (arith, rest)))))

  open_body-Fair :
      (d : V4Decoder) (buf : Buffer) (h : RecordHeader) (off n : ℕ) (padding cipher key : Bytes)
      → IsDecoder (d, buf)
      → d.aead ≢ none
      → d.pending ≤ off
      → off + n ≤ len buf
      → length padding + length cipher ≡ n
      → (keeps : (m : Bytes)
          → length m ≡ n
          → IsValid (write_range buf (buf.start + off) m)
            × (len (write_range buf (buf.start + off) m) ≡ len buf))
      → Fair (open_body ring (d, buf) h off n padding cipher key)
  unfolding open_body data_at emit
  open_body-Fair d buf h off n padding cipher key v k p there size keeps =
      let opened = open_ ring key d.nonce [] cipher in
      let inside = padding ++ opened.1.1 in
      let kept =
        keeps inside (
          omega
            (arith, length-append padding opened.1.1, length-open_ ring r key d.nonce cipher)) in
      let buf' = write_range buf (buf.start + off) inside in
      let v' : IsDecoder (record d { nonce = opened.1.0 }, buf') = record {
        step = v.step;
        valid = kept.0;
        pending = omega (arith, kept.1, v.pending);
      } in
      attempt-Fair (record d { nonce = opened.1.0 }, buf') opened.0 _ v'
        (open_-ne-panic ring r key d.nonce cipher)
        (λ _ _.
          rw (le→ltb_false (off + n) d.pending (omega arith))
            (record { step = k; valid = kept.0; pending = omega (arith, kept.1, there) }))

  read_body-Fair :
      (d : V4Decoder) (buf : Buffer) (h : RecordHeader) (n : ℕ)
      → IsDecoder (d, buf)
      → IsStep (body h n) d.aead d.pending
      → Fair (read_body ring h n (d, buf))
  unfolding read_body split_at_mut
  read_body-Fair d buf h n v k =
      let off : ℕ = header_offset d + header_cipher_len in
      need-Fair d buf (off + n) _ v (omega (arith, offset_ge d)) λ there.
        let inside : buf.start + (off + n) ≤ length buf.storage =
          omega (arith, there, v.valid, len_lem buf) in
        let bytes =
          take (buf.start + (off + n) - (buf.start + off)) (drop (buf.start + off) buf.storage) in
        let size : length bytes ≡ n = omega (
          arith,
          inside,
          length-take (buf.start + (off + n) - (buf.start + off))
              (drop (buf.start + off) buf.storage),
          length-drop (buf.start + off) buf.storage,
        ) in
        let keeps = λ (m : Bytes) (e : length m ≡ n).
          write_range-IsValid buf (buf.start + off) m (omega (arith, inside)) v.valid in
        let parts = swap_even_indices (take h.padding_len bytes) (drop h.padding_len bytes) in
        let sizes = length-swap (take h.padding_len bytes) (drop h.padding_len bytes) in
        let whole : length parts.0 + length parts.1 ≡ n = omega (
          arith,
          sizes,
          size,
          k.1,
          length-take h.padding_len bytes,
          length-drop h.padding_len bytes,
        ) in
        rw
          (
            range_within buf (buf.start + off) (buf.start + (off + n)) (omega arith) inside,
            le→leb h.padding_len (length bytes) (omega (arith, size, k.1)),
          )
          (let kept =
              keeps (parts.0 ++ parts.1) (omega (arith, whole, length-append parts.0 parts.1)) in
            attempt-Fair (d, write_range buf (buf.start + off) (parts.0 ++ parts.1))
              (ok_or d.aead Error.aead) _
              (record { step = v.step; valid = kept.0; pending = omega (arith, kept.1, v.pending) })
              (ok_or-ne-panic d.aead Error.aead)
              (λ key _.
                open_body-Fair d buf h off n parts.0 parts.1 key v k.0 (omega (arith, offset_ge d))
                  there whole keeps))

  round_at-Fair :
      (step : ReadStep) (s : State) → s.0.step ≡ step → IsDecoder s → Fair (round_at ring step s)
  unfolding round_at
  round_at-Fair salt (d, buf) e v =
      read_salt-Fair (d, buf) (subst (λ st. IsStep st d.aead d.pending) e v.step) v
  round_at-Fair header (d, buf) e v = read_header-Fair d buf v e
  round_at-Fair (body h n) (d, buf) e v =
      read_body-Fair d buf h n v (subst (λ st. IsStep st d.aead d.pending) e v.step)

  go_on-FairEnd :
      (rest : State → Option (Result DecodeStatus × State)) (o : Result Round × State)
      → Fair o
      → ((s : State) → IsDecoder s → FairEnd (rest s))
      → FairEnd (go_on ring rest o)
  unfolding go_on
  go_on-FairEnd rest (ok again, s) f h = h s f
  go_on-FairEnd rest (ok (returned (need_more n)), s) f h = f
  go_on-FairEnd rest (ok (returned (decoded r)), s) f h = f
  go_on-FairEnd rest (err _, s) f h = f
  go_on-FairEnd rest (panic, s) f h = f

  loop-FairEnd : (rounds : ℕ) (s : State) → IsDecoder s → FairEnd (loop ring rounds s)
  unfolding loop
  loop-FairEnd zero s v = tt
  loop-FairEnd (suc rounds) s v =
      go_on-FairEnd (loop ring rounds) (round_at ring s.0.step s) (round_at-Fair s.0.step s refl v)
        (loop-FairEnd rounds)

  decode_end : (s : State) → IsDecoder s → FairEnd (decode ring s)
  unfolding decode
  decode_end s v = loop-FairEnd 3 s v

  -- From a valid state, a v4 decoder whose pending bytes are live in a valid buffer, `decode` ends
  -- within its three rounds without a panic in a valid state, also after an error, and what it
  -- asks for is more than is live. The cipher keeps lengths.
  pub decode-FairEnd : (s : State) → IsDecoder s → decode ring s ≢ none × FairEnd (decode ring s)
  decode-FairEnd s v = (decode-ne-none ring s, decode_end s v)
