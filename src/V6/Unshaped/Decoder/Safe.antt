-- ===== src/V6/Unshaped/Decoder/Safe.antt =====
-- The states that `decode` of unshaped.rs goes through.
use snell_rs.Prelude.{
  ℕ, zero, suc, ◌+◌, ◌-◌, ◌≤◌, ◌<◌, ◌≡◌, ◌≢◌, refl, sym, [], Option, none, some, arith, inl, inr,
  ◌==◌, Bool-cases, length, take, drop, ltb, length-take, length-drop, length-take_of_le,
  Option-cases, le→ltb_false, ltb→lt, le→leb,
}
use mathlib.Core.Path.{subst}
use snell_rs.Kernel.Error.{Error, Result, ok, err, panic, attempt, ok_or, ◌>>=◌}
use snell_rs.Kernel.Consts.{header_cipher_len, salt_len}
use snell_rs.Kernel.Slice.{Bytes, get_to, index_from}
use snell_rs.Buffer.{Buffer, filled, len, write_range}
use snell_rs.Buffer.Invariant.{IsValid, length-filled}
use snell_rs.Buffer.Ranges.{write_range-IsValid, range_within}
use snell_rs.Header.{
  HeaderBytes, RecordHeader, body_len_v6_unshaped, parse_v6_plain_header, parse_plain_header,
}
use snell_rs.Record.{DecodeStatus, need_more, decoded, pending_need, zero_chunk_at, data_at, emit}
use snell_rs.Crypto.Aead.{Ring, IsRing, open_}
use snell_rs.V4.Decoder.{Round, again, returned, kdf_salt, opened_header}
use snell_rs.V4.Decoder.Returns.{
  ok_or-ne-panic, len_lem, derive-ne-panic, length-open_, open_-ne-panic, opened_header-ne-panic,
}
use snell_rs.V6.Unshaped.Decoder.{
  V6UnshapedDecoder, ReadStep, salt, header, body, State, unless_need, ensure_key, read_salt,
  accept_header, open_header, read_header, open_body, read_body, round_at, go_on, loop, decode,
  header_offset,
}

-- A key is there behind the salt, and a body is at least as long as its payload.
abbrev pub IsStep : ReadStep → Option (Bytes × Bytes) → ℕ → Type 0
IsStep salt key pending = pending ≡ 0
IsStep header key pending = key ≢ none
IsStep (body payload_len n) key pending = (key ≢ none) × (payload_len ≤ n)

pub record IsDecoder (s : State) : Type 0 where
  pub step : IsStep s.0.step s.0.key s.0.pending
  pub valid : IsValid s.1
  pub pending : s.0.pending ≤ len s.1

-- The rounds that are left.
abbrev pub rank : ReadStep → ℕ
rank salt = 3
rank header = 2
rank (body _ _) = 1

rank_pos : (step : ReadStep) → rank step ≤ 0 → ⊥
rank_pos salt h = omega arith
rank_pos header h = omega arith
rank_pos (body _ _) h = omega arith

rank_le : (step : ReadStep) → rank step ≤ 3
rank_le salt = omega arith
rank_le header = omega arith
rank_le (body _ _) = omega arith

-- What a round may end with: no panic, a valid state, fewer rounds left or a return, and a need for
-- more than there is.
abbrev pub Fair : ℕ → Result Round × State → Type 0
Fair n (ok again, s) = IsDecoder s × (rank s.0.step < n)
Fair n (ok (returned (need_more k)), s) = IsDecoder s × (len s.1 < k)
Fair n (ok (returned (decoded r)), s) = IsDecoder s
Fair n (err _, s) = IsDecoder s
Fair n (panic, s) = ⊥

-- What `decode` may end with.
abbrev pub FairEnd : Option (Result DecodeStatus × State) → Type 0
FairEnd none = ⊥
FairEnd (some (ok (need_more n), s)) = IsDecoder s × (len s.1 < n)
FairEnd (some (ok (decoded r), s)) = IsDecoder s
FairEnd (some (err _, s)) = IsDecoder s
FairEnd (some (panic, s)) = ⊥

-- A failing `?` keeps the state.
attempt-Fair {ℓ} :
    {A : Type ℓ} (n : ℕ) (s : State) (m : Result A) (k : A → Result Round × State)
    → IsDecoder s
    → m ≢ panic
    → ((a : A) → m ≡ ok a → Fair n (k a))
    → Fair n (attempt s m k)
attempt-Fair n s (ok a) k v h f = f a refl
attempt-Fair n s (err e) k v h f = v
attempt-Fair n s panic k v h f = absurd (h refl)

-- `pending.need` and its early return.
need-Fair :
    (n : ℕ) (d : V6UnshapedDecoder) (buf : Buffer) (minimum : ℕ) (rest : Result Round × State)
    → IsDecoder (d, buf)
    → d.pending ≤ minimum
    → (minimum ≤ len buf → Fair n rest)
    → Fair n (
        attempt
          (d, buf)
          (pending_need d.pending buf minimum)
          λ need. unless_need (d, buf) need rest)
unfolding pending_need unless_need
need-Fair n d buf minimum rest v h f = elim (Bool-cases (ltb buf.max (minimum - d.pending))) [
  | inl big ↦ rw (le→ltb_false minimum d.pending h, big) v
  | inr fits ↦ elim (Bool-cases (ltb (len buf) minimum)) [
    | inl short ↦
        rw (le→ltb_false minimum d.pending h, fits, short) (v, ltb→lt (len buf) minimum short)
    | inr there ↦ rw (le→ltb_false minimum d.pending h, fits, there) (f (ground arith))
  ]
]

parsed-ne-panic : (m : Result HeaderBytes) → m ≢ panic → (m >>= parse_v6_plain_header) ≢ panic
unfolding parse_v6_plain_header parse_plain_header
parsed-ne-panic (ok h) k e = ground arith
parsed-ne-panic (err e') k e = cc
parsed-ne-panic panic k e = k refl

body_len-ne-panic : (h : RecordHeader) → body_len_v6_unshaped h ≢ panic
unfolding body_len_v6_unshaped
body_len-ne-panic h e = ground arith

body_len_bounds : (h : RecordHeader) (n : ℕ) → body_len_v6_unshaped h ≡ ok n → h.payload_len ≤ n
unfolding body_len_v6_unshaped
body_len_bounds h n e = ground arith

offset_ge : (d : V6UnshapedDecoder) → d.pending ≤ header_offset d
unfolding header_offset
offset_ge d = omega arith

module _ (ring : Ring) (r : IsRing ring) where
  ensure_key-ne-panic :
      (o : Option (Bytes × Bytes)) (psk : Bytes) (buf : Buffer) → ensure_key ring o psk buf ≢ panic
  unfolding ensure_key kdf_salt
  ensure_key-ne-panic (some key) psk buf h = cc
  ensure_key-ne-panic none psk buf h = elim (Option-cases (get_to (filled buf) salt_len)) [
    | inl missing ↦ let h' = rw missing at h in cc
    | inr (found, e) ↦ derive-ne-panic ring r psk found (ground (arith, rw e at h))
  ]

  read_salt-Fair : (s : State) → s.0.pending ≡ 0 → IsDecoder s → Fair 3 (read_salt ring s)
  unfolding read_salt
  read_salt-Fair (d, buf) h v = need-Fair 3 d buf salt_len _ v (omega arith) (λ there.
      attempt-Fair 3 (d, buf) (ensure_key ring d.key d.psk buf) _ v
        (ensure_key-ne-panic d.key d.psk buf)
        (λ key e. (record { step = λ e. cc; valid = v.valid; pending = v.pending }, omega arith)))

  accept_header-Fair :
      (d : V6UnshapedDecoder) (buf : Buffer) (end : ℕ) (hdr : Bytes)
      → IsDecoder (d, buf)
      → d.key ≢ none
      → IsStep d.step d.key end
      → d.pending ≤ end
      → end ≤ len buf
      → 7 ≤ length hdr
      → Fair 2 (accept_header ring (d, buf) end hdr)
  unfolding accept_header zero_chunk_at emit
  accept_header-Fair d buf end hdr v k stays p there size =
      attempt-Fair 2 (d, buf) (opened_header hdr >>= parse_v6_plain_header) _ v
        (parsed-ne-panic (opened_header hdr) (opened_header-ne-panic ring r hdr size))
        (λ parsed _.
          attempt-Fair 2 (d, buf) (body_len_v6_unshaped parsed) _ v (body_len-ne-panic parsed)
            (λ n e. elim (Bool-cases (n == 0)) [
              | inl empty ↦
                  rw (empty, le→ltb_false end d.pending p)
                    (record { step = stays; valid = v.valid; pending = there })
              | inr some_body ↦ rw some_body (
                record {
                  step = (k, body_len_bounds parsed n e);
                  valid = v.valid;
                  pending = v.pending;
                },
                omega arith,
              )
            ]))

  open_header-Fair :
      (d : V6UnshapedDecoder) (buf : Buffer) (end : ℕ) (hdr : Bytes) (key : Bytes × Bytes)
      → IsDecoder (d, buf)
      → d.key ≢ none
      → ((n : ℕ) → IsStep d.step d.key n)
      → d.pending ≤ end
      → end ≤ len buf
      → length hdr ≡ header_cipher_len
      → Fair 2 (open_header ring (d, buf) end hdr key)
  unfolding open_header
  open_header-Fair d buf end hdr key v k stays p there size =
      let d' = record d { nonce = (open_ ring key.0 d.nonce [] hdr).1.0 } in
      let v' : IsDecoder (d', buf) = record {
        step = v.step;
        valid = v.valid;
        pending = v.pending;
      } in
      attempt-Fair 2 (d', buf) (open_ ring key.0 d.nonce [] hdr).0 _ v'
        (open_-ne-panic ring r key.0 d.nonce hdr)
        (λ _ _.
          accept_header-Fair d' buf end (open_ ring key.0 d.nonce [] hdr).1.1 v' k (stays end) p
            there (omega (arith, length-open_ ring r key.0 d.nonce hdr, size)))

  read_header-Fair :
      (d : V6UnshapedDecoder) (buf : Buffer)
      → IsDecoder (d, buf)
      → d.step ≡ header
      → Fair 2 (read_header ring (d, buf))
  unfolding read_header index_from get_to
  read_header-Fair d buf v at =
      let keyed : d.key ≢ none = subst (λ st. IsStep st d.key d.pending) at v.step in
      let stays : (n : ℕ) → IsStep d.step d.key n =
        λ n. subst (λ st. IsStep st d.key n) (sym at) keyed in
      let off : ℕ = header_offset d in
      need-Fair 2 d buf (off + header_cipher_len) _ v (omega (arith, offset_ge d)) λ there.
        let size : length (filled buf) ≡ len buf = length-filled buf in
        let rest : length (drop off (filled buf)) ≡ len buf - off =
          omega (arith, length-drop off (filled buf), size) in
        rw
          (
            le→leb off (length (filled buf)) (omega (arith, size)),
            le→leb header_cipher_len (length (drop off (filled buf))) (omega (arith, rest)),
          )
          (attempt-Fair 2 (d, buf) (ok_or d.key Error.aead) _ v (ok_or-ne-panic d.key Error.aead)
            (λ key _.
              open_header-Fair d buf (off + header_cipher_len)
                (take header_cipher_len (drop off (filled buf))) key v keyed stays
                (omega (arith, offset_ge d)) there
                (length-take_of_le header_cipher_len (drop off (filled buf))
                  (omega (arith, rest)))))

  -- The body is opened in place.
  open_body-Fair :
      (d : V6UnshapedDecoder) (buf : Buffer) (payload_len off n : ℕ) (key cipher : Bytes)
      → IsDecoder (d, buf)
      → d.key ≢ none
      → d.pending ≤ off
      → off + n ≤ len buf
      → length cipher ≡ n
      → Fair 1 (open_body ring (d, buf) payload_len off n key cipher)
  unfolding open_body data_at emit
  open_body-Fair d buf payload_len off n key cipher v k p there size =
      let opened = open_ ring key d.nonce [] cipher in
      let kept =
        write_range-IsValid buf (buf.start + off) opened.1.1
          (omega (arith, there, v.valid, len_lem buf, length-open_ ring r key d.nonce cipher))
          v.valid in
      let buf' = write_range buf (buf.start + off) opened.1.1 in
      let v' : IsDecoder (record d { nonce = opened.1.0 }, buf') = record {
        step = v.step;
        valid = kept.0;
        pending = omega (arith, kept.1, v.pending);
      } in
      attempt-Fair 1 (record d { nonce = opened.1.0 }, buf') opened.0 _ v'
        (open_-ne-panic ring r key d.nonce cipher)
        (λ _ _.
          rw (le→ltb_false (off + n) d.pending (omega arith))
            (record { step = k; valid = kept.0; pending = omega (arith, kept.1, there) }))

  read_body-Fair :
      (d : V6UnshapedDecoder) (buf : Buffer) (payload_len n : ℕ)
      → IsDecoder (d, buf)
      → d.key ≢ none
      → Fair 1 (read_body ring payload_len n (d, buf))
  unfolding read_body
  read_body-Fair d buf payload_len n v k =
      let off : ℕ = header_offset d + header_cipher_len in
      need-Fair 1 d buf (off + n) _ v (omega (arith, offset_ge d)) λ there.
        let inside : buf.start + (off + n) ≤ length buf.storage =
          omega (arith, there, v.valid, len_lem buf) in
        let size : length (
              take (buf.start + (off + n) - (buf.start + off)) (drop (buf.start + off) buf.storage))
            ≡ n =
          omega (
            arith,
            inside,
            length-take (buf.start + (off + n) - (buf.start + off))
                (drop (buf.start + off) buf.storage),
            length-drop (buf.start + off) buf.storage,
          ) in
        attempt-Fair 1 (d, buf) (ok_or d.key Error.aead) _ v (ok_or-ne-panic d.key Error.aead)
          λ key _.
            rw (range_within buf (buf.start + off) (buf.start + (off + n)) (omega arith) inside) (
              open_body-Fair d buf payload_len off n key.0 _ v k (omega (arith, offset_ge d)) there
                size)

  round_at-Fair :
      (step : ReadStep) (s : State)
      → s.0.step ≡ step
      → IsDecoder s
      → Fair (rank step) (round_at ring step s)
  unfolding round_at
  round_at-Fair salt (d, buf) e v =
      read_salt-Fair (d, buf) (subst (λ st. IsStep st d.key d.pending) e v.step) v
  round_at-Fair header (d, buf) e v = read_header-Fair d buf v e
  round_at-Fair (body payload_len n) (d, buf) e v =
      read_body-Fair d buf payload_len n v (subst (λ st. IsStep st d.key d.pending) e v.step).0

  go_on-FairEnd :
      (rest : State → Option (Result DecodeStatus × State)) (n : ℕ) (o : Result Round × State)
      → Fair n o
      → ((s : State) → IsDecoder s → rank s.0.step < n → FairEnd (rest s))
      → FairEnd (go_on ring rest o)
  unfolding go_on
  go_on-FairEnd rest n (ok again, s) f h = h s f.0 f.1
  go_on-FairEnd rest n (ok (returned (need_more k)), s) f h = f
  go_on-FairEnd rest n (ok (returned (decoded _)), s) f h = f
  go_on-FairEnd rest n (err _, s) f h = f
  go_on-FairEnd rest n (panic, s) f h = f

  loop-FairEnd :
      (rounds : ℕ) (s : State) → rank s.0.step ≤ rounds → IsDecoder s → FairEnd (loop ring rounds s)
  unfolding loop
  loop-FairEnd zero s h v = absurd (rank_pos s.0.step h)
  loop-FairEnd (suc rounds) s h v =
      go_on-FairEnd (loop ring rounds) (rank s.0.step) (round_at ring s.0.step s)
        (round_at-Fair s.0.step s refl v) (λ s' v' lt. loop-FairEnd rounds s' (omega arith) v')

  -- From a valid state, an unshaped v6 decoder whose pending bytes are live in a valid buffer,
  -- `decode` ends within its three rounds without a panic in a valid state, also after an error,
  -- and what it asks for is more than is live. The cipher keeps lengths.
  pub decode_unshaped-FairEnd : (s : State) → IsDecoder s → FairEnd (decode ring s)
  unfolding decode
  decode_unshaped-FairEnd s v = loop-FairEnd 3 s (rank_le s.0.step) v
