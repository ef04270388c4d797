-- ===== src/V4/Session/RoundTrip.antt =====
-- What the encoder of codec/v4/mod.rs seals is what the decoder reads.
use snell_rs.Prelude.{
  ℕ, ◌+◌, ◌-◌, ◌≤◌, ◌<◌, ◌≡◌, refl, sym, ap, ◌∙◌, List, [], ◌∷◌, ◌++◌, some, false, length, take,
  drop, arith, length-append, append_assoc, append-nil, drop-append_length, take-append-drop,
  length-take_of_le, le→ltb_false,
}
use mathlib.Core.Path.{subst}
use snell_rs.Kernel.Error.{ok}
use snell_rs.Kernel.Consts.{salt_len}
use snell_rs.Kernel.Slice.{Bytes}
use snell_rs.Nonce.{increment}
use snell_rs.Nonce
use snell_rs.Chunk.{salt_sent}
use snell_rs.Buffer.{Buffer, filled, len}
use snell_rs.Buffer.Invariant.{IsValid, length-filled}
use snell_rs.Buffer.Stream.{consumed, consume_lem, filled-consumed, consumed-IsValid}
use snell_rs.Record.{DecodedRecord, pending_consume}
use snell_rs.Crypto.Aead.{Ring, IsRing, derive}
use snell_rs.V4.Wire.{Wire}
use snell_rs.V4.Encoder.{V4Encoder, PaddingFill}
use snell_rs.V4.Encoder.Sealed.{IsFill}
use snell_rs.V4.Encoder.Reserved.{salt_of}
use snell_rs.V4.Encoder.Send.{IsEncoder, send_lem}
use snell_rs.V4.Decoder.{V4Decoder, State, decode, consume, new, header_offset}
use snell_rs.V4.Decoder.Read.{between, Reads, decode_wire, decode_first}
use snell_rs.V4.Session.{Sends, stop, send, read_record, read_records}

-- The records of these payloads, one behind the other.
pub data Wires (ring : Ring) (key : Bytes) : Bytes → List Bytes → Bytes → Type 0 where
  none_left : {nonce stream : Bytes} → stream ≡ [] → Wires ring key nonce [] stream
  next :
      {nonce payload : Bytes} {payloads : List Bytes} {stream : Bytes} (wire rest : Bytes)
      → Wire ring key nonce payload wire
      → 0 < length payload
      → Wires ring key (increment (increment nonce)) payloads rest
      → stream ≡ wire ++ rest
      → Wires ring key nonce (payload ∷ payloads) stream

-- The salt goes out with the first record.
abbrev pub lead : Bytes → List Bytes → Bytes
lead salt [] = []
lead salt (_ ∷ _) = salt

lead_nil : (salt : Bytes) (payloads : List Bytes) → salt ≡ [] → lead salt payloads ≡ []
lead_nil salt [] e = refl
lead_nil salt (_ ∷ _) e = e

joined : (a b c d : Bytes) → (a ++ (b ++ c)) ++ d ≡ a ++ (b ++ (c ++ d))
joined a b c d = simp append_assoc

pub record Streamed {E : Type 0} (ring : Ring) (enc : V4Encoder E) (buf : Buffer)
    (payloads : List Bytes) (after : Buffer) : Type 0 where
  pub stream : Bytes
  pub wires : Wires ring enc.aead enc.nonce payloads stream
  pub live : filled after ≡ filled buf ++ (lead (salt_of enc) payloads ++ stream)

module _ {E : Type 0} (ring : Ring) (fill : PaddingFill E) (r : IsRing ring)
    (filling : IsFill fill) where
  Sends-Streamed :
      {enc : V4Encoder E} {buf : Buffer} {payloads : List Bytes} {last : V4Encoder E}
      {after : Buffer}
      → Sends ring fill enc buf payloads last after
      → IsValid buf
      → IsEncoder enc
      → Streamed ring enc buf payloads after
  Sends-Streamed {buf = buf} stop valid v = record {
    stream = [];
    wires = none_left refl;
    live = sym (append-nil (filled buf));
  }
  Sends-Streamed {enc} {buf} {after = after}
        (send {enc1 = enc1} {buf1 = buf1} {payloads = payloads} prefix bytes size now res h fits pos
          payload_bytes e rest)
        valid v =
      let s =
        send_lem ring fill r filling enc buf prefix bytes size now res valid v h fits pos
          payload_bytes in
      let same_enc : s.next ≡ enc1 = ap (λ o. o.1.0) (sym s.status ∙ e) in
      let same_buf : s.after ≡ buf1 = ap (λ o. o.1.1) (sym s.status ∙ e) in
      let later =
        Sends-Streamed rest (subst IsValid same_buf s.valid) (subst IsEncoder same_enc s.good) in
      let no_salt : salt_of enc1 ≡ [] = subst (λ q. salt_of q ≡ []) same_enc (rw s.salt_is_sent) in
      let key : enc1.aead ≡ enc.aead = ap (λ q. q.aead) (sym same_enc) ∙ s.same_key in
      let nonce : enc1.nonce ≡ increment (increment enc.nonce) =
        ap (λ q. q.nonce) (sym same_enc) ∙ s.next_nonce in
      let wires : Wires ring enc.aead (increment (increment enc.nonce)) payloads later.stream =
        subst (λ k. Wires ring k (increment (increment enc.nonce)) payloads later.stream) key
          (subst (λ q. Wires ring enc1.aead q payloads later.stream) nonce later.wires) in
      record {
        stream = s.wire ++ later.stream;
        wires = next s.wire later.stream s.is_wire pos wires refl;
        live =
            later.live
            ∙ ap (λ t. filled buf1 ++ (t ++ later.stream))
                (lead_nil (salt_of enc1) payloads no_salt)
            ∙ ap (λ t. filled t ++ later.stream) (sym same_buf)
            ∙ ap (λ t. t ++ later.stream) s.live
            ∙ joined (filled buf) (salt_of enc) s.wire later.stream;
      }

-- What is left when a record has been read and consumed.
pub record Left (ring : Ring) (s : State) (psk key nonce more payload : Bytes) (old : Buffer)
    : Type 0 where
  pub buf : Buffer
  pub status :
      read_record ring s
      ≡ some (payload, (between psk key (increment (increment nonce)) false 0, buf))
  pub live : filled buf ≡ more
  pub valid : IsValid buf
  pub limit : buf.max ≡ old.max

consume_record :
    (d : V4Decoder) (buf : Buffer) (r : DecodedRecord)
    → r.consumed ≡ d.pending
    → d.pending ≤ len buf
    → consume d buf r ≡ (ok tt, (record d { pending = 0 }, consumed buf d.pending))
unfolding consume pending_consume
consume_record d buf r e h =
    let zero_left : d.pending - d.pending ≡ 0 = omega arith in
    rw (
      e,
      le→ltb_false d.pending d.pending (omega arith),
      consume_lem buf d.pending,
      le→ltb_false (len buf) d.pending h,
      zero_left,
    )

consumed_max : (buf : Buffer) (n : ℕ) → (consumed buf n).max ≡ buf.max
consumed_max buf n = ground arith

module _ (ring : Ring) where
  Reads-Left :
      (s : State) (old : Buffer) (psk key nonce before wire more payload : Bytes)
      → IsValid old
      → Reads (decode ring s) old psk key nonce before wire more payload 0
      → Left ring s psk key nonce more payload old
  unfolding read_record
  Reads-Left s old psk key nonce before wire more payload v o =
      let n : ℕ = length before + length wire in
      let front : length (before ++ o.opened) ≡ n =
        omega (arith, length-append before o.opened, o.opened_size) in
      let live : filled o.buf ≡ (before ++ o.opened) ++ more =
        o.live ∙ sym (append_assoc before o.opened more) in
      let size : len o.buf ≡ n + length more =
        sym (length-filled o.buf)
        ∙ ap length live
        ∙ omega (arith, front, length-append (before ++ o.opened) more) in
      let eaten =
        consume_record (between psk key (increment (increment nonce)) false n) o.buf
          o.decoded_record (o.consumed ∙ omega arith) (omega (arith, size)) in
      record {
        buf = consumed o.buf n;
        status = rw (read_record, o.status, o.is_payload, eaten) (rw eaten);
        live =
            filled-consumed o.buf n
            ∙ ap (drop n) live
            ∙ rw (← front) (drop-append_length (before ++ o.opened) more);
        valid = consumed-IsValid o.buf n (o.keeps v) (omega (arith, size));
        limit = consumed_max o.buf n ∙ o.limit;
      }

  -- The storage of a buffer, in front of what is live and behind.
  abbrev dead : Buffer → Bytes
  dead b = take b.start b.storage

  storage_cut : (b : Buffer) (live : Bytes) → filled b ≡ live → b.storage ≡ dead b ++ live
  unfolding filled
  storage_cut b live e = sym (take-append-drop b.start b.storage) ∙ ap (λ t. dead b ++ t) e

  dead_size : (b : Buffer) → IsValid b → b.start ≡ length (dead b)
  dead_size b v = sym (length-take_of_le b.start b.storage v.live)

  wire_fits :
      (buf : Buffer) (front back : Bytes)
      → IsValid buf
      → filled buf ≡ front ++ back
      → length front ≤ buf.max
  unfolding len
  wire_fits buf front back v h =
      omega (arith, v.live, v.limited, ap length h, length-filled buf, length-append front back)

  decode-between :
      (psk key nonce wire rest payload : Bytes) (buf : Buffer)
      → Wire ring key nonce payload wire
      → 0 < length payload
      → IsValid buf
      → filled buf ≡ wire ++ rest
      → Reads
          (decode ring (between psk key nonce false 0, buf))
          buf
          psk
          key
          nonce
          []
          wire
          rest
          payload
          0
  unfolding decode header_offset
  decode-between psk key nonce wire rest payload buf w pos v h =
      decode_wire ring psk key nonce (dead buf) [] wire rest payload false 0 1 buf w pos
        (storage_cut buf (wire ++ rest) h) (dead_size buf v) refl
        (omega (arith, wire_fits buf wire rest v h))

  read_wires :
      (psk key nonce stream : Bytes) (payloads : List Bytes) (buf : Buffer)
      → Wires ring key nonce payloads stream
      → IsValid buf
      → filled buf ≡ stream
      → (s : State) × (read_records ring (length payloads) (between psk key nonce false 0, buf)
          ≡ some (payloads, s))
        × (filled s.1 ≡ [])
  unfolding read_records
  read_wires psk key nonce stream [] buf (none_left e) v h =
      ((between psk key nonce false 0, buf), refl, h ∙ e)
  read_wires psk key nonce stream (payload ∷ payloads) buf (next wire rest w pos later e) v h =
      let live : filled buf ≡ wire ++ rest = h ∙ e in
      let left =
        Reads-Left (between psk key nonce false 0, buf) buf psk key nonce [] wire rest payload v
          (decode-between psk key nonce wire rest payload buf w pos v live) in
      let (s, read, empty) =
        read_wires psk key (increment (increment nonce)) rest payloads left.buf later left.valid
          left.live in
      (s, rw (read_records, left.status, read), empty)

module _ (ring : Ring) where
  first_record :
      (psk key salt_bytes payload : Bytes) (payloads : List Bytes) (stream : Bytes) (buf : Buffer)
      → Wires ring key Nonce.new (payload ∷ payloads) stream
      → length salt_bytes ≡ salt_len
      → derive ring psk salt_bytes ≡ ok key
      → IsValid buf
      → filled buf ≡ salt_bytes ++ stream
      → (s : State) × (read_records ring (length (payload ∷ payloads)) (new psk, buf)
          ≡ some (payload ∷ payloads, s))
        × (filled s.1 ≡ [])
  unfolding read_records
  first_record psk key salt_bytes payload payloads stream buf (next wire rest w pos later e) n k v
        h =
      let live : filled buf ≡ salt_bytes ++ (wire ++ rest) = h ∙ ap (λ t. salt_bytes ++ t) e in
      let fits =
        wire_fits ring buf (salt_bytes ++ wire) rest v
          (live ∙ sym (append_assoc salt_bytes wire rest)) in
      let left =
        Reads-Left ring (new psk, buf) buf psk key Nonce.new salt_bytes wire rest payload v
          (decode_first ring psk key (dead ring buf) salt_bytes wire rest payload buf w pos
            (storage_cut ring buf (salt_bytes ++ (wire ++ rest)) live) (dead_size ring buf v) n
            (omega (arith, fits, n, length-append salt_bytes wire)) k) in
      let (s, read, empty) =
        read_wires ring psk key (increment (increment Nonce.new)) rest payloads left.buf later
          left.valid left.live in
      (s, rw (read_records, left.status, read), empty)

-- What an encoder that has sent nothing yet seals into an empty buffer, a decoder with the same
-- secret reads.
module _ {E : Type 0} (ring : Ring) (fill : PaddingFill E) where
  -- Whatever payloads of bytes `reserve` and `seal_init` of a v4 encoder that has sent nothing
  -- put, each in a record of its own and none of them empty, into a valid buffer with nothing
  -- live, a new decoder with the same secret reads back in order from a valid buffer with those
  -- bytes, and nothing is left. The encoder has a salt of 16 bytes, the key derived from it, a
  -- valid window and an initial padding within the largest packet. The cipher opens what it sealed
  -- and keeps lengths and bytes, and the padding fill succeeds and keeps the length.
  pub read_records-Sends :
      (psk : Bytes) (enc last : V4Encoder E) (out after buf : Buffer) (payload : Bytes)
      (payloads : List Bytes)
      → IsRing ring
      → IsFill fill
      → IsEncoder enc
      → enc.nonce ≡ Nonce.new
      → salt_sent enc.chunk ≡ false
      → derive ring psk enc.salt ≡ ok enc.aead
      → IsValid out
      → filled out ≡ []
      → Sends ring fill enc out (payload ∷ payloads) last after
      → IsValid buf
      → filled buf ≡ filled after
      → (s : State) × (read_records ring (length (payload ∷ payloads)) (new psk, buf)
          ≡ some (payload ∷ payloads, s))
        × (filled s.1 ≡ [])
  unfolding read_records
  read_records-Sends psk enc last out after buf payload payloads r filling good fresh unsent key
        valid empty sends v arrived =
      let t = Sends-Streamed ring fill r filling sends valid good in
      first_record ring psk enc.aead enc.salt payload payloads t.stream buf
        (subst (λ n. Wires ring enc.aead n (payload ∷ payloads) t.stream) fresh t.wires)
        good.salt_size key v
        (arrived ∙ t.live ∙ ap (λ q. q ++ (salt_of enc ++ t.stream)) empty ∙ rw unsent)
