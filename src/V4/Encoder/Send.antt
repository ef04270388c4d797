-- ===== src/V4/Encoder/Send.antt =====
-- A record of codec/v4/mod.rs from its reservation to its seal.
use snell_rs.Prelude.{
  ℕ, ◌+◌, ◌≤◌, ◌<◌, ◌≡◌, refl, sym, ap, ◌∙◌, ◌++◌, true, length, drop, replicate, arith,
  length-append, append_assoc, ◌==◌, length-replicate, drop-append_le, le→leb, min,
}
use mathlib.Core.Path.{subst}
use snell_rs.Kernel.Error.{Result, ok}
use snell_rs.Kernel.Consts.{header_cipher_len, header_plain_len, tag_len, max_packet_size, salt_len}
use snell_rs.Kernel.Slice.{Bytes}
use snell_rs.Nonce.{increment}
use snell_rs.Chunk.{record_budget, commit_write, salt_sent, usize_max}
use snell_rs.Chunk.Growth.{record_budget_le, commit_write-IsValid}
use snell_rs.Chunk.Growth
use snell_rs.Buffer.{Buffer, filled, push, commit}
use snell_rs.Buffer.Invariant.{IsValid}
use snell_rs.Record.{ready, reserving, RecordSize, stream, datagram}
use snell_rs.Record.Reservation.{
  Slot, Reservation, hold, seal_init, total, unwritten_start, drop_reservation,
}
use snell_rs.Record.Reservation
use snell_rs.Crypto.Aead.{Ring, IsRing, IsBytes}
use snell_rs.V4.Wire.{Wire, length-wire}
use snell_rs.V4.Encoder.{
  V4Encoder, V4Record, PaddingFill, salt_room, padding_for, reserve, limit_of, v4_seal,
}
use snell_rs.V4.Encoder.Sealed.{IsFill}
use snell_rs.V4.Encoder.Reserved.{salt_of, length-salt_of, Placed, reserve-Made}
use snell_rs.V4.Encoder.Written.{Laid, Sealed, regroup, seal_record_lem, finish_lem}

-- An encoder that can seal the next record.
pub record IsEncoder {E : Type 0} (enc : V4Encoder E) : Type 0 where
  pub salt_size : length enc.salt ≡ salt_len
  pub padding_small : enc.chunk.initial_padding_len ≤ max_packet_size
  pub window : Growth.IsValid enc.chunk

pub limit_small :
    {E : Type 0} (enc : V4Encoder E) (size : RecordSize) (now : ℕ)
    → IsEncoder enc
    → limit_of size (record_budget enc.chunk now) ≤ max_packet_size
limit_small enc (stream n) now v = record_budget_le enc.chunk now v.window
limit_small enc (datagram n) now v = omega arith

padding_for_small :
    {E : Type 0} (enc : V4Encoder E) (n : ℕ) → IsEncoder enc → padding_for enc n ≤ max_packet_size
padding_for_small enc n v = ground (arith, v.padding_small)

commit_lem :
    (b : Buffer) (bytes : Bytes)
    → length b.storage + length bytes ≤ min b.capacity b.max
    → commit b bytes ≡ ok (push b bytes)
unfolding commit
commit_lem b bytes h = ground arith

module _ {E : Type 0} (enc : V4Encoder E) where
  Placed-Laid :
      (buf new : Buffer) (prefix bytes stem : Bytes) (now budget max_payload : ℕ)
      → IsEncoder enc
      → Placed enc buf prefix now budget max_payload stem new
      → length prefix + length bytes ≤ max_payload
      → max_payload ≤ max_packet_size
      → Laid
          (record {
            record_start = length stem;
            payload_start =
                length stem + (salt_room enc + (header_cipher_len + padding_for enc max_payload));
            prefix_len = length prefix;
            max_payload = max_payload;
          })
          (record {
            header_start = length stem + salt_room enc;
            padding_len = padding_for enc max_payload;
            budget = budget;
            reserved_at = now;
          })
          (push new bytes)
          (stem ++ salt_of enc)
          (prefix ++ bytes)
  Placed-Laid buf new prefix bytes stem now budget max_payload v p fits small =
      let pad = padding_for enc max_payload in
      let front : length (stem ++ salt_of enc) ≡ length stem + salt_room enc =
        omega (arith, length-append stem (salt_of enc), length-salt_of enc v.salt_size) in
      record {
        plain_room = replicate header_plain_len 0;
        tag_room = replicate tag_len 0;
        padding = replicate pad 0;
        stored =
            ap (λ t. t ++ bytes) p.stored
            ∙ regroup (stem ++ salt_of enc) (replicate header_cipher_len 0) (replicate pad 0) prefix
                bytes;
        plain_size = refl;
        tag_size = refl;
        padding_size = length-replicate pad 0;
        header_at = omega (arith, front);
        payload_at = omega (arith, front);
        room = omega (arith, p.room, length-append new.storage bytes);
        small = (padding_for_small enc max_payload v, omega (arith, length-append prefix bytes));
      }

-- What a record that was reserved, written and sealed leaves.
pub record Sent {E : Type 0} (ring : Ring) (enc : V4Encoder E) (buf : Buffer) (payload : Bytes)
    (out : Result ℕ × (V4Encoder E × Buffer)) : Type 0 where
  pub next : V4Encoder E
  pub after : Buffer
  pub wire : Bytes
  pub status : out ≡ (ok 0, (next, after))
  pub is_wire : Wire ring enc.aead enc.nonce payload wire
  pub live : filled after ≡ filled buf ++ (salt_of enc ++ wire)
  pub same_key : next.aead ≡ enc.aead
  pub next_nonce : next.nonce ≡ increment (increment enc.nonce)
  pub salt_is_sent : salt_sent next.chunk ≡ true
  pub is_ready : next.state ≡ ready
  pub good : IsEncoder next
  pub valid : IsValid after

module _ {E : Type 0} (ring : Ring) (fill : PaddingFill E) (r : IsRing ring)
    (filling : IsFill fill) where
  seal_init_lem :
      (enc : V4Encoder E) (new : Buffer) (slot : Slot) (layout : V4Record)
      (front payload bytes : Bytes)
      (s : Sealed ring fill
        (record enc { state = reserving })
        (push new bytes)
        slot
        layout
        front
        payload)
      → length payload ≡ slot.prefix_len + length bytes
      → length payload ≤ slot.max_payload
      → slot.max_payload ≤ max_packet_size
      → length new.storage ≡ slot.payload_start + slot.prefix_len
      → length new.storage + length bytes ≤ min new.capacity new.max
      → seal_init ⦃e = v4_seal ring fill⦄ (hold ⦃e = v4_seal ring fill⦄ enc new slot layout) bytes
        ≡ (
          ok 0,
          (
            record enc {
              nonce = increment (increment enc.nonce);
              entropy = s.entropy;
              state = ready;
              chunk = commit_write enc.chunk layout.reserved_at layout.budget;
            },
            record new { storage = front ++ s.wire },
          ),
        )
  unfolding seal_init total unwritten_start drop_reservation hold Reservation.finish
  seal_init_lem enc new slot layout front payload bytes s n fits small at room =
      let written : slot.prefix_len + length bytes ≡ length payload = sym n in
      let ended : (length new.storage == slot.payload_start + slot.prefix_len) ≡ true =
        ground arith in
      let counted : total ⦃e = v4_seal ring fill⦄ (hold ⦃e = v4_seal ring fill⦄ enc new slot layout)
            (length bytes)
          ≡ ok (length payload) =
        rw (
          written,
          le→leb (length payload) usize_max (omega arith),
          le→leb (length payload) slot.max_payload fits,
        ) in
      rw
        (
          seal_init,
          counted,
          ended,
          commit_lem new bytes room,
          finish_lem ring fill (record enc { state = reserving }) (push new bytes) slot layout front
              payload s,
        )
        refl

  -- The buffer behind the seal.
  sent_live :
      (buf new : Buffer) (stem salt wire : Bytes)
      → new.start ≤ length stem
      → filled (record new { storage = stem }) ≡ filled buf
      → filled (record new { storage = (stem ++ salt) ++ wire }) ≡ filled buf ++ (salt ++ wire)
  unfolding filled
  sent_live buf new stem salt wire h e =
      ap (drop new.start) (append_assoc stem salt wire)
      ∙ drop-append_le new.start stem (salt ++ wire) h
      ∙ ap (λ t. t ++ (salt ++ wire)) e

  made-Sent :
      (enc : V4Encoder E) (buf new : Buffer) (prefix bytes stem : Bytes) (size : RecordSize)
      (now max_payload : ℕ)
      → IsEncoder enc
      → (p : Placed enc buf prefix now (record_budget enc.chunk now) max_payload stem new)
      → length prefix + length bytes ≤ max_payload
      → max_payload ≤ max_packet_size
      → 0 < length (prefix ++ bytes)
      → IsBytes (prefix ++ bytes)
      → Sent ring enc buf (prefix ++ bytes) (
          seal_init ⦃e = v4_seal ring fill⦄
            (hold ⦃e = v4_seal ring fill⦄ enc new
              (record {
                record_start = length stem;
                payload_start =
                    length stem
                    + (salt_room enc + (header_cipher_len + padding_for enc max_payload));
                prefix_len = length prefix;
                max_payload = max_payload;
              })
              (record {
                header_start = length stem + salt_room enc;
                padding_len = padding_for enc max_payload;
                budget = record_budget enc.chunk now;
                reserved_at = now;
              }))
            bytes)
  made-Sent enc buf new prefix bytes stem size now max_payload v p fits small pos payload_bytes =
      let budget = record_budget enc.chunk now in
      let pad = padding_for enc max_payload in
      let slot : Slot = record {
        record_start = length stem;
        payload_start = length stem + (salt_room enc + (header_cipher_len + pad));
        prefix_len = length prefix;
        max_payload = max_payload;
      } in
      let layout : V4Record = record {
        header_start = length stem + salt_room enc;
        padding_len = pad;
        budget = budget;
        reserved_at = now;
      } in
      let held = record enc { state = reserving } in
      let front = stem ++ salt_of enc in
      let laid = Placed-Laid enc buf new prefix bytes stem now budget max_payload v p fits small in
      let s =
        seal_record_lem ring fill r filling held (push new bytes) slot layout front
          (prefix ++ bytes) laid pos payload_bytes in
      let stored : length new.storage ≡ slot.payload_start + slot.prefix_len =
        ap length p.stored
        ∙ omega (
          arith,
          length-append front (replicate header_cipher_len 0 ++ (replicate pad 0 ++ prefix)),
          length-append (replicate {A = ℕ} pad 0) prefix,
          length-replicate {A = ℕ} pad 0,
          length-append stem (salt_of enc),
          length-salt_of enc v.salt_size,
        ) in
      let done =
        seal_init_lem enc new slot layout front (prefix ++ bytes) bytes s
          (length-append prefix bytes) (omega (arith, length-append prefix bytes)) small stored
          (omega (arith, p.room)) in
      let wire_size = length-wire ring enc.aead enc.nonce (prefix ++ bytes) s.wire s.written in
      let size_after : length (front ++ s.wire) ≡ length new.storage + (length bytes + tag_len) =
        omega (
          arith,
          wire_size,
          stored,
          s.padded,
          length-append front s.wire,
          length-append stem (salt_of enc),
          length-salt_of enc v.salt_size,
          length-append prefix bytes,
        ) in
      let started : new.start ≤ length (front ++ s.wire) =
        omega (arith, p.inside, length-append front s.wire, length-append stem (salt_of enc)) in
      record {
        next = record enc {
          nonce = increment (increment enc.nonce);
          entropy = s.entropy;
          state = ready;
          chunk = commit_write enc.chunk now budget;
        };
        after = record new { storage = front ++ s.wire };
        wire = s.wire;
        status = done;
        is_wire = s.written;
        live = sent_live buf new stem (salt_of enc) s.wire p.inside p.before;
        same_key = refl;
        next_nonce = refl;
        salt_is_sent = unfold commit_write in unfold salt_sent in refl;
        is_ready = refl;
        good = record {
          salt_size = v.salt_size;
          padding_small = unfold commit_write in v.padding_small;
          window = commit_write-IsValid enc.chunk now budget;
        };
        valid = record {
          live = started;
          allocated = omega (arith, p.room, size_after);
          limited = omega (arith, p.room, size_after);
        };
      }

  -- A payload that is reserved for and fits what was granted is sealed.
  pub send_lem :
      (enc : V4Encoder E) (buf : Buffer) (prefix bytes : Bytes) (size : RecordSize) (now : ℕ)
      (res : Reservation (V4Encoder E) V4Record)
      → IsValid buf
      → IsEncoder enc
      → reserve ⦃s = v4_seal ring fill⦄ enc buf prefix size now ≡ ok res
      → length prefix + length bytes ≤ res.slot.max_payload
      → 0 < length (prefix ++ bytes)
      → IsBytes (prefix ++ bytes)
      → Sent ring enc buf (prefix ++ bytes) (seal_init ⦃e = v4_seal ring fill⦄ res bytes)
  unfolding hold
  send_lem enc buf prefix bytes size now res valid v h fits pos payload_bytes =
      let m =
        reserve-Made ⦃seal = v4_seal ring fill⦄ enc buf prefix size now res valid v.salt_size
          (limit_small enc size now v) h in
      let granted : res.slot.max_payload ≡ m.max_payload = ap (λ q. q.slot.max_payload) m.made in
      subst (λ q. Sent ring enc buf (prefix ++ bytes) (seal_init ⦃e = v4_seal ring fill⦄ q bytes))
        (sym m.made)
        (made-Sent enc buf m.new prefix bytes m.stem size now m.max_payload v m.placed
          (omega (arith, granted)) (omega (arith, m.limited, limit_small enc size now v)) pos
          payload_bytes)
