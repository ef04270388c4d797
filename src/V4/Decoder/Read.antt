-- ===== src/V4/Decoder/Read.antt =====
-- `decode` of codec/v4/mod.rs on a sealed record.
use snell_rs.Prelude.{
  ℕ, suc, ◌+◌, ◌-◌, ◌≤◌, ◌<◌, ◌≡◌, refl, sym, ap, ◌∙◌, ◌++◌, Option, some, Bool, true, false,
  length, arith, length-append, append_assoc, take-append_length, drop-append_length, le→leb,
}
use snell_rs.Kernel.Error.{Result, ok}
use snell_rs.Kernel.Consts.{header_cipher_len, tag_len, salt_len}
use snell_rs.Kernel.Slice.{Bytes}
use snell_rs.Nonce.{increment}
use snell_rs.Nonce
use snell_rs.Buffer.{Buffer, filled, len}
use snell_rs.V4.Swap.{length-swap_even_indices}
use snell_rs.Buffer.Invariant.{IsValid, length-filled}
use snell_rs.Buffer.Ranges.{filled_lem}
use snell_rs.Record.{DecodeStatus, DecodedRecord, decoded, plaintext}
use snell_rs.Crypto.Aead.{Ring, derive}
use snell_rs.V4.Padding.{swap_even_indices}
use snell_rs.V4.Wire.{Wire, length-wire}
use snell_rs.V4.Decoder.{
  V4Decoder, header, body, header_offset, again, State, loop, go_on, round_at, decode, new,
  read_salt, unless_need, ensure_aead, kdf_salt,
}
use snell_rs.V4.Decoder.Steps.{
  get_to-append, pending_need-none, read_header_lem, read_body_lem, body_record,
}

-- Between two records of a session, at a key and a nonce.
abbrev pub between : (psk key nonce : Bytes) → Bool → ℕ → V4Decoder
between psk key nonce include_salt pending = record {
  psk = psk;
  aead = some key;
  nonce = nonce;
  include_salt = include_salt;
  step = header;
  pending = pending;
}

-- The outcome of a `decode` that reads `payload` off the front of what is behind `before`.
pub record Reads (out : Option (Result DecodeStatus × State)) (old : Buffer)
    (psk key nonce before wire more payload : Bytes) (pending : ℕ) : Type 0 where
  pub decoded_record : DecodedRecord
  pub buf : Buffer
  pub opened : Bytes
  pub status :
      out
      ≡ some (
        ok (decoded decoded_record),
        (between psk key (increment (increment nonce)) false (length before + length wire), buf),
      )
  pub is_payload : plaintext decoded_record (filled buf) ≡ ok payload
  pub consumed : decoded_record.consumed ≡ length before + length wire - pending
  pub live : filled buf ≡ before ++ (opened ++ more)
  pub opened_size : length opened ≡ length wire
  pub limit : buf.max ≡ old.max
  pub keeps : IsValid old → IsValid buf

plaintext_lem :
    (r : DecodedRecord) (xs front payload back : Bytes)
    → xs ≡ front ++ (payload ++ back)
    → r.plaintext ≡ (length front, length front + length payload)
    → plaintext r xs ≡ ok payload
unfolding plaintext
plaintext_lem r xs front payload back e p =
    let size : length xs ≡ length front + (length payload + length back) =
      ap length e
      ∙ omega (arith, length-append front (payload ++ back), length-append payload back) in
    let n : length front + length payload - length front ≡ length payload = omega arith in
    rw (
      p,
      le→leb (length front) (length front + length payload) (omega arith),
      le→leb (length front + length payload) (length xs) (omega (arith, size)),
      n,
      e,
      drop-append_length front (payload ++ back),
      take-append_length payload back,
    )

-- The parts of a record, regrouped around what the decoder reads next.
split_wire :
    (before h p c more : Bytes)
    → before ++ ((h ++ (p ++ c)) ++ more) ≡ before ++ (h ++ ((p ++ c) ++ more))
split_wire before h p c more = simp append_assoc

behind_header :
    (dead before h rest : Bytes) → dead ++ (before ++ (h ++ rest)) ≡ (dead ++ (before ++ h)) ++ rest
behind_header dead before h rest = simp append_assoc

open_split :
    (before h inside more : Bytes)
    → before ++ ((h ++ inside) ++ more) ≡ before ++ (h ++ (inside ++ more))
open_split before h inside more = simp append_assoc

around_payload :
    (before h p payload tag more : Bytes)
    → before ++ ((h ++ (p ++ (payload ++ tag))) ++ more)
      ≡ (before ++ (h ++ p)) ++ (payload ++ (tag ++ more))
around_payload before h p payload tag more = simp append_assoc

module _ (ring : Ring) where
  pub decode_wire :
      (psk key nonce dead before wire more payload : Bytes) (include_salt : Bool)
      (pending rounds : ℕ) (buf : Buffer) (w : Wire ring key nonce payload wire)
      → 0 < length payload
      → buf.storage ≡ dead ++ (before ++ (wire ++ more))
      → buf.start ≡ length dead
      → header_offset (between psk key nonce include_salt pending) ≡ length before
      → length before + length wire ≤ buf.max
      → Reads
          (loop ring (suc (suc rounds)) (between psk key nonce include_salt pending, buf))
          buf
          psk
          key
          nonce
          before
          wire
          more
          payload
          pending
  unfolding loop go_on round_at header_offset
  decode_wire psk key nonce dead before wire more payload include_salt pending rounds buf w pos e s
        o fits =
      let d = between psk key nonce include_salt pending in
      let swapped = swap_even_indices w.padding w.body in
      let spread = swapped.0 ++ swapped.1 in
      let n : ℕ = length payload in
      let wire_size : length wire ≡ header_cipher_len + (w.padding_len + (n + tag_len)) =
        length-wire ring key nonce payload wire w in
      let regrouped : before ++ (wire ++ more) ≡ before ++ (w.header ++ (spread ++ more)) =
        ap (λ t. before ++ (t ++ more)) w.spread
        ∙ split_wire before w.header swapped.0 swapped.1 more in
      let there = filled_lem buf dead (before ++ (wire ++ more)) e s in
      let live_size : len buf ≡ length before + (length wire + length more) =
        there.1 ∙ omega (arith, length-append before (wire ++ more), length-append wire more) in
      let first =
        read_header_lem ring d buf key before w.header (spread ++ more) w.padding_len n
          (there.0 ∙ regrouped) o refl (omega (arith, live_size, wire_size, o))
          (omega (arith, wire_size, o)) w.header_block w.small.0 w.small.1 pos in
      let d1 = record d {
        nonce = increment nonce;
        step =
            body (record { padding_len = w.padding_len; payload_len = n })
              (w.padding_len + (n + tag_len));
      } in
      let front = dead ++ (before ++ w.header) in
      let stored : buf.storage ≡ front ++ (spread ++ more) =
        e ∙ ap (λ t. dead ++ t) regrouped ∙ behind_header dead before w.header (spread ++ more) in
      let front_size : length front ≡ length dead + (length before + length w.header) =
        omega (arith, length-append dead (before ++ w.header), length-append before w.header) in
      let at : buf.start + (header_offset d1 + header_cipher_len) ≡ length front =
        omega (arith, front_size, o, w.header_block.size) in
      let second =
        read_body_lem ring d1 buf key front payload w.padding w.body more w.padding_len n stored at
          refl w.padding_size refl (omega (arith, wire_size, o)) w.padding_bytes w.body_block in
      let inside = w.padding ++ (payload ++ w.body_block.tag) in
      let buf' = record buf { storage = front ++ (inside ++ more) } in
      let same_size : length (front ++ (inside ++ more)) ≡ length buf.storage = omega (
        arith,
        ap length stored,
        length-append front (inside ++ more),
        length-append inside more,
        length-append w.padding (payload ++ w.body_block.tag),
        length-append payload w.body_block.tag,
        length-append front (spread ++ more),
        length-append spread more,
        length-append swapped.0 swapped.1,
        length-swap_even_indices w.padding w.body w.padding_bytes w.body_block.bytes,
        w.body_block.tag_size,
        w.body_block.size,
      ) in
      let end : header_offset d1 + header_cipher_len + (w.padding_len + (n + tag_len))
          ≡ length before + length wire =
        omega (arith, wire_size, o) in
      let got =
        body_record d1 (header_offset d1 + header_cipher_len + w.padding_len) n
          (header_offset d1 + header_cipher_len + (w.padding_len + (n + tag_len))) in
      let opened = w.header ++ inside in
      let from : header_offset d1 + header_cipher_len + w.padding_len
          ≡ length (before ++ (w.header ++ w.padding)) =
        omega (
          arith,
          o,
          w.header_block.size,
          w.padding_size,
          length-append before (w.header ++ w.padding),
          length-append w.header w.padding,
        ) in
      let live' : filled buf' ≡ before ++ (opened ++ more) =
        (filled_lem buf' dead (before ++ (opened ++ more))
          (sym (behind_header dead before w.header (inside ++ more))
            ∙ ap (λ t. dead ++ t) (sym (open_split before w.header inside more)))
          s).0 in
      record {
        decoded_record = got;
        buf = buf';
        opened = opened;
        status =
            rw (first, second)
              (ap
                (λ (t : ℕ).
                  some (
                    ok (decoded got),
                    (between psk key (increment (increment nonce)) false t, buf'),
                  ))
                end);
        is_payload =
            plaintext_lem got (filled buf') (before ++ (w.header ++ w.padding)) payload
              (w.body_block.tag ++ more)
              (live' ∙ around_payload before w.header w.padding payload w.body_block.tag more)
              (λ i. (from i, from i + n));
        consumed = ap (λ t. t - pending) end;
        live = live';
        opened_size = omega (
          arith,
          wire_size,
          w.header_block.size,
          w.padding_size,
          w.body_block.tag_size,
          length-append w.header inside,
          length-append w.padding (payload ++ w.body_block.tag),
          length-append payload w.body_block.tag,
        );
        limit = refl;
        keeps = λ v. record {
          live = omega (arith, v.live, same_size);
          allocated = omega (arith, v.allocated, same_size);
          limited = omega (arith, v.limited, same_size);
        };
      }

  -- The salt in front of the first record gives the key.
  read_salt_lem :
      (psk key salt_bytes rest : Bytes) (buf : Buffer)
      → filled buf ≡ salt_bytes ++ rest
      → length salt_bytes ≡ salt_len
      → salt_len ≤ buf.max
      → derive ring psk salt_bytes ≡ ok key
      → read_salt ring (new psk, buf) ≡ (ok again, (between psk key Nonce.new true 0, buf))
  unfolding read_salt unless_need ensure_aead kdf_salt new
  read_salt_lem psk key salt_bytes rest buf e n fits k =
      let size : len buf ≡ salt_len + length rest =
        sym (length-filled buf) ∙ ap length e ∙ omega (arith, length-append salt_bytes rest) in
      rw (
        pending_need-none 0 salt_len buf (omega arith) (omega arith) (omega (arith, size)),
        e,
        get_to-append salt_len salt_bytes rest n,
        k,
      )

  pub decode_first :
      (psk key dead salt_bytes wire more payload : Bytes) (buf : Buffer)
      (w : Wire ring key Nonce.new payload wire)
      → 0 < length payload
      → buf.storage ≡ dead ++ (salt_bytes ++ (wire ++ more))
      → buf.start ≡ length dead
      → length salt_bytes ≡ salt_len
      → salt_len + length wire ≤ buf.max
      → derive ring psk salt_bytes ≡ ok key
      → Reads (decode ring (new psk, buf)) buf psk key Nonce.new salt_bytes wire more payload 0
  unfolding decode loop go_on round_at new header_offset
  decode_first psk key dead salt_bytes wire more payload buf w pos e s n fits k =
      rw
        (read_salt_lem psk key salt_bytes (wire ++ more) buf
          (filled_lem buf dead (salt_bytes ++ (wire ++ more)) e s).0 n (omega arith) k)
        (decode_wire psk key Nonce.new dead salt_bytes wire more payload true 0 0 buf w pos e s
          (omega (arith, n)) (omega (arith, n)))
