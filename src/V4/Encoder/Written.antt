-- ===== src/V4/Encoder/Written.antt =====
-- `seal_record` and `finish` of codec/v4/mod.rs on a record that holds a payload.
use snell_rs.Prelude.{
  ℕ, ◌+◌, ◌≤◌, ◌<◌, ◌≡◌, refl, sym, ap, ◌∙◌, [], ◌++◌, length, replicate, false, arith,
  length-append, append_assoc, append-nil, ◌==◌,
}
use snell_rs.Kernel.Error.{ok}
use snell_rs.Kernel.Consts.{header_cipher_len, header_plain_len, tag_len, max_packet_size}
use snell_rs.Kernel.Slice.{Bytes}
use snell_rs.Nonce.{increment}
use snell_rs.Header.{plain_header}
use snell_rs.Chunk.{commit_write}
use snell_rs.Buffer.{Buffer, write_range, push, set_record_end}
use snell_rs.Buffer.Ranges.{write_range_lem, set_record_end-push}
use snell_rs.Record.{ready, after_seal}
use snell_rs.Record.Reservation.{Slot}
use snell_rs.Crypto.Aead.{Ring, IsRing, IsBytes}
use snell_rs.Crypto.Aead.Block.{Block, seal-Block}
use snell_rs.V4.Padding.{swap_even_indices}
use snell_rs.V4.Swap.{length-swap_even_indices}
use snell_rs.V4.Wire.{Wire}
use snell_rs.V4.Encoder.{V4Encoder, V4Record, PaddingFill, header_list, seal_record, settle, finish}
use snell_rs.V4.Encoder.Sealed.{IsFill, seal_header_lem, seal_body_lem}

-- What `reserve` and the writes into the record leave: a place for the salt and what was stored
-- before in `front`, room for the header and its tag, for the padding, and the payload.
pub record Laid (slot : Slot) (layout : V4Record) (buf : Buffer) (front payload : Bytes)
    : Type 0 where
  pub plain_room : Bytes
  pub tag_room : Bytes
  pub padding : Bytes
  pub stored : buf.storage ≡ front ++ ((plain_room ++ tag_room) ++ (padding ++ payload))
  pub plain_size : length plain_room ≡ header_plain_len
  pub tag_size : length tag_room ≡ tag_len
  pub padding_size : length padding ≡ layout.padding_len
  pub header_at : layout.header_start ≡ length front
  pub payload_at : slot.payload_start ≡ length front + header_cipher_len + layout.padding_len
  pub room : length buf.storage + tag_len ≤ buf.capacity
  pub small : layout.padding_len ≤ max_packet_size × length payload ≤ max_packet_size

pub regroup :
    (front a b c tail : Bytes)
    → (front ++ (a ++ (b ++ c))) ++ tail ≡ front ++ (a ++ (b ++ (c ++ tail)))
regroup front a b c tail = simp append_assoc

plain_header-IsBytes : (padding payload : ℕ) → IsBytes (header_list (plain_header padding payload))
unfolding plain_header
plain_header-IsBytes padding payload = omega arith

second_cut : (a b c : Bytes) → a ++ (b ++ c) ≡ (a ++ b) ++ (c ++ [])
second_cut a b c = simp (append_assoc, append-nil)

spread_size :
    (covered body padding payload room : Bytes)
    → IsBytes covered
    → IsBytes body
    → length covered ≡ length padding
    → length body ≡ length payload + tag_len
    → length room ≡ tag_len
    → length ((swap_even_indices covered body).0 ++ (swap_even_indices covered body).1)
      ≡ length (padding ++ (payload ++ room))
spread_size covered body padding payload room h k e f g =
    let n = length-swap_even_indices covered body h k in
    omega (
      arith,
      n,
      length-append (swap_even_indices covered body).0 (swap_even_indices covered body).1,
      length-append padding (payload ++ room),
      length-append payload room,
    )

stored_size :
    {slot : Slot} {layout : V4Record} {buf : Buffer} {front payload : Bytes}
    → Laid slot layout buf front payload
    → length buf.storage ≡ slot.payload_start + length payload
stored_size {slot} {layout} {buf} {front} {payload} l =
    ap length l.stored
    ∙ omega (
      arith,
      length-append front ((l.plain_room ++ l.tag_room) ++ (l.padding ++ payload)),
      length-append (l.plain_room ++ l.tag_room) (l.padding ++ payload),
      length-append l.plain_room l.tag_room,
      length-append l.padding payload,
    )

module _ {E : Type 0} (ring : Ring) (fill : PaddingFill E) where
  -- A record is sealed behind `front`, by two steps of the nonce.
  pub record Sealed (enc : V4Encoder E) (buf : Buffer) (slot : Slot) (layout : V4Record)
      (front payload : Bytes) : Type 0 where
    pub wire : Bytes
    pub entropy : E
    pub sealed : seal_record ring fill slot layout (length payload) (enc, buf) ≡ (
      ok tt,
      (
        record enc { nonce = increment (increment enc.nonce); entropy = entropy },
        record buf { storage = front ++ wire },
      ),
    )
    pub written : Wire ring enc.aead enc.nonce payload wire
    pub padded : written.padding_len ≡ layout.padding_len

module _ {E : Type 0} (ring : Ring) (fill : PaddingFill E) (r : IsRing ring)
    (filling : IsFill fill) where
  -- With the two sealed blocks at hand.
  seal_record_blocks :
      (enc : V4Encoder E) (buf : Buffer) (slot : Slot) (layout : V4Record)
      (front payload hb body : Bytes)
      → Laid slot layout buf front payload
      → 0 < length payload
      → Block ring enc.aead enc.nonce
          (header_list (plain_header layout.padding_len (length payload)))
          hb
      → Block ring enc.aead (increment enc.nonce) payload body
      → Sealed ring fill enc buf slot layout front payload
  unfolding seal_record
  seal_record_blocks enc buf slot layout front payload hb body l some_payload hblock bblock =
      let zeros : Bytes = replicate tag_len 0 in
      let plain = plain_header layout.padding_len (length payload) in
      let rest = l.padding ++ (payload ++ zeros) in
      let buf1 = push buf zeros in
      let buf2 = write_range buf1 layout.header_start hb in
      let enc1 = record enc { nonce = increment enc.nonce } in
      let stored1 : buf1.storage ≡ front ++ ((l.plain_room ++ l.tag_room) ++ rest) =
        ap (λ t. t ++ zeros) l.stored
        ∙ regroup front (l.plain_room ++ l.tag_room) l.padding payload zeros in
      let hsize : length hb ≡ length (l.plain_room ++ l.tag_room) =
        omega
          (arith, hblock.size, length-append l.plain_room l.tag_room, l.plain_size, l.tag_size) in
      let stored2 : buf2.storage ≡ (front ++ hb) ++ (rest ++ []) =
        write_range_lem buf1 front (l.plain_room ++ l.tag_room) rest hb layout.header_start stored1
          l.header_at hsize
        ∙ second_cut front hb rest in
      let start : ℕ = layout.header_start + header_cipher_len in
      let end : ℕ = slot.payload_start + length payload + tag_len in
      let at : start ≡ length (front ++ hb) =
        omega (arith, length-append front hb, hblock.size, l.header_at) in
      let upto : end ≡ start + (length l.padding + (length payload + tag_len)) =
        omega (arith, l.header_at, l.payload_at, l.padding_size) in
      let (covered, entropy, sealed, sized, bytes) =
        seal_body_lem ring fill filling enc1 buf2 (front ++ hb) l.padding payload zeros body start
          end layout.padding_len l.padding_size stored2 at upto refl bblock in
      let spread = (swap_even_indices covered body).0 ++ (swap_even_indices covered body).1 in
      let stored3 : (write_range buf2 start spread).storage ≡ front ++ (hb ++ spread) =
        write_range_lem buf2 (front ++ hb) rest [] spread start stored2 at (
          spread_size covered body l.padding payload zeros bytes bblock.bytes
            (sized ∙ sym l.padding_size) bblock.size refl)
        ∙ sym (second_cut front hb spread) in
      let ending : set_record_end buf end ≡ ok buf1 =
        set_record_end-push buf end tag_len (omega (arith, stored_size l)) (omega arith)
          (omega (arith, l.room, stored_size l)) in
      let headed =
        seal_header_lem ring fill filling enc buf1 front l.plain_room l.tag_room rest hb
          layout.header_start plain stored1 l.header_at l.plain_size l.tag_size hblock in
      let pos : (length payload == 0) ≡ false = ground arith in
      record {
        wire = hb ++ spread;
        entropy = entropy;
        sealed =
            rw (pos, ending, headed)
              (sealed
                ∙ ap
                    (λ (st : Bytes). (
                      ok tt,
                      (
                        record enc { nonce = increment (increment enc.nonce); entropy = entropy },
                        record buf { storage = st },
                      ),
                    ))
                    stored3);
        written = record {
          header = hb;
          padding_len = layout.padding_len;
          padding = covered;
          body = body;
          header_block = hblock;
          body_block = bblock;
          padding_bytes = bytes;
          padding_size = sized;
          small = l.small;
          spread = refl;
        };
        padded = refl;
      }

  pub seal_record_lem :
      (enc : V4Encoder E) (buf : Buffer) (slot : Slot) (layout : V4Record) (front payload : Bytes)
      → Laid slot layout buf front payload
      → 0 < length payload
      → IsBytes payload
      → Sealed ring fill enc buf slot layout front payload
  seal_record_lem enc buf slot layout front payload l some_payload payload_bytes =
      let plain = plain_header layout.padding_len (length payload) in
      let (hb, hblock) =
        seal-Block ring enc.aead enc.nonce (header_list plain) r
          (plain_header-IsBytes layout.padding_len (length payload)) (omega arith) in
      let (body, bblock) =
        seal-Block ring enc.aead (increment enc.nonce) payload r payload_bytes
          (omega (arith, l.small)) in
      seal_record_blocks enc buf slot layout front payload hb body l some_payload hblock bblock

module _ {E : Type 0} (ring : Ring) (fill : PaddingFill E) where
  pub finish_lem :
      (enc : V4Encoder E) (buf : Buffer) (slot : Slot) (layout : V4Record) (front payload : Bytes)
      (s : Sealed ring fill enc buf slot layout front payload)
      → finish ring fill enc buf slot layout (length payload) ≡ (
        ok 0,
        (
          record enc {
            nonce = increment (increment enc.nonce);
            entropy = s.entropy;
            state = ready;
            chunk = commit_write enc.chunk layout.reserved_at layout.budget;
          },
          record buf { storage = front ++ s.wire },
        ),
      )
  unfolding finish settle after_seal
  finish_lem enc buf slot layout front payload s = rw (finish, s.sealed)
