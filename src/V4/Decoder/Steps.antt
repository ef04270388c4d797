-- ===== src/V4/Decoder/Steps.antt =====
-- The rounds of `decode` of codec/v4/mod.rs on a record that was sealed.
use snell_rs.Prelude.{
  ℕ, ◌+◌, ◌-◌, ◌≤◌, ◌<◌, ◌≡◌, refl, ap, ◌∙◌, ◌++◌, none, some, false, length, arith, length-append,
  take-append_length, drop-append_length, le→leb, le→ltb_false,
}
use snell_rs.Kernel.Error.{ok, attempt-ok_or, Error}
use snell_rs.Kernel.Consts.{header_cipher_len, tag_len, max_packet_size}
use snell_rs.Kernel.Slice.{Bytes, get_to, index_from, split_at_mut-append}
use snell_rs.Nonce.{increment}
use snell_rs.Header.{HeaderBytes, plain_header, body_len_v4}
use snell_rs.Header.Laws.{parse_v4-plain_header}
use snell_rs.Buffer.{Buffer, filled, len, write_range}
use snell_rs.Buffer.Ranges.{range_lem, write_range_lem}
use snell_rs.Record.{pending_need, DecodedRecord, decoded, data_record, data_at, emit}
use snell_rs.Crypto.Aead.{Ring, IsBytes}
use snell_rs.Crypto.Aead.Block.{Block}
use snell_rs.V4.Padding.{swap_even_indices}
use snell_rs.V4.Swap.{swap_even_indices-twice, length-swap_even_indices}
use snell_rs.V4.Encoder.{header_list}
use snell_rs.V4.Decoder.{
  V4Decoder, header, body, header_offset, opened_header, open_header, open_body, unless_need, again,
  returned, State, accept_header, read_header, read_body,
}

pub pending_need-none :
    (pending minimum : ℕ) (buf : Buffer)
    → pending ≤ minimum
    → minimum - pending ≤ buf.max
    → minimum ≤ len buf
    → pending_need pending buf minimum ≡ ok none
unfolding pending_need
pending_need-none pending minimum buf h k l = ground arith

opened_header-append : (h : HeaderBytes) (tag : Bytes) → opened_header (header_list h ++ tag) ≡ ok h
unfolding opened_header
opened_header-append h tag = refl

index_from-append : (n : ℕ) (xs ys : Bytes) → n ≡ length xs → index_from (xs ++ ys) n ≡ ok ys
unfolding index_from
index_from-append n xs ys e = rw (
  e,
  le→leb (length xs) (length (xs ++ ys)) (omega (arith, length-append xs ys)),
  drop-append_length xs ys,
)

pub get_to-append : (n : ℕ) (xs ys : Bytes) → length xs ≡ n → get_to (xs ++ ys) n ≡ some xs
unfolding get_to
get_to-append n xs ys e = rw (
  ← e,
  le→leb (length xs) (length (xs ++ ys)) (omega (arith, length-append xs ys)),
  take-append_length xs ys,
)

-- A header that announces a payload.
accept_header_lem :
    (ring : Ring) (d : V4Decoder) (buf : Buffer) (end padding payload : ℕ) (tag : Bytes)
    → padding ≤ max_packet_size
    → payload ≤ max_packet_size
    → 0 < payload
    → accept_header ring (d, buf) end (header_list (plain_header padding payload) ++ tag) ≡ (
      ok again,
      (
        record d {
          step =
              body
                (record { padding_len = padding; payload_len = payload })
                (padding + (payload + tag_len));
        },
        buf,
      ),
    )
unfolding accept_header body_len_v4
accept_header_lem ring d buf end padding payload tag h k pos =
    rw
      (
        opened_header-append (plain_header padding payload) tag,
        parse_v4-plain_header padding payload h k,
      )
      (ground arith)

-- The decoder and the buffer behind a body of `pad` bytes of padding and the given payload.
abbrev pub after_body : State → (front inside back : Bytes) → ℕ → State
after_body (d, buf) front inside back end = (
  record d { nonce = increment d.nonce; include_salt = false; step = header; pending = end },
  record buf { storage = front ++ (inside ++ back) },
)

abbrev pub body_record : V4Decoder → (start len end : ℕ) → DecodedRecord
body_record d start len end = record {
  consumed = end - d.pending;
  plaintext = (start, start + len);
  kind = data_record;
}

pub offset_ge : (d : V4Decoder) → d.pending ≤ header_offset d
unfolding header_offset
offset_ge d = omega arith

module _ (ring : Ring) where
  pub read_header_lem :
      (d : V4Decoder) (buf : Buffer) (key front block rest : Bytes) (padding payload : ℕ)
      → filled buf ≡ front ++ (block ++ rest)
      → header_offset d ≡ length front
      → d.aead ≡ some key
      → header_offset d + header_cipher_len ≤ len buf
      → header_offset d + header_cipher_len ≤ buf.max
      → Block ring key d.nonce (header_list (plain_header padding payload)) block
      → padding ≤ max_packet_size
      → payload ≤ max_packet_size
      → 0 < payload
      → read_header ring (d, buf) ≡ (
        ok again,
        (
          record d {
            nonce = increment d.nonce;
            step =
                body
                  (record { padding_len = padding; payload_len = payload })
                  (padding + (payload + tag_len));
          },
          buf,
        ),
      )
  unfolding read_header unless_need open_header
  read_header_lem d buf key front block rest padding payload e o a there fits b h k pos =
      let first : d.pending ≤ header_offset d = offset_ge d in
      rw
        (
          pending_need-none d.pending (header_offset d + header_cipher_len) buf (omega arith)
              (omega arith) there,
          e,
          index_from-append (header_offset d) front (block ++ rest) o,
          get_to-append header_cipher_len block rest b.size,
        )
        (attempt-ok_or (d, buf) d.aead Error.aead
            (open_header ring (d, buf) (header_offset d + header_cipher_len) block) a
          ∙ rw (open_header, b.opens)
              (accept_header_lem ring (record d { nonce = increment d.nonce }) buf
                (header_offset d + header_cipher_len) padding payload b.tag h k pos))

  open_body_lem :
      (d : V4Decoder) (buf : Buffer) (key front payload padding block middle back : Bytes)
      (off pad n : ℕ)
      → buf.storage ≡ front ++ (middle ++ back)
      → length middle ≡ length (padding ++ block)
      → buf.start + off ≡ length front
      → d.pending ≤ off
      → (b : Block ring key d.nonce payload block)
      → open_body ring
          (d, buf)
          (record { padding_len = pad; payload_len = n })
          off
          (pad + (n + tag_len))
          padding
          block
          key
        ≡ (
          ok (returned (decoded (body_record d (off + pad) n (off + (pad + (n + tag_len)))))),
          after_body
              (d, buf)
              front
              (padding ++ (payload ++ b.tag))
              back
              (off + (pad + (n + tag_len))),
        )
  unfolding open_body data_at emit
  open_body_lem d buf key front payload padding block middle back off pad n e size at p b =
      let tagged : length (padding ++ (payload ++ b.tag)) ≡ length middle = omega (
        arith,
        b.size,
        length-append padding block,
        length-append padding (payload ++ b.tag),
        length-append payload b.tag,
        b.tag_size,
      ) in
      rw (b.opens, le→ltb_false (off + (pad + (n + tag_len))) d.pending (omega arith))
        (rw (
          write_range_lem buf front middle back (padding ++ (payload ++ b.tag)) (buf.start + off) e
            at tagged))

  -- A body that was spread, behind its header.
  pub read_body_lem :
      (d : V4Decoder) (buf : Buffer) (key front payload padding block back : Bytes) (pad n : ℕ)
      → buf.storage
        ≡ front
          ++ (((swap_even_indices padding block).0 ++ (swap_even_indices padding block).1) ++ back)
      → buf.start + (header_offset d + header_cipher_len) ≡ length front
      → d.aead ≡ some key
      → length padding ≡ pad
      → length payload ≡ n
      → header_offset d + header_cipher_len + (pad + (n + tag_len)) ≤ buf.max
      → IsBytes padding
      → (b : Block ring key d.nonce payload block)
      → read_body ring
          (record { padding_len = pad; payload_len = n })
          (pad + (n + tag_len))
          (d, buf)
        ≡ (
          ok (
              returned (
                decoded (
                  body_record d
                    (header_offset d + header_cipher_len + pad)
                    n
                    (header_offset d + header_cipher_len + (pad + (n + tag_len)))))),
          after_body
              (d, buf)
              front
              (padding ++ (payload ++ b.tag))
              back
              (header_offset d + header_cipher_len + (pad + (n + tag_len))),
        )
  unfolding read_body unless_need len
  read_body_lem d buf key front payload padding block back pad n e at a p s fits bytes b =
      let off : ℕ = header_offset d + header_cipher_len in
      let swapped = swap_even_indices padding block in
      let sizes = length-swap_even_indices padding block bytes b.bytes in
      let first = offset_ge d in
      let size : length buf.storage
          ≡ length front + ((length swapped.0 + length swapped.1) + length back) =
        ap length e
        ∙ omega (
          arith,
          length-append front ((swapped.0 ++ swapped.1) ++ back),
          length-append (swapped.0 ++ swapped.1) back,
          length-append swapped.0 swapped.1,
        ) in
      let there : off + (pad + (n + tag_len)) ≤ len buf = omega (arith, size, sizes, b.size) in
      let same : length (swapped.0 ++ swapped.1) ≡ length (padding ++ block) =
        omega (arith, length-append swapped.0 swapped.1, length-append padding block, sizes) in
      let upto : buf.start + (off + (pad + (n + tag_len)))
          ≡ buf.start + off + length (swapped.0 ++ swapped.1) =
        omega (arith, same, length-append padding block, b.size) in
      rw
        (
          pending_need-none d.pending (off + (pad + (n + tag_len))) buf (omega arith) (omega arith)
              there,
          range_lem buf front (swapped.0 ++ swapped.1) back (buf.start + off)
              (buf.start + (off + (pad + (n + tag_len)))) e at upto,
          split_at_mut-append pad swapped.0 swapped.1 (sizes.0 ∙ p),
          swap_even_indices-twice padding block bytes b.bytes,
        )
        (attempt-ok_or (d, write_range buf (buf.start + off) (padding ++ block)) d.aead Error.aead
            (open_body ring (d, buf) (record { padding_len = pad; payload_len = n }) off
              (pad + (n + tag_len)) padding block)
            a
          ∙ open_body_lem d buf key front payload padding block (swapped.0 ++ swapped.1) back off
              pad n e same at (omega arith) b)
