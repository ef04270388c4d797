-- ===== src/Header.antt =====
-- crates/snell-protocol/src/codec/header.rs: the seven plaintext bytes in front of a record.
pub mod Laws
use Prim.Native.Nat.{bit_or}
use snell_rs.Prelude.{
  ℕ, ◌+◌, ◌*◌, ◌%◌, ◌/◌, List, [], ◌∷◌, ◌++◌, Bool, true, false, ◌||◌, ◌&&◌, not, ltb, ◌==◌,
  if◌then◌else◌,
}
use snell_rs.Kernel.Error.{
  zero_chunk_with_padding, invalid_header, payload_too_large, invalid_reserved, Result, ok, err,
  panic, ◌>>=◌, ◌>>◌, fail_if,
}
use snell_rs.Kernel.Consts.{header_version_marker, max_packet_size, tag_len}
use snell_rs.Kernel.Slice.{Bytes, from_be_bytes, to_be_bytes}

-- The fields in their order on the wire; `padding_len` and `payload_len` are big-endian `U16`.
pub record WirePlainHeader : Type 0 where
  pub marker : ℕ
  pub reserved_a : ℕ
  pub reserved_b : ℕ
  pub padding_len : ℕ
  pub payload_len : ℕ

pub record RecordHeader : Type 0 where
  pub padding_len : ℕ
  pub payload_len : ℕ

-- `&[u8; 7]` as a type.
pub record HeaderBytes : Type 0 where
  pub b0 : ℕ
  pub b1 : ℕ
  pub b2 : ℕ
  pub b3 : ℕ
  pub b4 : ℕ
  pub b5 : ℕ
  pub b6 : ℕ

-- `zerocopy::transmute_ref!`
abbrev pub transmute : HeaderBytes → WirePlainHeader
transmute h = record {
  marker = h.b0;
  reserved_a = h.b1;
  reserved_b = h.b2;
  padding_len = h.b3 * 256 + h.b4;
  payload_len = h.b5 * 256 + h.b6;
}

-- Payload plus its tag; no payload, no tag.
unfoldable pub payload_body_len : RecordHeader → ℕ
payload_body_len h = if h.payload_len == 0 then 0 else h.payload_len + tag_len

unfoldable pub body_len_v4 : RecordHeader → Result ℕ
unfolding payload_body_len
body_len_v4 h =
    if h.payload_len == 0 && not (h.padding_len == 0)
    then err zero_chunk_with_padding
    else ok (h.padding_len + payload_body_len h)

unfoldable pub body_len_v6_unshaped : RecordHeader → Result ℕ
unfolding payload_body_len
body_len_v6_unshaped h =
    if not (h.padding_len == 0) then err invalid_header else ok (payload_body_len h)

unfoldable pub body_len_v6_shaped : RecordHeader → ℕ
unfolding payload_body_len
body_len_v6_shaped h = h.padding_len + payload_body_len h

unfoldable pub body_len_v6_raw : RecordHeader → Result ℕ
body_len_v6_raw h = if not (h.padding_len == 0) then err invalid_header else ok h.payload_len

unfoldable pub parse_plain_header : HeaderBytes → Result WirePlainHeader
parse_plain_header header =
    let wire = transmute header in
    if not (wire.marker == header_version_marker) then err invalid_header else ok wire

-- `From<&WirePlainHeader> for RecordHeader`
abbrev pub from_wire : WirePlainHeader → RecordHeader
from_wire w = record { padding_len = w.padding_len; payload_len = w.payload_len }

unfoldable pub parse_v4_plain_header : HeaderBytes → Result RecordHeader
unfolding parse_plain_header
parse_v4_plain_header bytes = do
  wire ← parse_plain_header bytes
  let header = from_wire wire
  fail_if (ltb max_packet_size header.padding_len || ltb max_packet_size header.payload_len)
      payload_too_large
  ok header

unfoldable pub parse_v6_plain_header : HeaderBytes → Result RecordHeader
unfolding parse_plain_header
parse_v6_plain_header bytes = do
  wire ← parse_plain_header bytes
  let reserved = bit_or wire.reserved_a wire.reserved_b
  fail_if (not (reserved == 0)) (invalid_reserved reserved)
  ok (from_wire wire)

-- `padding_len as u16` keeps the low sixteen bits.
unfoldable pub plain_header : ℕ → ℕ → HeaderBytes
plain_header padding_len payload_len = record {
  b0 = header_version_marker;
  b1 = 0;
  b2 = 0;
  b3 = padding_len % 65536 / 256;
  b4 = padding_len % 256;
  b5 = payload_len % 65536 / 256;
  b6 = payload_len % 256;
}
