-- ===== src/Header/Laws.antt =====
-- What the two header parsers accept, and what a parsed header lets a decoder reserve.
use snell_rs.Prelude.{ℕ, ◌+◌, ◌*◌, ◌≤◌, ◌<◌, ◌≡◌, ◌↔◌, ◌⊎◌, arith}
use snell_rs.Kernel.Error.{payload_too_large, ok, err}
use snell_rs.Kernel.Consts.{
  max_packet_size, header_version_marker, salt_len, header_cipher_len, v4_wire_cap,
}
use snell_rs.Header.{
  HeaderBytes, RecordHeader, parse_v4_plain_header, parse_v6_plain_header, plain_header,
  body_len_v4,
}

-- A header that was built from two lengths of at most 16383 is parsed back by v4.
pub parse_v4-plain_header :
    (padding payload : ℕ)
    → padding ≤ max_packet_size
    → payload ≤ max_packet_size
    → parse_v4_plain_header (plain_header padding payload)
      ≡ ok (record { padding_len = padding; payload_len = payload })
unfolding parse_v4_plain_header plain_header
parse_v4-plain_header padding payload hp hq = ground arith

-- A header that was built from two lengths of sixteen bits, one of them above 16383, is refused by
-- v4 as too large.
pub parse_v4-plain_header-too_large :
    (padding payload : ℕ)
    → padding ≤ 65535
    → payload ≤ 65535
    → (max_packet_size < padding) ⊎ (max_packet_size < payload)
    → parse_v4_plain_header (plain_header padding payload) ≡ err payload_too_large
unfolding parse_v4_plain_header plain_header
parse_v4-plain_header-too_large padding payload hp hq big = ground arith

-- A header that was built from any two lengths of sixteen bits is parsed back by v6.
pub parse_v6-plain_header :
    (padding payload : ℕ)
    → padding ≤ 65535
    → payload ≤ 65535
    → parse_v6_plain_header (plain_header padding payload)
      ≡ ok (record { padding_len = padding; payload_len = payload })
unfolding parse_v6_plain_header plain_header
parse_v6-plain_header padding payload hp hq = ground arith

-- The v4 parser returns a header for seven bytes exactly if they have the version marker and big-
-- endian lengths that are those of the header and at most 16383.
pub parse_v4_accepts :
    (b : HeaderBytes) (h : RecordHeader)
    → (parse_v4_plain_header b ≡ ok h) ↔ (
        (b.b0 ≡ header_version_marker)
        × (h.padding_len ≡ b.b3 * 256 + b.b4)
        × (h.payload_len ≡ b.b5 * 256 + b.b6)
        × (h.padding_len ≤ max_packet_size)
        × (h.payload_len ≤ max_packet_size))
unfolding parse_v4_plain_header
parse_v4_accepts b h = (λ e. ground arith, λ e. ground arith)

-- If a v4 header and its body length pass both checks, the record fits the wire capacity together
-- with the salt, its padding is within the body, and its body is empty exactly for a zero chunk.
pub v4_record_fits :
    (b : HeaderBytes) {h : RecordHeader} {n : ℕ}
    → parse_v4_plain_header b ≡ ok h
    → body_len_v4 h ≡ ok n
    → (salt_len + header_cipher_len + n ≤ v4_wire_cap)
      × ((n ≡ 0) ↔ (h.payload_len ≡ 0))
      × (h.padding_len ≤ n)
unfolding parse_v4_plain_header body_len_v4
v4_record_fits b p q = ground arith
