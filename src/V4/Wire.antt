-- ===== src/V4/Wire.antt =====
-- A record of codec/v4/mod.rs on the wire.
use snell_rs.Prelude.{ℕ, ◌+◌, ◌≤◌, ◌≡◌, ◌++◌, ap, ◌∙◌, arith, length-append, length}
use snell_rs.Kernel.Consts.{header_cipher_len, tag_len, max_packet_size}
use snell_rs.Kernel.Slice.{Bytes}
use snell_rs.Nonce.{increment}
use snell_rs.Header.{plain_header}
use snell_rs.Crypto.Aead.{Ring, IsBytes}
use snell_rs.Crypto.Aead.Block.{Block}
use snell_rs.V4.Padding.{swap_even_indices}
use snell_rs.V4.Swap.{length-swap_even_indices}
use snell_rs.V4.Encoder.{header_list}

-- The sealed header, then padding and sealed payload with every second byte exchanged.
pub record Wire (ring : Ring) (key nonce payload wire : Bytes) : Type 0 where
  pub header : Bytes
  pub padding_len : ℕ
  pub padding : Bytes
  pub body : Bytes
  pub header_block :
      Block ring key nonce (header_list (plain_header padding_len (length payload))) header
  pub body_block : Block ring key (increment nonce) payload body
  pub padding_bytes : IsBytes padding
  pub padding_size : length padding ≡ padding_len
  pub small : padding_len ≤ max_packet_size × length payload ≤ max_packet_size
  pub spread :
      wire ≡ header ++ ((swap_even_indices padding body).0 ++ (swap_even_indices padding body).1)

pub length-wire :
    (ring : Ring) (key nonce payload wire : Bytes) (w : Wire ring key nonce payload wire)
    → length wire ≡ header_cipher_len + (w.padding_len + (length payload + tag_len))
length-wire ring key nonce payload wire w =
    let swapped = swap_even_indices w.padding w.body in
    let sizes = length-swap_even_indices w.padding w.body w.padding_bytes w.body_block.bytes in
    ap length w.spread
    ∙ omega (
      arith,
      sizes,
      w.header_block.size,
      w.body_block.size,
      w.padding_size,
      length-append w.header (swapped.0 ++ swapped.1),
      length-append swapped.0 swapped.1,
    )
