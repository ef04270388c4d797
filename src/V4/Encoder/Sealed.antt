-- ===== src/V4/Encoder/Sealed.antt =====
-- What `seal_record` of codec/v4/mod.rs leaves in the buffer.
use snell_rs.Prelude.{
  ℕ, ◌+◌, ◌≡◌, refl, ◌∙◌, [], ◌∷◌, ◌++◌, length, false, arith, length-append, ◌==◌,
}
use snell_rs.Kernel.Error.{ok}
use snell_rs.Kernel.Consts.{header_cipher_len, header_plain_len, tag_len}
use snell_rs.Kernel.Slice.{Bytes, split_at_mut-append, copy_from_slice-eq}
use snell_rs.Nonce.{increment}
use snell_rs.Header.{HeaderBytes}
use snell_rs.Buffer.{Buffer, write_range}
use snell_rs.Buffer.Ranges.{range_lem}
use snell_rs.Crypto.Aead.{Ring, IsBytes}
use snell_rs.Crypto.Aead.Block.{Block}
use snell_rs.V4.Padding.{swap_even_indices}
use snell_rs.V4.Swap.{swap_even_indices-nil}
use snell_rs.V4.Encoder.{V4Encoder, PaddingFill, header_list, seal_header, seal_body, cover}

-- A fill writes bytes within the padding, and does not run out of random bytes.
pub record IsFill {E : Type 0} (fill : PaddingFill E) : Type 0 where
  pub sized : (p c : Bytes) (e : E) → length (fill.fill_v4_padding p c e).1.0 ≡ length p
  pub bytes : (p c : Bytes) (e : E) → IsBytes (fill.fill_v4_padding p c e).1.0
  pub fills : (p c : Bytes) (e : E) → (fill.fill_v4_padding p c e).0 ≡ ok tt

module _ {E : Type 0} (ring : Ring) (fill : PaddingFill E) (filling : IsFill fill) where
  pub seal_header_lem :
      (enc : V4Encoder E) (buf : Buffer) (front plain_room tag_room back block : Bytes) (start : ℕ)
      (plain : HeaderBytes)
      → buf.storage ≡ front ++ ((plain_room ++ tag_room) ++ back)
      → start ≡ length front
      → length plain_room ≡ header_plain_len
      → length tag_room ≡ tag_len
      → Block ring enc.aead enc.nonce (header_list plain) block
      → seal_header ring fill start plain (enc, buf)
        ≡ (ok tt, (record enc { nonce = increment enc.nonce }, write_range buf start block))
  unfolding seal_header
  seal_header_lem enc buf front plain_room tag_room back block start plain e s n m b =
      let whole : start + header_cipher_len ≡ start + length (plain_room ++ tag_room) =
        omega (arith, length-append plain_room tag_room) in
      rw (
        range_lem buf front (plain_room ++ tag_room) back start (start + header_cipher_len) e s
            whole,
        split_at_mut-append header_plain_len plain_room tag_room n,
        copy_from_slice-eq plain_room (header_list plain) n,
        b.seals tag_room m,
      )

  cover_lem :
      (enc : V4Encoder E) (padding body : Bytes)
      → IsBytes body
      → (covered : Bytes) × (entropy : E) × (cover ring fill enc padding body
          ≡ (ok tt, (record enc { entropy = entropy }, swap_even_indices covered body)))
        × (length covered ≡ length padding)
        × IsBytes covered
  unfolding cover
  cover_lem enc [] body h = ([], enc.entropy, rw (swap_even_indices-nil body h), refl, tt)
  cover_lem enc (x ∷ padding) body h =
      let p = fill.fill_v4_padding (x ∷ padding) body enc.entropy in
      let padded : (length (x ∷ padding) == 0) ≡ false = ground arith in
      (
        p.1.0,
        p.1.1,
        rw (padded, filling.fills (x ∷ padding) body enc.entropy),
        filling.sized (x ∷ padding) body enc.entropy,
        filling.bytes (x ∷ padding) body enc.entropy,
      )

  pub seal_body_lem :
      (enc : V4Encoder E) (buf : Buffer) (front padding payload tag_room block : Bytes)
      (start end pad : ℕ)
      → length padding ≡ pad
      → buf.storage ≡ front ++ ((padding ++ (payload ++ tag_room)) ++ [])
      → start ≡ length front
      → end ≡ start + (length padding + (length payload + tag_len))
      → length tag_room ≡ tag_len
      → Block ring enc.aead enc.nonce payload block
      → (covered : Bytes) × (entropy : E) × (seal_body ring fill start end pad (enc, buf) ≡ (
        ok tt,
        (
          record enc { nonce = increment enc.nonce; entropy = entropy },
          write_range buf start
              ((swap_even_indices covered block).0 ++ (swap_even_indices covered block).1),
        ),
      ))
        × (length covered ≡ pad)
        × IsBytes covered
  unfolding seal_body
  seal_body_lem enc buf front padding payload tag_room block start end pad size e s t m b =
      let whole : end ≡ start + length (padding ++ (payload ++ tag_room)) =
        omega
          (arith, length-append padding (payload ++ tag_room), length-append payload tag_room) in
      let (covered, entropy, done, sized, bytes) =
        cover_lem (record enc { nonce = increment enc.nonce }) padding block b.bytes in
      (
        covered,
        entropy,
        rw (
          range_lem buf front (padding ++ (payload ++ tag_room)) [] start end e s whole,
          split_at_mut-append pad padding (payload ++ tag_room) size,
          b.seals tag_room m,
          done,
        ),
        sized ∙ size,
        bytes,
      )
