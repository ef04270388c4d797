-- ===== src/Crypto/Aead/Block.antt =====
-- A slice that aead.rs seals and opens again.
use snell_rs.Prelude.{
  ◌+◌, ◌-◌, ◌≤◌, ◌≡◌, [], ◌∷◌, ◌++◌, some, length, arith, length-append, take-append_length,
  drop-append_length, le→leb,
}
use snell_rs.Kernel.Error.{ok}
use snell_rs.Kernel.Consts.{tag_len}
use snell_rs.Kernel.Slice.{Bytes}
use snell_rs.Nonce.{increment}
use snell_rs.Crypto.Aead.{Ring, IsRing, IsBytes, split_tag, seal, open_}

split_tag-append :
    (plain tag : Bytes) → length tag ≡ tag_len → split_tag (plain ++ tag) ≡ some (plain, tag)
unfolding split_tag
split_tag-append plain tag h =
    let n : length (plain ++ tag) - tag_len ≡ length plain =
      omega (arith, length-append plain tag) in
    rw (
      n,
      le→leb tag_len (length (plain ++ tag)) (omega (arith, length-append plain tag)),
      take-append_length plain tag,
      drop-append_length plain tag,
    )

All-append : (xs ys : Bytes) → IsBytes xs → IsBytes ys → IsBytes (xs ++ ys)
All-append [] ys h k = k
All-append (x ∷ xs) ys h k = (h.0, All-append xs ys h.1 k)

-- `block` is what sealing `plain` makes, and what opens to it.
pub record Block (ring : Ring) (key nonce plain block : Bytes) : Type 0 where
  pub tag : Bytes
  pub seals :
      (room : Bytes)
      → length room ≡ tag_len
      → seal ring key nonce [] (plain ++ room) ≡ (ok tt, (increment nonce, block))
  pub opens : open_ ring key nonce [] block ≡ (ok tt, (increment nonce, plain ++ tag))
  pub tag_size : length tag ≡ tag_len
  pub size : length block ≡ length plain + tag_len
  pub bytes : IsBytes block

pub seal-Block :
    (ring : Ring) (key nonce plain : Bytes)
    → IsRing ring
    → IsBytes plain
    → length plain ≤ 65535
    → (block : Bytes) × Block ring key nonce plain block
unfolding seal open_
seal-Block ring key nonce plain r bytes h =
    let (tag, made, size) = r.seals key nonce [] plain h in
    let cipher = (ring.seal_in_place key nonce [] plain).1 in
    let all = r.seal-IsBytes key nonce [] plain tag bytes made in
    (
      cipher ++ tag,
      record {
        tag = tag;
        seals = λ room e. rw (seal, split_tag-append plain room e, made);
        opens =
            rw (open_, split_tag-append cipher tag size, r.opens key nonce [] plain tag bytes made)
              (rw (r.opens key nonce [] plain tag bytes made));
        tag_size = size;
        size = omega (arith, length-append cipher tag, r.length-seal key nonce [] plain);
        bytes = All-append cipher tag all.0 all.1;
      },
    )
