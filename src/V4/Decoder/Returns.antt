-- ===== src/V4/Decoder/Returns.antt =====
-- The calls of the decoder of codec/v4/mod.rs that cannot panic.
use snell_rs.Prelude.{
  ◌-◌, ◌≤◌, ◌≡◌, ◌≢◌, refl, [], ◌∷◌, Option, none, some, arith, inl, inr, Bool-cases, length, take,
  drop, leb, length-append, length-take, length-drop, Option-cases, leb→le, le→leb,
}
use snell_rs.Kernel.Error.{Error, panic, ok_or}
use snell_rs.Kernel.Consts.{tag_len}
use snell_rs.Kernel.Slice.{Bytes, index_to}
use snell_rs.Buffer.{Buffer, len}
use snell_rs.Crypto.Aead.{Ring, IsRing, derive, aead_key, open_, split_tag}
use snell_rs.Crypto.Aead
use snell_rs.V4.Decoder.{opened_header}

pub ok_or-ne-panic {ℓ} : {A : Type ℓ} (o : Option A) (e : Error) → ok_or o e ≢ panic
ok_or-ne-panic (some a) e h = cc
ok_or-ne-panic none e h = cc

pub len_lem : (b : Buffer) → len b ≡ length b.storage - b.start
unfolding len
len_lem b = refl

module _ (ring : Ring) (r : IsRing ring) where
  pub derive-ne-panic : (psk salt_bytes : Bytes) → derive ring psk salt_bytes ≢ panic
  unfolding derive aead_key index_to Aead.new
  derive-ne-panic psk salt_bytes h = elim (Option-cases (ring.hash_password psk salt_bytes)) [
    | inl missing ↦ let h' = rw missing at h in cc
    | inr (raw, found) ↦
        let h' =
          rw (found, le→leb 16 (length raw) (omega (arith, r.length-hash psk salt_bytes raw found)))
            at h in
        ground arith
  ]

  pub length-open_ :
      (key nonce in_out : Bytes) → length (open_ ring key nonce [] in_out).1.1 ≡ length in_out
  unfolding open_ split_tag
  length-open_ key nonce in_out = elim (Bool-cases (leb tag_len (length in_out))) [
    | inl long ↦
        let cipher = take (length in_out - tag_len) in_out in
        let tag = drop (length in_out - tag_len) in_out in
        elim (Bool-cases (ring.open_in_place key nonce [] tag cipher).0) [
          | inl yes_ ↦
              rw (open_, long, yes_)
                (omega (
                  arith,
                  r.length-open key nonce [] tag cipher,
                  length-append (ring.open_in_place key nonce [] tag cipher).1 tag,
                  length-take (length in_out - tag_len) in_out,
                  length-drop (length in_out - tag_len) in_out,
                  leb→le tag_len (length in_out) long,
                ))
          | inr no_ ↦
              rw (open_, long, no_)
                (omega (
                  arith,
                  r.length-open key nonce [] tag cipher,
                  length-append (ring.open_in_place key nonce [] tag cipher).1 tag,
                  length-take (length in_out - tag_len) in_out,
                  length-drop (length in_out - tag_len) in_out,
                  leb→le tag_len (length in_out) long,
                ))
        ]
    | inr short ↦ rw (open_, short)
  ]

  pub open_-ne-panic : (key nonce in_out : Bytes) → (open_ ring key nonce [] in_out).0 ≢ panic
  unfolding open_ split_tag
  open_-ne-panic key nonce in_out h = ground arith

  pub opened_header-ne-panic : (xs : Bytes) → 7 ≤ length xs → opened_header xs ≢ panic
  unfolding opened_header
  opened_header-ne-panic (b0 ∷ b1 ∷ b2 ∷ b3 ∷ b4 ∷ b5 ∷ b6 ∷ _) h e = cc
  opened_header-ne-panic xs h e = absurd (omega arith)
