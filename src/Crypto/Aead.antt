-- ===== src/Crypto/Aead.antt =====
-- crates/snell-protocol/src/crypto/aead.rs, and the key derivation of kdf.rs. AES-128-GCM of `ring`
-- and Argon2id are parameters; a cipher is named by the bytes of its key.
pub mod Block
use snell_rs.Prelude.{
  ℕ, ◌-◌, ◌≤◌, ◌≡◌, [], ◌∷◌, ◌++◌, Option, none, some, Bool, true, false, All, length, take, drop,
  leb, if◌then◌else◌,
}
use snell_rs.Kernel.Error.{Error, truncated, Result, ok, err, panic, ◌>>=◌, ok_or}
use snell_rs.Kernel.Consts.{tag_len, salt_len}
use snell_rs.Kernel.Slice.{Bytes, IsByte, split_at_checked, index_to}
use snell_rs.Nonce.{increment}

abbrev pub aes_128_key_len : ℕ
aes_128_key_len = 16

abbrev pub argon2_output_len : ℕ
argon2_output_len = 32

-- `LessSafeKey`: what a call does to the slice, and its tag or whether the tag was right. A key of
-- the wrong length has no `UnboundKey`. `hash_password` has the parameters of lib.rs.
pub record Ring : Type 0 where
  pub unbound : (key : Bytes) → Bool
  pub seal_in_place : (key nonce aad plain : Bytes) → Option Bytes × Bytes
  pub open_in_place : (key nonce aad tag cipher : Bytes) → Bool × Bytes
  pub hash_password : (password salt : Bytes) → Option Bytes

-- A slice of Rust holds bytes.
abbrev pub IsBytes : Bytes → Type 0
IsBytes xs = All IsByte xs

-- What the documentation of the ciphers promises for slices of at most 65535 bytes.
pub record IsRing (ring : Ring) : Type 0 where
  pub seals :
      (key nonce aad plain : Bytes)
      → length plain ≤ 65535
      → (tag : Bytes) × ((ring.seal_in_place key nonce aad plain).0 ≡ some tag)
        × (length tag ≡ tag_len)
  pub length-seal :
      (key nonce aad plain : Bytes)
      → length (ring.seal_in_place key nonce aad plain).1 ≡ length plain
  pub seal-IsBytes :
      (key nonce aad plain tag : Bytes)
      → IsBytes plain
      → (ring.seal_in_place key nonce aad plain).0 ≡ some tag
      → IsBytes (ring.seal_in_place key nonce aad plain).1 × IsBytes tag
  pub opens :
      (key nonce aad plain tag : Bytes)
      → IsBytes plain
      → (ring.seal_in_place key nonce aad plain).0 ≡ some tag
      → ring.open_in_place key nonce aad tag (ring.seal_in_place key nonce aad plain).1
        ≡ (true, plain)
  pub length-open :
      (key nonce aad tag cipher : Bytes)
      → length (ring.open_in_place key nonce aad tag cipher).1 ≡ length cipher
  pub length-hash :
      (password salt raw : Bytes)
      → ring.hash_password password salt ≡ some raw
      → length raw ≡ argon2_output_len

-- `split_last_chunk_mut::<TAG_LEN>`
unfoldable pub split_tag : Bytes → Option (Bytes × Bytes)
split_tag in_out =
    if leb tag_len (length in_out)
    then some (take (length in_out - tag_len) in_out, drop (length in_out - tag_len) in_out)
    else none

module _ (ring : Ring) where
  unfoldable pub new : Bytes → Result Bytes
  new key = if ring.unbound key then ok key else err Error.aead

  -- The first 16 bytes of the output.
  unfoldable pub aead_key : Bytes → Bytes → Result Bytes
  aead_key psk salt = do
    raw ← ok_or (ring.hash_password psk salt) Error.kdf
    index_to raw aes_128_key_len

  unfoldable pub derive : Bytes → Bytes → Result Bytes
  derive psk salt = do key ← aead_key psk salt; new key

  -- The outcome, the nonce and the slice behind the call.
  unfoldable pub seal : Bytes → Bytes → Bytes → Bytes → Result (Unit {0}) × (Bytes × Bytes)
  seal key nonce aad in_out = elim (split_tag in_out) [
    | none ↦ (err truncated, (nonce, in_out))
    | some (plain, tag_dst) ↦
        let (sealed, cipher) = ring.seal_in_place key nonce aad plain in
        elim sealed [
          | none ↦ (err Error.aead, (nonce, cipher ++ tag_dst))
          | some tag ↦ (ok tt, (increment nonce, cipher ++ tag))
        ]
  ]

  unfoldable pub open_ : Bytes → Bytes → Bytes → Bytes → Result (Unit {0}) × (Bytes × Bytes)
  open_ key nonce aad in_out = elim (split_tag in_out) [
    | none ↦ (err truncated, (nonce, in_out))
    | some (cipher, tag) ↦
        let (opened, plain) = ring.open_in_place key nonce aad tag cipher in
        elim opened [
          | true ↦ (ok tt, (increment nonce, plain ++ tag))
          | false ↦ (err Error.aead, (nonce, plain ++ tag))
        ]
  ]
