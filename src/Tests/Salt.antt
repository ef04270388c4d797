-- ===== src/Tests/Salt.antt =====
-- The salt block of crates/snell-protocol/src/codec/v6/salt.rs, with the numbers of its own tests.
use snell_rs.Prelude.{ℕ, ◌≡◌, refl, [], ◌∷◌, length, replicate, arith}
use snell_rs.Kernel.Error.{ok}
use snell_rs.Kernel.Slice.{Bytes}
use snell_rs.Salt.{golden_gamma, splitmix64, shuffle_perm, write, extract}
use snell_rs.Salt.Shuffle.{IsPerm, shuffle_perm-IsPerm}
use snell_rs.Salt.RoundTrip.{extract-write}

abbrev namespace : ℕ
namespace = 0x3e8a91b52740f6cd

stafford_stream : splitmix64 golden_gamma ≡ 0xe220a8397b1dcdaf
unfolding splitmix64
stafford_stream = refl

shuffle_perm-IsPerm_example :
    (perm : Bytes) × (shuffle_perm namespace 3 32 ≡ ok perm) × IsPerm 32 perm
shuffle_perm-IsPerm_example = shuffle_perm-IsPerm namespace 3 32 (omega arith)

abbrev salt : Bytes
salt = 1 ∷ 35 ∷ 69 ∷ 103 ∷ 137 ∷ 171 ∷ 205 ∷ 239 ∷ 254 ∷ 220 ∷ 186 ∷ 152 ∷ 118 ∷ 84 ∷ 50 ∷ 16 ∷ []

abbrev block : Bytes
block = replicate 36 170

extract-write_example :
    (block' : Bytes) × (write namespace 55 3 block salt ≡ ok block')
    × (length block' ≡ length block)
    × (extract namespace 55 3 block' ≡ ok salt)
extract-write_example =
    extract-write namespace 55 3 block salt (omega arith) (omega arith) (omega arith)
