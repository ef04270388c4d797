-- ===== src/Nonce.antt =====
-- crates/snell-protocol/src/crypto/nonce.rs: the little-endian record counter.
pub mod Count
use snell_rs.Prelude.{
  ℕ, zero, suc, ◌+◌, ◌%◌, List, [], ◌∷◌, Bool, true, false, leb, ◌==◌, if◌then◌else◌, replicate,
}
use snell_rs.Kernel.Consts.{nonce_len}
use snell_rs.Kernel.Slice.{Bytes}

unfoldable pub new : Bytes
new = replicate nonce_len 0

-- The `for` loop over the bytes: it returns at the first byte that does not overflow.
unfoldable pub increment : Bytes → Bytes
increment [] = []
increment (byte ∷ bytes) =
    if leb 256 (byte + 1) then ((byte + 1) % 256) ∷ increment bytes else ((byte + 1) % 256) ∷ bytes

-- `increment`, as often as records are sealed.
unfoldable pub advance : ℕ → Bytes → Bytes
advance zero nonce = nonce
advance (suc k) nonce = advance k (increment nonce)
