-- ===== src/Tests/Codec.antt =====
-- The nonce, the record headers and the v4 window of crates/snell-protocol, at concrete numbers.
use snell_rs.Prelude.{◌+◌, ◌*◌, ◌≡◌, ◌≢◌, refl, [], ◌∷◌, arith, min, some}
use snell_rs.Kernel.Consts.{max_packet_size}
use snell_rs.Kernel.Slice.{Bytes}
use snell_rs.Nonce.{new, advance}
use snell_rs.Nonce.Count.{advance-distinct}
use snell_rs.Chunk.{V4ChunkState, record_budget}
use snell_rs.Chunk.Growth.{seal_all, budget_grows}

-- The first byte of three is full.
abbrev carries : Bytes
carries = 255 ∷ 255 ∷ 7 ∷ []

advance-distinct_example : advance 2 new ≢ advance 300 new
advance-distinct_example = advance-distinct 2 300 (omega arith) (omega arith)

abbrev sealed : V4ChunkState
sealed = record { initial_padding_len = 256; last = some (record { sealed_at = 10; limit = 2000 }) }

budget_grows_example :
    record_budget (seal_all sealed (20 ∷ 40 ∷ [])) 60 ≡ min (2000 + 1421 * 2) max_packet_size
budget_grows_example =
    budget_grows sealed 10 2000 (20 ∷ 40 ∷ []) 60 refl (omega arith)
      (omega arith, (omega arith, (omega arith, tt)))
