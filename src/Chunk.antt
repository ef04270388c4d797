-- ===== src/Chunk.antt =====
-- crates/snell-protocol/src/codec/v4/chunk.rs: the payload budget of v4 records.
pub mod Growth
use snell_rs.Prelude.{
  ℕ, ◌+◌, ◌-◌, ◌^◌, Option, none, some, Bool, true, false, ltb, if◌then◌else◌, min,
}
use snell_rs.Kernel.Consts.{
  max_packet_size, v4_first_record_overhead, v4_idle_reset_secs, v4_mss_base, v4_reset_overhead,
}

abbrev pub usize_max : ℕ
usize_max = 2 ^ 64 - 1

-- `saturating_add` stops at the largest `usize`, `saturating_sub` at 0.
unfoldable pub next_v4_chunk_limit : ℕ → ℕ
next_v4_chunk_limit current_limit =
    min (min (current_limit + v4_mss_base) usize_max - v4_reset_overhead) max_packet_size

pub record Window : Type 0 where
  pub sealed_at : ℕ
  pub limit : ℕ

pub record V4ChunkState : Type 0 where
  pub initial_padding_len : ℕ
  pub last : Option Window

unfoldable pub new : ℕ → V4ChunkState
new initial_padding_len = record { initial_padding_len = initial_padding_len; last = none }

unfoldable pub salt_sent : V4ChunkState → Bool
salt_sent s = elim s.last [ none ↦ false | some _ ↦ true ]

unfoldable pub record_budget : V4ChunkState → ℕ → ℕ
record_budget s now = elim s.last [
  | none ↦ v4_mss_base - (v4_first_record_overhead + s.initial_padding_len)
  | some last ↦
      if ltb v4_idle_reset_secs (now - last.sealed_at)
      then v4_mss_base - v4_reset_overhead
      else last.limit
]

unfoldable pub commit_write : V4ChunkState → ℕ → ℕ → V4ChunkState
commit_write s now budget = record s {
  last = some (record { sealed_at = now; limit = next_v4_chunk_limit budget });
}
