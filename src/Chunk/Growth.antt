-- ===== src/Chunk/Growth.antt =====
-- The growth of the window of codec/v4/chunk.rs over a sequence of records.
use snell_rs.Prelude.{
  ℕ, ◌+◌, ◌-◌, ◌*◌, ◌≤◌, ◌<◌, ◌≡◌, List, [], ◌∷◌, ◌++◌, arith, length, ◌∙◌, none, some, min,
}
use snell_rs.Kernel.Consts.{max_packet_size, v4_idle_reset_secs}
use snell_rs.Chunk.{V4ChunkState, new, record_budget, commit_write, next_v4_chunk_limit}

abbrev pub IsValid : V4ChunkState → Type 0
IsValid s = elim s.last [ none ↦ Unit {0} | some w ↦ w.limit ≤ max_packet_size ]

-- A record sealed at `now` with the budget of that time, as `V4Encoder::finish` does.
abbrev pub seal_at : V4ChunkState → ℕ → V4ChunkState
seal_at s now = commit_write s now (record_budget s now)

pub commit_write-IsValid : (s : V4ChunkState) (now budget : ℕ) → IsValid (commit_write s now budget)
unfolding commit_write next_v4_chunk_limit
commit_write-IsValid s now budget = omega arith

-- The budget of a valid state is at most the largest payload, whatever the time.
pub record_budget_le :
    (s : V4ChunkState) (now : ℕ) → IsValid s → record_budget s now ≤ max_packet_size
unfolding record_budget
record_budget_le s now v = ground arith

-- The state after sealing records at the given times.
pub seal_all : V4ChunkState → List ℕ → V4ChunkState
seal_all s [] = s
seal_all s (t ∷ ts) = seal_all (seal_at s t) ts

-- The times follow one another with no idle gap behind the first.
abbrev pub NoGap : ℕ → List ℕ → Type 0
NoGap t [] = Unit {0}
NoGap t (u ∷ us) = (u ≤ t + v4_idle_reset_secs) × NoGap u us

seal_at-last :
    (s : V4ChunkState) (t u limit : ℕ)
    → s.last ≡ some (record { sealed_at = t; limit = limit })
    → u ≤ t + v4_idle_reset_secs
    → limit ≤ max_packet_size
    → (seal_at s u).last
      ≡ some (record { sealed_at = u; limit = min (limit + 1421) max_packet_size })
unfolding commit_write record_budget next_v4_chunk_limit
seal_at-last s t u limit o h b = ground arith

budget_at :
    (s : V4ChunkState) (t limit now : ℕ)
    → s.last ≡ some (record { sealed_at = t; limit = limit })
    → now ≤ t + v4_idle_reset_secs
    → record_budget s now ≡ limit
unfolding record_budget
budget_at s t limit now o h = ground arith

-- From a window whose limit is within the largest payload, sealing records with no gap of more
-- than thirty seconds between them adds 1421 bytes to the budget for each, up to the largest
-- payload.
pub budget_grows :
    (s : V4ChunkState) (t limit : ℕ) (ts : List ℕ) (now : ℕ)
    → s.last ≡ some (record { sealed_at = t; limit = limit })
    → limit ≤ max_packet_size
    → NoGap t (ts ++ now ∷ [])
    → record_budget (seal_all s ts) now ≡ min (limit + 1421 * length ts) max_packet_size
unfolding seal_all
budget_grows s t limit [] now o b g = budget_at s t limit now o g.0 ∙ omega arith
budget_grows s t limit (u ∷ ts) now o b g =
    budget_grows (seal_at s u) u (min (limit + 1421) max_packet_size) ts now
      (seal_at-last s t u limit o g.0 b) (omega arith) g.1
    ∙ omega arith

-- With at most 511 bytes of initial padding, the budget of the first record is 1405 bytes less the
-- padding, and with no idle gap behind it the budget grows from there by 1421 bytes a record up to
-- the largest payload.
pub first_budgets :
    (padding : ℕ) (t : ℕ) (ts : List ℕ) (now : ℕ)
    → padding ≤ 511
    → NoGap t (ts ++ now ∷ [])
    → (record_budget (new padding) t ≡ 1405 - padding)
      × (record_budget (seal_all (new padding) (t ∷ ts)) now
          ≡ min (1405 - padding + 1421 + 1421 * length ts) max_packet_size)
unfolding seal_all
first_budgets padding t ts now h g = (first, grown)
  where
    first : record_budget (new padding) t ≡ 1405 - padding
    first = unfold new record_budget in omega arith

    opened :
        (seal_at (new padding) t).last
        ≡ some (record { sealed_at = t; limit = min (1405 - padding + 1421) max_packet_size })
    opened = unfold new record_budget commit_write next_v4_chunk_limit in ground arith

    grown :
        record_budget (seal_all (new padding) (t ∷ ts)) now
        ≡ min (1405 - padding + 1421 + 1421 * length ts) max_packet_size
    grown = budget_grows (seal_at (new padding) t) t _ ts now opened (omega arith) g ∙ omega arith

-- More than thirty seconds after the last record the budget is 1421 bytes, whatever it was before.
pub idle_reset :
    (s : V4ChunkState) (t now budget : ℕ)
    → t + v4_idle_reset_secs < now
    → record_budget (commit_write s t budget) now ≡ 1421
unfolding record_budget commit_write
idle_reset s t now budget h = ground arith
