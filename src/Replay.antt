-- ===== src/Replay.antt =====
-- crates/snell-runtime/src/replay.rs: the bounded cache of v6 salts. Times are nanoseconds of the
-- monotonic clock; the mutex makes each `insert` one step.
pub mod Queue
pub mod Order
pub mod Refine
pub mod NoReplay
use snell_rs.Prelude.{
  ℕ, ◌+◌, ◌-◌, ◌*◌, List, [], ◌∷◌, ◌++◌, Bool, true, false, length, leb, ◌==◌, if◌then◌else◌,
}
use snell_rs.Prelude.Eq.{Eq, member, remove}
use snell_rs.Kernel.Consts.{replay_cache_capacity, replay_cache_ttl_secs}

-- `seen` indexes the salts of `order`, which holds the oldest first, each with its time.
pub record Inner (Salt : Type 0) : Type 0 where
  pub seen : List Salt
  pub order : List (Salt × ℕ)

pub record ReplayCache (Salt : Type 0) : Type 0 where
  pub inner : Inner Salt
  pub cap : ℕ
  pub ttl : ℕ

-- `Ok(())` or `Err(SessionError::ReplayDuplicate)`
pub data Outcome : Type 0 where
  accepted replay_duplicate : Outcome

unfoldable pub with_limits : {Salt : Type 0} → ℕ → ℕ → ReplayCache Salt
with_limits cap ttl = record { inner = record { seen = []; order = [] }; cap = cap; ttl = ttl }

-- `Duration::from_secs`
abbrev pub from_secs : ℕ → ℕ
from_secs s = s * 1_000_000_000

unfoldable pub new : {Salt : Type 0} → ReplayCache Salt
unfolding with_limits
new = with_limits replay_cache_capacity (from_secs replay_cache_ttl_secs)

module _ {Salt : Type 0} ⦃e : Eq Salt⦄ where
  -- The `while` loop: the front goes as long as it is `ttl` old. `duration_since` stops at 0.
  unfoldable pub expire : ℕ → ℕ → List Salt → List (Salt × ℕ) → Inner Salt
  expire now ttl seen [] = record { seen = seen; order = [] }
  expire now ttl seen ((old, at) ∷ order) =
      let rest = expire now ttl (remove seen old) order in
      if leb ttl (now - at) then rest else record { seen = seen; order = (old, at) ∷ order }

  -- `if order.len() == cap && let Some((oldest, _)) = order.pop_front()`
  unfoldable pub evict : ℕ → List Salt → List (Salt × ℕ) → Inner Salt
  evict cap seen [] = record { seen = seen; order = [] }
  evict cap seen ((oldest, at) ∷ order) =
      if length ((oldest, at) ∷ order) == cap
      then record { seen = remove seen oldest; order = order }
      else record { seen = seen; order = (oldest, at) ∷ order }

  unfoldable pub insert : ReplayCache Salt → Salt → ℕ → Outcome × ReplayCache Salt
  insert c salt now =
      if c.cap == 0
      then (accepted, c)
      else let live = expire now c.ttl c.inner.seen c.inner.order in
        if member live.seen salt
        then (replay_duplicate, record c { inner = live })
        else let kept = evict c.cap (salt ∷ live.seen) live.order in
          (
            accepted,
            record c {
              inner = record { seen = kept.seen; order = kept.order ++ ((salt, now) ∷ []) };
            },
          )
