-- ===== src/Kdf.antt =====
-- crates/snell-runtime/src/kdf.rs: the gate of the key derivations. Each access of a call to one of
-- the two semaphores is a step of its own, so that those of other calls come between. A permit that
-- comes back goes to the first waiter, as tokio documents, and the waiter keeps its place in the
-- queue until it is polled.
pub mod Bounds
use snell_rs.Prelude.{ℕ, ◌+◌, ◌-◌, ◌<◌, min, ltb, if◌then◌else◌}
use Prim.Native.Nat.{max}

abbrev pub kdf_max_inflight : ℕ
kdf_max_inflight = 8

abbrev pub kdf_max_queued : ℕ
kdf_max_queued = 32

-- The free permits of `running` and the free places of `queue`, with the calls by where they stand:
-- a permit is held (`derivations`, from the start of the task to its end); none was free and no place
-- is asked for yet (`missed`); a place is held and `acquire_owned` not yet polled (`placed`); in its
-- list of waiters (`waiting`); handed a permit there and not yet polled (`assigned`); done with waiting
-- and the place not yet given back (`leaving`).
pub record KdfLimiter : Type 0 where
  pub running : ℕ
  pub queue : ℕ
  pub derivations : ℕ
  pub missed : ℕ
  pub placed : ℕ
  pub waiting : ℕ
  pub assigned : ℕ
  pub leaving : ℕ

unfoldable pub with_limits : (inflight queued : ℕ) → KdfLimiter
with_limits inflight queued = record {
  running = inflight;
  queue = queued;
  derivations = 0;
  missed = 0;
  placed = 0;
  waiting = 0;
  assigned = 0;
  leaving = 0;
}

-- `available_parallelism` is an argument.
unfoldable pub new : ℕ → KdfLimiter
unfolding with_limits
new parallelism = with_limits (min (max parallelism 1) kdf_max_inflight) kdf_max_queued

-- What an access of a call comes to.
pub data Entry : Type 0 where
  started missed placed waits kdf_queue_full : Entry

-- `try_acquire_owned` on `running`.
unfoldable pub enter : KdfLimiter → Entry × KdfLimiter
enter k =
    if ltb 0 k.running
    then (started, record k { running = k.running - 1; derivations = k.derivations + 1 })
    else (missed, record k { missed = k.missed + 1 })

-- `try_acquire` on `queue`, of a call that found no permit.
unfoldable pub take_place : KdfLimiter → Entry × KdfLimiter
take_place k =
    if ltb 0 k.queue
    then (placed, record k { queue = k.queue - 1; missed = k.missed - 1; placed = k.placed + 1 })
    else (kdf_queue_full, record k { missed = k.missed - 1 })

-- The first poll of `acquire_owned`, of a call that holds a place.
unfoldable pub ask : KdfLimiter → Entry × KdfLimiter
ask k =
    if ltb 0 k.running
    then (
      started,
      record k {
        running = k.running - 1;
        placed = k.placed - 1;
        derivations = k.derivations + 1;
        leaving = k.leaving + 1;
      },
    )
    else (waits, record k { placed = k.placed - 1; waiting = k.waiting + 1 })

-- A permit of `running` is dropped.
unfoldable pub release : KdfLimiter → KdfLimiter
release k =
    if ltb 0 k.waiting
    then record k { waiting = k.waiting - 1; assigned = k.assigned + 1 }
    else record k { running = k.running + 1 }

-- The calls' accesses; a waiter is polled with its permit; a call is cancelled
-- that holds a place and is not in the list yet, or in the list without a permit, or in the list with
-- one, and then the permit is dropped; `_waiting` is dropped; a derivation ends, whether its
-- caller is still there or not.
pub data Step : KdfLimiter → KdfLimiter → Type 0 where
  entered : (k : KdfLimiter) → Step k (enter k).1
  tried : (k : KdfLimiter) → 0 < k.missed → Step k (take_place k).1
  asked : (k : KdfLimiter) → 0 < k.placed → Step k (ask k).1
  resumed :
      (k : KdfLimiter)
      → 0 < k.assigned
      → Step k (record k {
        assigned = k.assigned - 1;
        derivations = k.derivations + 1;
        leaving = k.leaving + 1;
      })
  withdrawn :
      (k : KdfLimiter)
      → 0 < k.placed
      → Step k (record k { placed = k.placed - 1; leaving = k.leaving + 1 })
  cancelled :
      (k : KdfLimiter)
      → 0 < k.waiting
      → Step k (record k { waiting = k.waiting - 1; leaving = k.leaving + 1 })
  given_up :
      (k : KdfLimiter)
      → 0 < k.assigned
      → Step k (release (record k { assigned = k.assigned - 1; leaving = k.leaving + 1 }))
  left :
      (k : KdfLimiter)
      → 0 < k.leaving
      → Step k (record k { queue = k.queue + 1; leaving = k.leaving - 1 })
  ended :
      (k : KdfLimiter)
      → 0 < k.derivations
      → Step k (release (record k { derivations = k.derivations - 1 }))

pub data Reaches : KdfLimiter → KdfLimiter → Type 0 where
  here : (k : KdfLimiter) → Reaches k k
  step : {k l m : KdfLimiter} → Reaches k l → Step l m → Reaches k m
