-- ===== src/ReusePool.antt =====
-- crates/snell-runtime/src/client/pool.rs: the bounded pool of idle connections. A connection is
-- taken as it is; `dead` is the probe of its socket (`socket_dead`), which the system answers. Time
-- is in nanoseconds of the monotonic clock, read once for a call; the mutex makes a call one step.
pub mod Laws
pub mod Expiry
use snell_rs.Prelude.{
  ℕ, ◌-◌, ◌*◌, List, [], ◌∷◌, ◌++◌, Bool, true, false, ◌||◌, ◌&&◌, not, Option, none, some, length,
  ltb, leb, ◌==◌, if◌then◌else◌,
}
use snell_rs.Kernel.Consts.{client_pool_max_size, client_pool_max_idle_secs}

pub record PooledEntry (Conn : Type 0) : Type 0 where
  pub conn : Conn
  pub returned_at : ℕ

pub record ReusePool (Conn : Type 0) : Type 0 where
  pub entries : List (PooledEntry Conn)
  pub max_size : ℕ
  pub max_idle : ℕ

unfoldable pub with_limits : {Conn : Type 0} → ℕ → ℕ → ReusePool Conn
with_limits max_size max_idle = record { entries = []; max_size = max_size; max_idle = max_idle }

unfoldable pub new : {Conn : Type 0} → ReusePool Conn
unfolding with_limits
new = with_limits client_pool_max_size (client_pool_max_idle_secs * 1_000_000_000)

module _ {Conn : Type 0} where
  -- `entry.returned_at.elapsed() < self.max_idle`
  abbrev pub is_fresh : ℕ → ℕ → PooledEntry Conn → Bool
  is_fresh now max_idle entry = ltb (now - entry.returned_at) max_idle

  -- `from_fn(pop_front).find(..)`: entries go until one is fresh and its socket is alive.
  unfoldable pub take_from :
      ℕ → ℕ → (Conn → Bool) → List (PooledEntry Conn) → Option Conn × List (PooledEntry Conn)
  take_from now max_idle dead [] = (none, [])
  take_from now max_idle dead (entry ∷ entries) =
      let rest = take_from now max_idle dead entries in
      if is_fresh now max_idle entry && not (dead entry.conn)
      then (some entry.conn, entries)
      else rest

  unfoldable pub take : ReusePool Conn → ℕ → (Conn → Bool) → Option Conn × ReusePool Conn
  take pool now dead =
      let (found, entries) = take_from now pool.max_idle dead pool.entries in
      (found, record pool { entries = entries })

  unfoldable pub put : ReusePool Conn → ℕ → (Conn → Bool) → Conn → Bool × ReusePool Conn
  put pool now dead conn =
      if pool.max_size == 0 || dead conn
      then (false, pool)
      else if leb pool.max_size (length pool.entries)
      then (false, pool)
      else (
        true,
        record pool { entries = pool.entries ++ (record { conn = conn; returned_at = now } ∷ []) },
      )

  -- `retain`
  unfoldable pub retain :
      (PooledEntry Conn → Bool) → List (PooledEntry Conn) → List (PooledEntry Conn)
  retain keep [] = []
  retain keep (x ∷ xs) = if keep x then x ∷ retain keep xs else retain keep xs

  unfoldable pub expire : ReusePool Conn → ℕ → ReusePool Conn
  expire pool now = record pool { entries = retain (is_fresh now pool.max_idle) pool.entries }

  unfoldable pub len : ReusePool Conn → ℕ
  len pool = length pool.entries

  unfoldable pub is_empty : ReusePool Conn → Bool
  is_empty pool = len pool == 0
