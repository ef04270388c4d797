-- ===== src/ReusePool/Expiry.antt =====
-- `ReusePool::expire` of pool.rs, the maintenance tick.
use snell_rs.Prelude.{ℕ, ◌≤◌, ◌≡◌, refl, List, [], ◌∷◌, Bool, false, arith, Bool-cases, inl, inr}
use snell_rs.ReusePool.{PooledEntry, ReusePool, take_from, take, retain, expire, is_fresh}

module _ {Conn : Type 0} where
  stays_stale :
      (now later max_idle : ℕ) (x : PooledEntry Conn)
      → now ≤ later
      → is_fresh now max_idle x ≡ false
      → is_fresh later max_idle x ≡ false
  stays_stale now later max_idle x h stale = ground arith

  take_from-retain :
      (now later max_idle : ℕ) (dead : Conn → Bool) (xs : List (PooledEntry Conn))
      → now ≤ later
      → (take_from later max_idle dead (retain (is_fresh now max_idle) xs)).0
        ≡ (take_from later max_idle dead xs).0
  unfolding take_from retain
  take_from-retain now later max_idle dead [] h = refl
  take_from-retain now later max_idle dead (x ∷ xs) h =
      let rest = take_from-retain now later max_idle dead xs h in
      elim (Bool-cases (is_fresh now max_idle x)) [
        | inl fresh ↦ rw fresh (ground (arith, rest))
        | inr stale ↦ rw stale (rw (stays_stale now later max_idle x h stale) rest)
      ]

  -- The maintenance tick changes nothing for a session: `take` at a time not before the tick finds
  -- the same connection, or none, in the expired pool as in the pool before.
  pub take-expire :
      (pool : ReusePool Conn) (now later : ℕ) (dead : Conn → Bool)
      → now ≤ later
      → (take (expire pool now) later dead).0 ≡ (take pool later dead).0
  unfolding take expire
  take-expire pool now later dead h = take_from-retain now later pool.max_idle dead pool.entries h
