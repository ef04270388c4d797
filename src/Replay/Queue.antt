-- ===== src/Replay/Queue.antt =====
-- The cache of replay.rs without its index: a queue of salts and their times.
use snell_rs.Prelude.{
  ℕ, ◌-◌, ◌≤◌, ◌≡◌, List, [], ◌∷◌, ◌++◌, false, length, ltb, ◌==◌, if◌then◌else◌,
}
use snell_rs.Prelude.Eq.{Eq, member}
use snell_rs.Replay.{Outcome, accepted, replay_duplicate}

module _ {Salt : Type 0} where
  abbrev pub salts : List (Salt × ℕ) → List Salt
  salts [] = []
  salts ((s, t) ∷ es) = s ∷ salts es

  -- The entries younger than `ttl`.
  unfoldable pub young : ℕ → ℕ → List (Salt × ℕ) → List (Salt × ℕ)
  young now ttl [] = []
  young now ttl ((s, t) ∷ es) =
      if ltb (now - t) ttl then (s, t) ∷ young now ttl es else young now ttl es

  -- Room for one more entry.
  unfoldable pub make_room : ℕ → List (Salt × ℕ) → List (Salt × ℕ)
  make_room cap [] = []
  make_room cap (x ∷ es) = if length (x ∷ es) == cap then es else x ∷ es

  abbrev pub AllFrom : ℕ → List (Salt × ℕ) → Type 0
  AllFrom t [] = Unit {0}
  AllFrom t ((s, u) ∷ es) = (t ≤ u) × AllFrom t es

  -- Times do not fall along the queue, and do not pass `now`.
  abbrev pub Sorted : ℕ → List (Salt × ℕ) → Type 0
  Sorted now [] = Unit {0}
  Sorted now ((s, t) ∷ es) = (t ≤ now) × AllFrom t es × Sorted now es

module _ {Salt : Type 0} ⦃e : Eq Salt⦄ where
  unfoldable pub offer : ℕ → ℕ → List (Salt × ℕ) → Salt → ℕ → Outcome × List (Salt × ℕ)
  offer cap ttl es salt now =
      let live = young now ttl es in
      if member (salts live) salt
      then (replay_duplicate, live)
      else (accepted, make_room cap live ++ ((salt, now) ∷ []))

  abbrev pub Distinct : List (Salt × ℕ) → Type 0
  Distinct [] = Unit {0}
  Distinct ((s, t) ∷ es) = (member (salts es) s ≡ false) × Distinct es
