-- ===== src/Tests/Pool.antt =====
-- The pool of crates/snell-runtime/src/client/pool.rs, run on connections that are numbers.
use snell_rs.Prelude.{ℕ, ◌≡◌, refl, [], ◌∷◌, Bool, none, some, ◌==◌, arith}
use snell_rs.ReusePool.{ReusePool, with_limits, take, take_from, put, expire}
use snell_rs.ReusePool.Laws.{
  Taken, IsBounded, take_op, put_op, expire_op, after, take_oldest, after-IsBounded,
}
use snell_rs.ReusePool.Expiry.{take-expire}

abbrev alive : ℕ → Bool
alive c = c == 99

-- Connections 1, 2 and 3, put at times 0, 40 and 50 into a pool of three.
abbrev pool : ReusePool ℕ
pool = (put (put (put (with_limits 3 100) 0 alive 1).1 40 alive 2).1 50 alive 3).1

abbrev dead2 : ℕ → Bool
dead2 c = c == 2

third : take pool 120 dead2 ≡ (some 3, record pool { entries = [] })
unfolding take take_from put with_limits
third = refl

take_oldest_example : Taken 120 pool.max_idle dead2 pool.entries [] 3
take_oldest_example = take_oldest pool (record pool { entries = [] }) 120 dead2 3 third

nothing : take pool 150 alive ≡ (none, record pool { entries = [] })
unfolding take take_from put with_limits
nothing = refl

after-IsBounded_example :
    IsBounded
      (after pool (put_op 60 alive 4 ∷ take_op 70 alive ∷ put_op 80 alive 5 ∷ expire_op 200 ∷ []))
after-IsBounded_example =
    after-IsBounded pool
      (put_op 60 alive 4 ∷ take_op 70 alive ∷ put_op 80 alive 5 ∷ expire_op 200 ∷ []) pool-IsBounded
  where
    pool-IsBounded : IsBounded pool
    pool-IsBounded = unfold put with_limits in omega arith

take-expire_example : (take (expire pool 120) 120 dead2).0 ≡ (take pool 120 dead2).0
take-expire_example = take-expire pool 120 120 dead2 (omega arith)
