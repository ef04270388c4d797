-- ===== src/Tests/Replay.antt =====
-- The replay cache of crates/snell-runtime/src/replay.rs, run on salts that are numbers.
use snell_rs.Prelude.{ℕ, ◌≡◌, refl, [], ◌∷◌, arith}
use snell_rs.Prelude.Eq.{nat_eq, member, remove}
use snell_rs.Replay.{ReplayCache, with_limits, expire, evict, insert, accepted, replay_duplicate}
use snell_rs.Replay.Queue.{offer}
use snell_rs.Replay.Refine.{IsValid, with_limits-IsValid, insert_refines, insert-IsValid}
use snell_rs.Replay.NoReplay.{no_replay, insert_all}

abbrev cache : ReplayCache ℕ
cache = with_limits 3 100

-- Salt 7 at time 5.
abbrev held : ReplayCache ℕ
held = (insert cache 7 5).1

held-IsValid : IsValid held 5
held-IsValid = insert-IsValid cache 7 0 5 (with_limits-IsValid 3 100 0) (omega arith)

insert-IsValid_example : IsValid (insert held 8 6).1 6
insert-IsValid_example = insert-IsValid held 8 5 6 held-IsValid (omega arith)

insert_refines_example :
    ((insert held 7 104).0, (insert held 7 104).1.inner.order) ≡ offer 3 100 held.inner.order 7 104
unfolding insert with_limits member expire
insert_refines_example = insert_refines held 7 5 104 held-IsValid (omega arith) (omega arith)

accepted_first : (insert held 8 6).0 ≡ accepted
unfolding insert with_limits expire evict member
accepted_first = refl

expired : (insert held 7 105).0 ≡ accepted
unfolding insert with_limits expire evict member remove
expired = refl

no_replay_example :
    (insert (insert_all (insert held 8 6).1 ((9, 7) ∷ (8, 8) ∷ [])) 8 105).0 ≡ replay_duplicate
unfolding insert with_limits member expire
no_replay_example =
    no_replay held 8 5 6 ((9, 7) ∷ (8, 8) ∷ []) 105 held-IsValid (omega arith) accepted_first
      (omega arith, (omega arith, omega arith)) (omega arith) (omega arith)
