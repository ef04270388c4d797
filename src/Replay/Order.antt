-- ===== src/Replay/Order.antt =====
-- The times and the length of the queue of replay.rs.
use snell_rs.Prelude.{ℕ, ◌-◌, ◌≤◌, ◌<◌, ◌≡◌, ◌≢◌, refl, List, [], ◌∷◌, ◌++◌, length, arith}
use snell_rs.Replay.Queue.{young, make_room, AllFrom, Sorted}

module _ {Salt : Type 0} where
  -- Behind an entry that is young all are.
  pub young_all :
      (now ttl t : ℕ) (es : List (Salt × ℕ)) → AllFrom t es → now - t < ttl → young now ttl es ≡ es
  unfolding young
  young_all now ttl t [] a h = refl
  young_all now ttl t ((s, u) ∷ es) a h = ground (arith, young_all now ttl t es a.1 h)

  pub young-length : (now ttl : ℕ) (es : List (Salt × ℕ)) → length (young now ttl es) ≤ length es
  unfolding young
  young-length now ttl [] = omega arith
  young-length now ttl ((s, t) ∷ es) = ground (arith, young-length now ttl es)

  AllFrom-young :
      (now ttl t : ℕ) (es : List (Salt × ℕ)) → AllFrom t es → AllFrom t (young now ttl es)
  unfolding young
  AllFrom-young now ttl t [] a = tt
  AllFrom-young now ttl t ((s, u) ∷ es) a = ground (arith, AllFrom-young now ttl t es a.1)

  pub Sorted-young :
      (now ttl : ℕ) (es : List (Salt × ℕ)) → Sorted now es → Sorted now (young now ttl es)
  unfolding young
  Sorted-young now ttl [] so = tt
  Sorted-young now ttl ((s, u) ∷ es) so =
      ground (arith, Sorted-young now ttl es so.2, AllFrom-young now ttl u es so.1)

  AllFrom-append :
      (t now : ℕ) (es : List (Salt × ℕ)) (s : Salt)
      → AllFrom t es
      → t ≤ now
      → AllFrom t (es ++ ((s, now) ∷ []))
  AllFrom-append t now [] s a h = (h, tt)
  AllFrom-append t now ((x, u) ∷ es) s a h = (a.0, AllFrom-append t now es s a.1 h)

  pub Sorted-append :
      (now : ℕ) (es : List (Salt × ℕ)) (s : Salt)
      → Sorted now es
      → Sorted now (es ++ ((s, now) ∷ []))
  Sorted-append now [] s so = (omega arith, tt, tt)
  Sorted-append now ((x, u) ∷ es) s so =
      (so.0, AllFrom-append u now es s so.1 so.0, Sorted-append now es s so.2)

  pub Sorted-make_room :
      (now cap : ℕ) (es : List (Salt × ℕ)) → Sorted now es → Sorted now (make_room cap es)
  unfolding make_room
  Sorted-make_room now cap [] so = tt
  Sorted-make_room now cap ((x, u) ∷ es) so = ground arith

  pub make_room-length :
      (cap : ℕ) (es : List (Salt × ℕ)) → cap ≢ 0 → length es ≤ cap → length (make_room cap es) < cap
  unfolding make_room
  make_room-length cap [] ne h = omega arith
  make_room-length cap ((x, u) ∷ es) ne h = ground arith

  pub Sorted-later :
      (now later : ℕ) (es : List (Salt × ℕ)) → now ≤ later → Sorted now es → Sorted later es
  Sorted-later now later [] h so = tt
  Sorted-later now later ((x, u) ∷ es) h so = (omega arith, so.1, Sorted-later now later es h so.2)
