-- ===== src/Replay/NoReplay.antt =====
-- The cache of replay.rs between two offers of the same salt.
use snell_rs.Prelude.{
  ℕ, ◌-◌, ◌+◌, ◌≤◌, ◌<◌, ◌≡◌, ◌≢◌, ◌⊎◌, inl, inr, refl, ap, ◌∙◌, List, [], ◌∷◌, ◌++◌, Bool, true,
  length, arith, Bool-cases, length-append,
}
use snell_rs.Prelude.Eq.{Eq, member}
use snell_rs.Replay.{accepted, replay_duplicate, ReplayCache, insert}
use snell_rs.Replay.Queue.{salts, young, make_room, offer}
use snell_rs.Replay.Refine.{IsValid, insert_refines, insert-IsValid}
use snell_rs.Replay.Order.{young-length}

module _ {Salt : Type 0} ⦃e : Eq Salt⦄ where
  -- The queue has the entry `(s, t)`, with at most `k` entries behind it.
  abbrev Holds : ℕ → Salt → ℕ → List (Salt × ℕ) → Type 0
  Holds k s t [] = ⊥
  Holds k s t ((x, u) ∷ es) = ((x ≡ s) × (u ≡ t) × (length es ≤ k)) ⊎ Holds k s t es

  Holds-young :
      (now ttl k : ℕ) (s : Salt) (t : ℕ) (es : List (Salt × ℕ))
      → Holds k s t es
      → now - t < ttl
      → Holds k s t (young now ttl es)
  unfolding young
  Holds-young now ttl k s t [] h y = h
  Holds-young now ttl k s t ((x, u) ∷ es) (inl here) y = ground (arith, young-length now ttl es)
  Holds-young now ttl k s t ((x, u) ∷ es) (inr later) y =
      ground (arith, Holds-young now ttl k s t es later y)

  Holds-make_room :
      (cap k : ℕ) (s : Salt) (t : ℕ) (es : List (Salt × ℕ))
      → Holds k s t es
      → k + 1 < cap
      → Holds k s t (make_room cap es)
  unfolding make_room
  Holds-make_room cap k s t [] h room = h
  Holds-make_room cap k s t ((x, u) ∷ es) (inl here) room = ground arith
  Holds-make_room cap k s t ((x, u) ∷ es) (inr later) room = ground arith

  Holds-append :
      (k : ℕ) (s : Salt) (t : ℕ) (es : List (Salt × ℕ)) (x : Salt) (u : ℕ)
      → Holds k s t es
      → Holds (k + 1) s t (es ++ ((x, u) ∷ []))
  Holds-append k s t [] x u h = absurd h
  Holds-append k s t ((y, v) ∷ es) x u (inl here) =
      inl (here.0, here.1, omega (arith, length-append es ((x, u) ∷ [])))
  Holds-append k s t ((y, v) ∷ es) x u (inr later) = inr (Holds-append k s t es x u later)

  Holds-last : (s : Salt) (t : ℕ) (es : List (Salt × ℕ)) → Holds 0 s t (es ++ ((s, t) ∷ []))
  Holds-last s t [] = inl (refl, refl, omega arith)
  Holds-last s t ((y, v) ∷ es) = inr (Holds-last s t es)

  member-Holds :
      (k : ℕ) (s : Salt) (t : ℕ) (es : List (Salt × ℕ))
      → Holds k s t es
      → member (salts es) s ≡ true
  unfolding member
  member-Holds k s t [] h = absurd h
  member-Holds k s t ((x, u) ∷ es) (inl here) = ground (arith, (e.beq_iff x s).1 here.0)
  member-Holds k s t ((x, u) ∷ es) (inr later) = ground (arith, member-Holds k s t es later)

  Holds-more :
      (k j : ℕ) (s : Salt) (t : ℕ) (es : List (Salt × ℕ)) → k ≤ j → Holds k s t es → Holds j s t es
  Holds-more k j s t [] le h = h
  Holds-more k j s t ((x, u) ∷ es) le (inl here) = inl (here.0, here.1, omega arith)
  Holds-more k j s t ((x, u) ∷ es) le (inr later) = inr (Holds-more k j s t es le later)

  -- An offer keeps an entry that is young, and at most one entry comes behind it.
  Holds-offer :
      (cap ttl k : ℕ) (s : Salt) (t : ℕ) (es : List (Salt × ℕ)) (x : Salt) (u : ℕ)
      → Holds k s t es
      → u - t < ttl
      → k + 1 < cap
      → Holds (k + 1) s t (offer cap ttl es x u).1
  unfolding offer
  Holds-offer cap ttl k s t es x u h y room =
      elim (Bool-cases (member (salts (young u ttl es)) x)) [
        | inl old ↦ rw old (Holds-more k (k + 1) s t (young u ttl es) (omega arith) kept)
        | inr new ↦ rw new (
            Holds-append k s t (make_room cap (young u ttl es)) x u
              (Holds-make_room cap k s t (young u ttl es) kept room))
      ]
    where
      kept : Holds k s t (young u ttl es)
      kept = Holds-young u ttl k s t es h y

  -- The limits do not change.
  insert_limits :
      (c : ReplayCache Salt) (s : Salt) (now : ℕ)
      → ((insert c s now).1.cap ≡ c.cap) × ((insert c s now).1.ttl ≡ c.ttl)
  unfolding insert
  insert_limits c s now = ground arith

  -- Salts that come in one after the other, each with its time.
  pub insert_all : ReplayCache Salt → List (Salt × ℕ) → ReplayCache Salt
  insert_all c [] = c
  insert_all c ((x, u) ∷ xs) = insert_all (insert c x u).1 xs

  -- The times run from `last` to `now` without falling.
  abbrev pub Between : ℕ → List (Salt × ℕ) → ℕ → Type 0
  Between last [] now = last ≤ now
  Between last ((x, u) ∷ xs) now = (last ≤ u) × Between u xs now

  Between-le : (last : ℕ) (xs : List (Salt × ℕ)) (now : ℕ) → Between last xs now → last ≤ now
  Between-le last [] now h = h
  Between-le last ((x, u) ∷ xs) now h = omega (arith, Between-le u xs now h.1)

  refuses_held :
      (c : ReplayCache Salt) (s : Salt) (t k last : ℕ) (xs : List (Salt × ℕ)) (now : ℕ)
      → IsValid c last
      → Holds k s t c.inner.order
      → Between last xs now
      → now - t < c.ttl
      → k + length xs < c.cap
      → (insert (insert_all c xs) s now).0 ≡ replay_duplicate
  unfolding insert_all
  refuses_held c s t k last [] now v h b y room =
      ap (λ p. p.0) (insert_refines c s last now v b (omega arith)) ∙ offer_old
    where
      found : member (salts (young now c.ttl c.inner.order)) s ≡ true
      found = member-Holds k s t _ (Holds-young now c.ttl k s t c.inner.order h y)

      offer_old : (offer c.cap c.ttl c.inner.order s now).0 ≡ replay_duplicate
      offer_old = unfold offer in rw found
  refuses_held c s t k last ((x, u) ∷ xs) now v h b y room =
      refuses_held (insert c x u).1 s t (k + 1) u xs now (insert-IsValid c x last u v b.0)
        (rw (ap (λ p. p.1) (insert_refines c x last u v b.0 (omega arith))) (
          Holds-offer c.cap c.ttl k s t c.inner.order x u h (omega (arith, Between-le u xs now b.1))
            (omega arith)))
        b.1 (omega (arith, insert_limits c x u)) (omega (arith, insert_limits c x u))

  accepted-Holds :
      (c : ReplayCache Salt) (s : Salt) (last t : ℕ)
      → IsValid c last
      → last ≤ t
      → c.cap ≢ 0
      → (insert c s t).0 ≡ accepted
      → Holds 0 s t (insert c s t).1.inner.order
  accepted-Holds c s last t v h ne a = rw (ap (λ p. p.1) refined) (elim (Bool-cases old) [
    | inl yes_old ↦ absurd (cc (ap (λ p. p.0) refined, offer_old yes_old))
    | inr new ↦ unfold offer in rw new (Holds-last s t (make_room c.cap live))
  ])
    where
      live : List (Salt × ℕ)
      live = young t c.ttl c.inner.order

      old : Bool
      old = member (salts live) s

      refined :
          ((insert c s t).0, (insert c s t).1.inner.order) ≡ offer c.cap c.ttl c.inner.order s t
      refined = insert_refines c s last t v h ne

      offer_old : old ≡ true → (offer c.cap c.ttl c.inner.order s t).0 ≡ replay_duplicate
      offer_old p = unfold offer in rw p

  -- A salt that `insert` accepted at `t` into a valid cache is refused as a duplicate at every
  -- later time less than the TTL after `t`, whatever salts were offered in between, if they were
  -- fewer than the capacity and the clock did not go back.
  pub no_replay :
      (c : ReplayCache Salt) (s : Salt) (last t : ℕ) (xs : List (Salt × ℕ)) (now : ℕ)
      → IsValid c last
      → last ≤ t
      → (insert c s t).0 ≡ accepted
      → Between t xs now
      → now - t < c.ttl
      → length xs < c.cap
      → (insert (insert_all (insert c s t).1 xs) s now).0 ≡ replay_duplicate
  no_replay c s last t xs now v h a b y room =
      refuses_held (insert c s t).1 s t 0 t xs now (insert-IsValid c s last t v h)
        (accepted-Holds c s last t v h (λ z. omega arith) a) b (omega (arith, insert_limits c s t))
        (omega (arith, insert_limits c s t))
