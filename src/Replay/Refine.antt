-- ===== src/Replay/Refine.antt =====
-- `insert` of replay.rs beside the queue of `Queue`, and the invariant of the cache.
use snell_rs.Prelude.{
  ℕ, ◌-◌, ◌≤◌, ◌≡◌, ◌≢◌, refl, sym, ap, ◌∙◌, List, [], ◌∷◌, ◌++◌, false, ◌||◌, length, leb, ◌==◌,
  arith, Bool-cases, inl, inr, length-append,
}
use snell_rs.Prelude.Eq.{Eq, member, remove, member-remove, beq_refl}
use snell_rs.Replay.{ReplayCache, Inner, with_limits, expire, evict, insert}
use snell_rs.Replay.Queue.{salts, young, make_room, Sorted, offer, Distinct}
use snell_rs.Replay.Order.{
  young_all, young-length, Sorted-young, Sorted-append, Sorted-make_room, make_room-length,
  Sorted-later,
}

module _ {Salt : Type 0} ⦃e : Eq Salt⦄ where
  -- The index and the queue hold the same salts, and the queue holds each once.
  pub record Indexed (i : Inner Salt) : Type 0 where
    pub same : (s : Salt) → member i.seen s ≡ member (salts i.order) s
    pub distinct : Distinct i.order

  -- What holds of the cache at the time `now` of the last call.
  pub record IsValid (c : ReplayCache Salt) (now : ℕ) : Type 0 where
    pub indexed : Indexed c.inner
    pub sorted : Sorted now c.inner.order
    pub bounded : length c.inner.order ≤ c.cap

  pub with_limits-IsValid : (cap ttl now : ℕ) → IsValid (with_limits cap ttl) now
  unfolding with_limits member
  with_limits-IsValid cap ttl now = record {
    indexed = record { same = λ s. refl; distinct = tt };
    sorted = tt;
    bounded = omega arith;
  }

  -- The loop drops exactly the entries that are not young, and keeps the index in step.
  expire-young :
      (now ttl : ℕ) (seen : List Salt) (es : List (Salt × ℕ))
      → Sorted now es
      → (expire now ttl seen es).order ≡ young now ttl es
  unfolding expire young
  expire-young now ttl seen [] so = refl
  expire-young now ttl seen ((s, t) ∷ es) so =
      ground (arith, expire-young now ttl (remove seen s) es so.2, young_all now ttl t es so.1)

  -- Without its front the queue is still indexed.
  pop :
      (s : Salt) (t : ℕ) (es : List (Salt × ℕ)) {seen : List Salt}
      → Indexed (record { seen = seen; order = (s, t) ∷ es })
      → Indexed (record { seen = remove seen s; order = es })
  unfolding member
  pop s t es {seen} v = record {
    same = λ b. ground (
      arith,
      member-remove seen s b,
      v.same b,
      v.distinct,
      e.beq_iff s b,
      λ (p : s ≡ b). ap (member (salts es)) p,
    );
    distinct = v.distinct.1;
  }

  expire-Indexed :
      (now ttl : ℕ) (seen : List Salt) (es : List (Salt × ℕ))
      → Indexed (record { seen = seen; order = es })
      → Indexed (expire now ttl seen es)
  unfolding expire
  expire-Indexed now ttl seen [] v = v
  expire-Indexed now ttl seen ((s, t) ∷ es) v = elim (Bool-cases (leb ttl (now - t))) [
    | inl old ↦ rw old (expire-Indexed now ttl (remove seen s) es (pop s t es v))
    | inr young ↦ rw young v
  ]

  salts-append :
      (es : List (Salt × ℕ)) (s b : Salt) (t : ℕ)
      → member (salts (es ++ ((s, t) ∷ []))) b ≡ member (salts es) b || e.beq s b
  unfolding member
  salts-append [] s b t = ground arith
  salts-append ((x, u) ∷ es) s b t = ground (arith, salts-append es s b t)

  Distinct-append :
      (es : List (Salt × ℕ)) (s : Salt) (t : ℕ)
      → Distinct es
      → member (salts es) s ≡ false
      → Distinct (es ++ ((s, t) ∷ []))
  unfolding member
  Distinct-append [] s t d m = (refl, tt)
  Distinct-append ((x, u) ∷ es) s t d m = ground (
    arith,
    salts-append es s x t,
    Distinct-append es s t d.1,
    e.beq_iff s x,
    beq_refl s,
    λ (p : s ≡ x). ap (λ y. e.beq y s) p,
  )

  evict-order :
      (cap : ℕ) (seen : List Salt) (es : List (Salt × ℕ))
      → (evict cap seen es).order ≡ make_room cap es
  unfolding evict make_room
  evict-order cap seen [] = refl
  evict-order cap seen ((x, u) ∷ es) = ground arith

  -- A fresh salt at the end of the queue, and in the index.
  append-Indexed :
      (seen : List Salt) (es : List (Salt × ℕ)) (s : Salt) (now : ℕ)
      → ((b : Salt) → member seen b ≡ e.beq s b || member (salts es) b)
      → Distinct es
      → member (salts es) s ≡ false
      → Indexed (record { seen = seen; order = es ++ ((s, now) ∷ []) })
  append-Indexed seen es s now same d m = record {
    same = λ b. ground (arith, same b, salts-append es s b now);
    distinct = Distinct-append es s now d m;
  }

  -- The oldest goes out of the index and the queue, and the fresh salt is still in the index.
  evicted_same :
      (s x b : Salt) (seen rest : List Salt)
      → ((b : Salt) → member seen b ≡ member (x ∷ rest) b)
      → member rest x ≡ false
      → member (x ∷ rest) s ≡ false
      → member (remove (s ∷ seen) x) b ≡ e.beq s b || member rest b
  unfolding member
  evicted_same s x b seen rest same d m = ground (
    arith,
    member-remove (s ∷ seen) x b,
    same b,
    d,
    m,
    e.beq_iff s b,
    e.beq_iff x b,
    e.beq_iff x s,
    λ (p : x ≡ b). ap (member rest) p,
  )

  -- A fresh salt is put into the index first, and the oldest goes out of both.
  push-Indexed :
      (cap : ℕ) (seen : List Salt) (es : List (Salt × ℕ)) (s : Salt) (now : ℕ)
      → Indexed (record { seen = seen; order = es })
      → member seen s ≡ false
      → let kept = evict cap (s ∷ seen) es in
        Indexed (record { seen = kept.seen; order = kept.order ++ ((s, now) ∷ []) })
  unfolding evict
  push-Indexed cap seen [] s now v m =
      append-Indexed (s ∷ seen) [] s now (λ b. unfold member in ground (arith, v.same b)) tt
        (unfold member in refl)
  push-Indexed cap seen ((x, u) ∷ es) s now v m = elim (Bool-cases (length ((x, u) ∷ es) == cap)) [
    | inl full ↦ rw full (
        append-Indexed (remove (s ∷ seen) x) es s now
          (λ b. evicted_same s x b seen (salts es) v.same v.distinct.0 absent) v.distinct.1
          (unfold member in ground (arith, absent)))
    | inr room ↦ rw room (
        append-Indexed (s ∷ seen) ((x, u) ∷ es) s now
          (λ b. unfold member in ground (arith, v.same b)) v.distinct absent)
  ]
    where
      absent : member (x ∷ salts es) s ≡ false
      absent = sym (v.same s) ∙ m

  -- On a valid cache with a capacity that is not 0, `insert` answers as the abstract queue `offer`
  -- does and leaves the queue that it leaves: entries as old as the TTL are dropped, a salt that
  -- is left is refused, and any other goes to the end, where the oldest makes room for it if the
  -- queue is full.
  pub insert_refines :
      (c : ReplayCache Salt) (s : Salt) (last now : ℕ)
      → IsValid c last
      → last ≤ now
      → c.cap ≢ 0
      → ((insert c s now).0, (insert c s now).1.inner.order) ≡ offer c.cap c.ttl c.inner.order s now
  unfolding insert offer
  insert_refines c s last now v h ne = ground (
    arith,
    expire-young now c.ttl seen order (Sorted-later last now order h v.sorted),
    (expire-Indexed now c.ttl seen order v.indexed).same s,
    evict-order c.cap (s ∷ (expire now c.ttl seen order).seen) (expire now c.ttl seen order).order,
  )
    where
      open c.inner use {seen, order}

  -- `insert` at a time that is not before the last call keeps a valid cache valid: the index and
  -- the queue hold the same salts, each once, oldest first and at most as many as the capacity.
  pub insert-IsValid :
      (c : ReplayCache Salt) (s : Salt) (last now : ℕ)
      → IsValid c last
      → last ≤ now
      → IsValid (insert c s now).1 now
  unfolding insert
  insert-IsValid c s last now v h = elim (Bool-cases (c.cap == 0)) [
    | inl off ↦ rw off (record { indexed = v.indexed; sorted = later; bounded = v.bounded })
    | inr on ↦ elim (Bool-cases (member live.seen s)) [
      | inl old ↦
          rw (on, old)
            (record { indexed = live_indexed; sorted = live_sorted; bounded = live_bounded })
      | inr fresh ↦
          rw (on, fresh)
            (record {
              indexed = push-Indexed c.cap live.seen live.order s now live_indexed fresh;
              sorted = rw (evict-order c.cap (s ∷ live.seen) live.order) (
                  Sorted-append now (make_room c.cap live.order) s
                    (Sorted-make_room now c.cap live.order live_sorted));
              bounded = ground (
                arith,
                evict-order c.cap (s ∷ live.seen) live.order,
                make_room-length c.cap live.order,
                live_bounded,
                length-append (evict c.cap (s ∷ live.seen) live.order).order ((s, now) ∷ []),
              );
            })
    ]
  ]
    where
      live : Inner Salt
      live = expire now c.ttl c.inner.seen c.inner.order

      later : Sorted now c.inner.order
      later = Sorted-later last now c.inner.order h v.sorted

      live-eq : live.order ≡ young now c.ttl c.inner.order
      live-eq = expire-young now c.ttl c.inner.seen c.inner.order later

      live_indexed : Indexed live
      live_indexed = expire-Indexed now c.ttl c.inner.seen c.inner.order v.indexed

      live_sorted : Sorted now live.order
      live_sorted = rw live-eq (Sorted-young now c.ttl c.inner.order later)

      live_bounded : length live.order ≤ c.cap
      live_bounded = rw live-eq (omega (arith, young-length now c.ttl c.inner.order, v.bounded))
