-- ===== src/Kdf/Bounds.antt =====
-- The permits and places of the gate of kdf.rs, counted.
use snell_rs.Prelude.{ℕ, ◌+◌, ◌-◌, ◌<◌, ◌≡◌, arith}
use snell_rs.Kdf.{
  KdfLimiter, with_limits, kdf_queue_full, missed, enter, take_place, ask, release, Step, entered,
  tried, asked, resumed, withdrawn, cancelled, given_up, left, ended, Reaches, here, step,
}

-- Each permit is free, handed to a waiter or with a derivation; each place is free or held; and
-- a call waits only while no permit is free.
pub record IsExact (inflight slots : ℕ) (k : KdfLimiter) : Type 0 where
  pub permits : k.running + k.assigned + k.derivations ≡ inflight
  pub places : k.queue + k.placed + k.waiting + k.assigned + k.leaving ≡ slots
  pub fair : 0 < k.waiting → k.running ≡ 0

enter-IsExact :
    (inflight slots : ℕ) (k : KdfLimiter)
    → IsExact inflight slots k
    → IsExact inflight slots (enter k).1
unfolding enter
enter-IsExact inflight slots k v = record {
  permits = ground (arith, v.permits);
  places = ground (arith, v.places);
  fair = λ w. ground (arith, v.fair);
}

take_place-IsExact :
    (inflight slots : ℕ) (k : KdfLimiter)
    → 0 < k.missed
    → IsExact inflight slots k
    → IsExact inflight slots (take_place k).1
unfolding take_place
take_place-IsExact inflight slots k m v = record {
  permits = ground (arith, v.permits);
  places = ground (arith, v.places);
  fair = λ w. ground (arith, v.fair);
}

ask-IsExact :
    (inflight slots : ℕ) (k : KdfLimiter)
    → 0 < k.placed
    → IsExact inflight slots k
    → IsExact inflight slots (ask k).1
unfolding ask
ask-IsExact inflight slots k m v = record {
  permits = ground (arith, v.permits);
  places = ground (arith, v.places);
  fair = λ w. ground (arith, v.fair);
}

-- With one permit on its way back.
release-IsExact :
    (inflight slots : ℕ) (k : KdfLimiter)
    → k.running + k.assigned + k.derivations + 1 ≡ inflight
    → k.queue + k.placed + k.waiting + k.assigned + k.leaving ≡ slots
    → (0 < k.waiting → k.running ≡ 0)
    → IsExact inflight slots (release k)
unfolding release
release-IsExact inflight slots k permits places fair = record {
  permits = ground arith;
  places = ground arith;
  fair = λ w. ground (arith, fair);
}

Step-IsExact :
    (inflight slots : ℕ) {k l : KdfLimiter}
    → Step k l
    → IsExact inflight slots k
    → IsExact inflight slots l
Step-IsExact inflight slots (entered k) v = enter-IsExact inflight slots k v
Step-IsExact inflight slots (tried k m) v = take_place-IsExact inflight slots k m v
Step-IsExact inflight slots (asked k p) v = ask-IsExact inflight slots k p v
Step-IsExact inflight slots (resumed k a) v = record {
  permits = omega (arith, v.permits);
  places = omega (arith, v.places);
  fair = v.fair;
}
Step-IsExact inflight slots (withdrawn k w) v = record {
  permits = v.permits;
  places = omega (arith, v.places);
  fair = v.fair;
}
Step-IsExact inflight slots (cancelled k w) v = record {
  permits = v.permits;
  places = omega (arith, v.places);
  fair = λ _. v.fair w;
}
Step-IsExact inflight slots (given_up k a) v =
    release-IsExact inflight slots (record k { assigned = k.assigned - 1; leaving = k.leaving + 1 })
      (omega (arith, v.permits)) (omega (arith, v.places)) v.fair
Step-IsExact inflight slots (left k h) v = record {
  permits = v.permits;
  places = omega (arith, v.places);
  fair = v.fair;
}
Step-IsExact inflight slots (ended k d) v =
    release-IsExact inflight slots (record k { derivations = k.derivations - 1 })
      (omega (arith, v.permits)) v.places v.fair

Reaches-IsExact :
    (inflight slots : ℕ) {k l : KdfLimiter}
    → Reaches k l
    → IsExact inflight slots k
    → IsExact inflight slots l
Reaches-IsExact inflight slots (here _) v = v
Reaches-IsExact inflight slots (step r s) v =
    Step-IsExact inflight slots s (Reaches-IsExact inflight slots r v)

-- In every state that a new gate reaches, with the accesses of all calls to the semaphores,
-- hand-overs, cancellations and ends of derivations in any order: each permit is free, handed to a
-- waiter that has not been polled yet, or with a derivation; each place of the queue is free or
-- held by a call; and a call waits only while no permit is free.
pub reached-bounds :
    (inflight slots : ℕ) (k : KdfLimiter)
    → Reaches (with_limits inflight slots) k
    → IsExact inflight slots k
unfolding with_limits
reached-bounds inflight slots k r =
    Reaches-IsExact inflight slots r
      (record { permits = omega arith; places = omega arith; fair = λ w. absurd (omega arith) })

-- If a call finds no permit in a state `k` that a new gate reaches, and then, after any steps of
-- others, no place in a later state `l`, then all permits were in use at `k`, with derivations or
-- handed to waiters that have not been polled yet, and all places are held at `l`.
pub refused-full :
    (inflight slots : ℕ) (k l : KdfLimiter)
    → Reaches (with_limits inflight slots) k
    → (enter k).0 ≡ missed
    → Reaches (enter k).1 l
    → 0 < l.missed
    → (take_place l).0 ≡ kdf_queue_full
    → (k.assigned + k.derivations ≡ inflight)
      × (l.placed + l.waiting + l.assigned + l.leaving ≡ slots)
unfolding enter take_place
refused-full inflight slots k l r e more m full =
    let v = reached-bounds inflight slots k r in
    let w = Reaches-IsExact inflight slots more (enter-IsExact inflight slots k v) in
    (ground (arith, v.permits), ground (arith, w.places))
