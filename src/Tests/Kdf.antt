-- ===== src/Tests/Kdf.antt =====
-- The gate of crates/snell-runtime/src/kdf.rs, with one permit and one place in the queue.
use snell_rs.Prelude.{◌+◌, ◌≡◌, refl, arith}
use snell_rs.Kdf.{
  KdfLimiter, with_limits, enter, missed, take_place, ask, release, kdf_queue_full, Reaches, here,
  step, entered, tried, asked, ended,
}
use snell_rs.Kdf.Bounds.{IsExact, reached-bounds, refused-full}

-- One call runs, a second waits, and the permit of the first has been handed to the second.
abbrev busy : KdfLimiter
busy = record {
  running = 0;
  queue = 0;
  derivations = 1;
  missed = 0;
  placed = 0;
  waiting = 1;
  assigned = 0;
  leaving = 0;
}

abbrev handed : KdfLimiter
handed = record busy { derivations = 0; waiting = 0; assigned = 1 }

handed_reached : Reaches (with_limits 1 1) handed
unfolding with_limits enter take_place ask release
handed_reached =
    let k0 = with_limits 1 1 in
    let k1 = (enter k0).1 in
    let k2 = (enter k1).1 in
    let k3 = (take_place k2).1 in
    step
      (step (step (step (step (here k0) (entered k0)) (entered k1)) (tried k2 (omega arith)))
        (asked k3 (omega arith)))
      (ended busy (omega arith))

reached-bounds_example : IsExact 1 1 handed
reached-bounds_example = reached-bounds 1 1 handed handed_reached

-- A third call.
abbrev third : KdfLimiter
third = record handed { missed = 1 }

misses : (enter handed).0 ≡ missed
unfolding enter
misses = refl

comes : Reaches (enter handed).1 third
unfolding enter
comes = here third

refuses : (take_place third).0 ≡ kdf_queue_full
unfolding take_place
refuses = refl

refused-full_example :
    (handed.assigned + handed.derivations ≡ 1)
    × (third.placed + third.waiting + third.assigned + third.leaving ≡ 1)
refused-full_example =
    refused-full 1 1 handed third handed_reached misses comes (omega arith) refuses
