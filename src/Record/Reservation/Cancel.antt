-- ===== src/Record/Reservation/Cancel.antt =====
-- A record of buffer.rs from its reservation to its seal or drop.
use snell_rs.Prelude.{
  ℕ, ◌+◌, ◌-◌, ◌≤◌, ◌≡◌, sym, ap, ◌∙◌, [], ◌++◌, length, take, replicate, ltb, if◌then◌else◌, min,
  arith, length-append, length-replicate, take-append_length, ◌<◌, ◌≢◌, List, ◌∷◌, append-nil,
  append_assoc,
}
use snell_rs.Kernel.Error.{payload_too_large, buffer_too_small, Result, ok, err, ◌>>=◌}
use snell_rs.Kernel.Slice.{Bytes}
use snell_rs.Buffer.{
  Buffer, filled, len, push, truncate, extend_zeroed, reserve_record, extend_from_slice,
}
use snell_rs.Buffer.Invariant.{
  IsValid, settled, settled-IsValid, filled-settled, settled_room, spare_capacity_mut_lem,
  push-IsValid, extend_from_slice_lem,
}
use snell_rs.Record.{ready, reserving}
use snell_rs.Record.Reservation.{Seal, Reservation, seal, total, refuse, drop_reservation}

-- A record of `total` bytes, of which `fixed` are committed with zeros, or the reason why not.
pub reserve_record_lem :
    (b : Buffer) (total fixed : ℕ)
    → IsValid b
    → fixed ≤ total
    → reserve_record b total fixed ≡ (
        if ltb b.max (len b + total)
        then err payload_too_large
        else if ltb (min b.capacity b.max) (len b + total)
        then err (buffer_too_small (len b + total) b.capacity)
        else ok (length (settled b total).storage, push (settled b total) (replicate fixed 0)))
unfolding reserve_record extend_zeroed
reserve_record_lem b total fixed v h =
    ground (arith, spare_capacity_mut_lem b total v, settled_room b total v)

-- What a reservation guarantees of its buffer.
pub record Reserved (b : Buffer) (total fixed start : ℕ) (b' : Buffer) : Type 0 where
  pub valid : IsValid b'
  pub room : length b'.storage + (total - fixed) ≤ min b'.capacity b'.max
  pub stored : b'.storage ≡ take start b'.storage ++ replicate fixed 0
  pub inside : b'.start ≤ start × start ≤ length b'.storage
  pub before : filled (record b' { storage = take start b'.storage }) ≡ filled b

settled-Reserved :
    (b : Buffer) (total fixed : ℕ)
    → IsValid b
    → fixed ≤ total
    → len b + total ≤ min b.capacity b.max
    → Reserved b total fixed
        (length (settled b total).storage)
        (push (settled b total) (replicate fixed 0))
settled-Reserved b total fixed v h fits = record {
  valid =
      push-IsValid (settled b total) (replicate fixed 0) (settled-IsValid b total v)
        (omega (arith, settled_room b total v fits, length-replicate {A = ℕ} fixed 0));
  room = omega (
    arith,
    settled_room b total v fits,
    length-replicate {A = ℕ} fixed 0,
    length-append (settled b total).storage (replicate {A = ℕ} fixed 0),
  );
  stored =
      ap (λ t. t ++ replicate fixed 0)
        (sym (take-append_length (settled b total).storage (replicate fixed 0)));
  inside = (
    (settled-IsValid b total v).live,
    omega (arith, length-append (settled b total).storage (replicate {A = ℕ} fixed 0)),
  );
  before =
      rw (take-append_length (settled b total).storage (replicate {A = ℕ} fixed 0))
        (filled-settled b total);
}

pub reserve_record-Reserved :
    (b b' : Buffer) (total fixed start : ℕ)
    → IsValid b
    → fixed ≤ total
    → reserve_record b total fixed ≡ ok (start, b')
    → Reserved b total fixed start b'
reserve_record-Reserved b b' total fixed start v h e =
    ground (arith, reserve_record_lem b total fixed v h, settled-Reserved b total fixed v h)

push_fits :
    (b : Buffer) (bytes : Bytes)
    → IsValid b
    → length b.storage + length bytes ≤ min b.capacity b.max
    → bytes ≢ []
    → extend_from_slice b bytes ≡ ok (push b bytes)
unfolding len
push_fits b bytes v fits ne = ground (arith, extend_from_slice_lem b bytes v ne, v.live)

pub extend_fits :
    (b : Buffer) (bytes : Bytes)
    → IsValid b
    → length b.storage + length bytes ≤ min b.capacity b.max
    → extend_from_slice b bytes ≡ ok (push b bytes)
unfolding extend_from_slice
extend_fits b [] v fits =
    ap (λ (t : Bytes). ok (record b { storage = t })) (sym (append-nil b.storage))
extend_fits b (x ∷ bytes) v fits = push_fits b (x ∷ bytes) v fits (λ e. cc)

-- One call of `extend_from_slice` after the other.
abbrev pub extend_all : Buffer → List Bytes → Result Buffer
extend_all b [] = ok b
extend_all b (bytes ∷ rest) = extend_from_slice b bytes >>= λ b'. extend_all b' rest

abbrev pub joined : List Bytes → Bytes
joined [] = []
joined (bytes ∷ rest) = bytes ++ joined rest

extend_all_fits :
    (b : Buffer) (chunks : List Bytes)
    → IsValid b
    → length b.storage + length (joined chunks) ≤ min b.capacity b.max
    → extend_all b chunks ≡ ok (push b (joined chunks))
extend_all_fits b [] v fits =
    ap (λ (t : Bytes). ok (record b { storage = t })) (sym (append-nil b.storage))
extend_all_fits b (bytes ∷ rest) v fits =
    let sizes = length-append bytes (joined rest) in
    let size = length-append b.storage bytes in
    let next =
      extend_all_fits (push b bytes) rest (push-IsValid b bytes v (omega (arith, sizes)))
        (omega (arith, sizes, size)) in
    rw (extend_fits b bytes v (omega (arith, sizes))) (
      next
      ∙ ap (λ (t : Bytes). ok (record b { storage = t }))
          (append_assoc b.storage bytes (joined rest)))

-- After `reserve_record` in a valid buffer, any calls of `extend_from_slice` one after the other,
-- empty slices included, that together with the bytes already committed stay within the reserved
-- size all succeed and do not move what is stored: the bytes stand one behind the other behind the
-- reservation.
pub reserve_record-extend :
    (b b' : Buffer) (total fixed start : ℕ) (chunks : List Bytes)
    → IsValid b
    → fixed + length (joined chunks) ≤ total
    → reserve_record b total fixed ≡ ok (start, b')
    → extend_all b' chunks ≡ ok (push b' (joined chunks))
reserve_record-extend b b' total fixed start chunks v h e =
    let r = reserve_record-Reserved b b' total fixed start v (omega arith) e in
    extend_all_fits b' chunks r.valid (omega (arith, r.room))

truncate_lem :
    (b : Buffer) (end : ℕ)
    → b.start ≤ end
    → end ≤ length b.storage
    → truncate b end ≡ ok (record b { storage = take end b.storage })
unfolding truncate
truncate_lem b end lo hi = ground arith

module _ {Enc Rec : Type 0} ⦃e : Seal Enc Rec⦄ where
  pub drop_reservation_lem :
      (r : Reservation Enc Rec)
      → r.buf.start ≤ r.slot.record_start
      → r.slot.record_start ≤ length r.buf.storage
      → e.state r.encoder ≡ reserving
      → drop_reservation r ≡ (
        e.set_state r.encoder ready,
        record r.buf { storage = take r.slot.record_start r.buf.storage },
      )
  unfolding drop_reservation
  drop_reservation_lem r lo hi held =
      rw (drop_reservation, held, truncate_lem r.buf r.slot.record_start lo hi)

  -- More than the record has room for is not sealed, and the record is cancelled.
  pub seal-too_large :
      (r : Reservation Enc Rec) (written : ℕ)
      → r.slot.max_payload < r.slot.prefix_len + written
      → seal r written ≡ (err payload_too_large, drop_reservation r)
  unfolding seal total refuse
  seal-too_large r written h = ground arith
