-- ===== src/Record/Reservation/Use.antt =====
-- A reservation of buffer.rs while its payload is written, before it is sealed or dropped.
use snell_rs.Prelude.{
  ℕ, ◌+◌, ◌-◌, ◌≤◌, ◌≡◌, refl, sym, ap, ◌∙◌, [], ◌++◌, length, take, drop, replicate, arith,
  length-append, length-take, take-append_le, take-append-drop, length-replicate, leb, inl, inr,
  Bool-cases, append-nil,
}
use mathlib.Core.Path.{subst}
use snell_rs.Kernel.Error.{ok, >>=-eq-ok}
use snell_rs.Kernel.Slice.{Bytes}
use snell_rs.Buffer.{Buffer, push, zero_extend_to, extend_zeroed, write_range}
use snell_rs.Record.Reservation.{Slot, Seal, Reservation, payload_mut, unwritten_start}

module _ {Enc Rec : Type 0} ⦃e : Seal Enc Rec⦄ where
  -- `payload_mut`, with some bytes that the caller writes in its slice, from `at` on.
  pub data Use : Reservation Enc Rec → Reservation Enc Rec → Type 0 where
    mutated :
        (r r' : Reservation Enc Rec) (at : ℕ) (bytes : Bytes)
        → payload_mut r ≡ ok r'
        → unwritten_start r ≤ at
        → at + length bytes ≤ r.slot.payload_start + r.slot.max_payload
        → Use r (record r' { buf = write_range r'.buf at bytes })

  pub data Uses : Reservation Enc Rec → Reservation Enc Rec → Type 0 where
    unused : (r : Reservation Enc Rec) → Uses r r
    used : {r s t : Reservation Enc Rec} → Uses r s → Use s t → Uses r t

  -- All in front of the record is as it was.
  pub record Kept (r s : Reservation Enc Rec) : Type 0 where
    pub encoder : s.encoder ≡ r.encoder
    pub slot : s.slot ≡ r.slot
    pub start : s.buf.start ≡ r.buf.start
    pub front : take r.slot.record_start s.buf.storage ≡ take r.slot.record_start r.buf.storage
    pub whole : r.slot.record_start ≤ length s.buf.storage

ok-eq {ℓ} : {A : Type ℓ} {a b : A} → ok a ≡ ok b → a ≡ b
ok-eq e = cc

extend_zeroed-eq-ok :
    (b b' : Buffer) (n : ℕ) → extend_zeroed b n ≡ ok b' → push b (replicate n 0) ≡ b'
unfolding extend_zeroed
extend_zeroed-eq-ok b b' n h = ground arith

zero_extend_to-eq-ok :
    (b b' : Buffer) (end : ℕ)
    → zero_extend_to b end ≡ ok b'
    → (tail : Bytes) × (push b tail ≡ b') × (end ≤ length (b.storage ++ tail))
unfolding zero_extend_to
zero_extend_to-eq-ok b b' end h = elim (Bool-cases (leb (length b.storage) end)) [
  | inl short ↦
      let n : ℕ = end - length b.storage in
      (
        replicate n 0,
        extend_zeroed-eq-ok b b' n (rw short at h),
        omega
            (arith, length-append b.storage (replicate {A = ℕ} n 0), length-replicate {A = ℕ} n 0),
      )
  | inr long ↦ (
    [],
    ap (λ (t : Bytes). record b { storage = t }) (append-nil b.storage) ∙ ok-eq (rw long at h),
    ground (arith, length-append b.storage []),
  )
]

take-write_range :
    (b : Buffer) (at n : ℕ) (bytes : Bytes)
    → n ≤ at
    → at ≤ length b.storage
    → take n (write_range b at bytes).storage ≡ take n b.storage
take-write_range b at n bytes lo hi =
    let m : n ≤ length (take at b.storage) = omega (arith, length-take at b.storage) in
    take-append_le n (take at b.storage) (bytes ++ drop (at + length bytes) b.storage) m
    ∙ sym (take-append_le n (take at b.storage) (drop at b.storage) m)
    ∙ ap (take n) (take-append-drop at b.storage)

length-write_range :
    (b : Buffer) (at : ℕ) (bytes : Bytes)
    → at ≤ length b.storage
    → at ≤ length (write_range b at bytes).storage
length-write_range b at bytes h = omega (
  arith,
  length-append (take at b.storage) (bytes ++ drop (at + length bytes) b.storage),
  length-take at b.storage,
)

module _ {Enc Rec : Type 0} ⦃e : Seal Enc Rec⦄ where
  payload_mut-eq-ok :
      (s t : Reservation Enc Rec)
      → payload_mut s ≡ ok t
      → (tail : Bytes) × (record s { buf = push s.buf tail } ≡ t)
        × (s.slot.payload_start + s.slot.max_payload ≤ length (s.buf.storage ++ tail))
  unfolding payload_mut
  payload_mut-eq-ok s t h =
      let end : ℕ = s.slot.payload_start + s.slot.max_payload in
      let (b, e, same) = >>=-eq-ok (zero_extend_to s.buf end) _ h in
      let (tail, grown, room) = zero_extend_to-eq-ok s.buf b end e in
      (tail, ap (λ (q : Buffer). record s { buf = q }) grown ∙ ok-eq same, room)

  Use-Kept :
      (r s t : Reservation Enc Rec)
      → r.slot.record_start ≤ r.slot.payload_start
      → Kept r s
      → Use s t
      → Kept r t
  unfolding unwritten_start
  Use-Kept r s t behind k (mutated _ s' at bytes h lo hi) =
      let (tail, same, room) = payload_mut-eq-ok s s' h in
      let n = r.slot.record_start in
      let b = push s.buf tail in
      let before : n ≤ at = omega (
        arith,
        ap (λ (q : Slot). q.record_start) k.slot,
        ap (λ (q : Slot). q.payload_start) k.slot,
      ) in
      subst (λ (q : Reservation Enc Rec). Kept r (record q { buf = write_range q.buf at bytes }))
        same
        (record {
          encoder = k.encoder;
          slot = k.slot;
          start = k.start;
          front =
              take-write_range b at n bytes before (omega arith)
              ∙ take-append_le n s.buf.storage tail k.whole
              ∙ k.front;
          whole = omega (arith, length-write_range b at bytes (omega arith));
        })

  pub Uses-Kept :
      (r s : Reservation Enc Rec)
      → r.slot.record_start ≤ r.slot.payload_start
      → r.slot.record_start ≤ length r.buf.storage
      → Uses r s
      → Kept r s
  Uses-Kept r s behind inside (unused _) = record {
    encoder = refl;
    slot = refl;
    start = refl;
    front = refl;
    whole = inside;
  }
  Uses-Kept r t behind inside (used {s = s} before next) =
      Use-Kept r s t behind (Uses-Kept r s behind inside before) next
