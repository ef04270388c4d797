-- ===== src/V4/Encoder/Reserved.antt =====
-- `reserve` of codec/v4/mod.rs: the layout of a record in the buffer.
use snell_rs.Prelude.{
  ℕ, suc, zero, ◌+◌, ◌-◌, ◌≤◌, ◌≡◌, refl, sym, ap, ◌∙◌, List, [], ◌∷◌, ◌++◌, length, take,
  replicate, arith, length-append, append_assoc, if◌then◌else◌, min, length-replicate, inl, inr,
  Bool-cases, length-take_of_le,
}
use native.Mathlib.Nat.{zero-add, suc-add}
use snell_rs.Kernel.Error.{ok, >>=-eq-ok}
use snell_rs.Kernel.Consts.{header_cipher_len, tag_len, max_packet_size, salt_len}
use snell_rs.Kernel.Slice.{Bytes, copy_from_slice-eq}
use snell_rs.Chunk.{record_budget, salt_sent}
use snell_rs.Buffer.{Buffer, filled, push, reserve_record, extend_from_slice}
use snell_rs.Buffer.Invariant.{IsValid, push-IsValid}
use snell_rs.Buffer.Ranges.{range_lem, write_range_lem}
use snell_rs.Record.{RecordSize, payload_len, ensure_ready}
use snell_rs.Record.Reservation.{Seal, Reservation, hold}
use snell_rs.Record.Accounting.{payload_len_bounds}
use snell_rs.Record.Reservation.Cancel.{reserve_record-Reserved, extend_fits}
use snell_rs.V4.Encoder.{
  V4Encoder, V4Record, salt_room, padding_for, put_salt, lay_out, reserve, limit_of,
}

pub replicate-add : (m n : ℕ) (b : ℕ) → replicate (m + n) b ≡ replicate m b ++ replicate n b
replicate-add zero n b = rw zero-add
replicate-add (suc m) n b = rw suc-add (ap (λ (t : List ℕ). b ∷ t) (replicate-add m n b))

-- The salt that goes in front of the first record.
abbrev pub salt_of : {E : Type 0} → V4Encoder E → Bytes
salt_of enc = if salt_sent enc.chunk then [] else enc.salt

-- The record that begins behind `stem`.
pub record Placed {E : Type 0} (enc : V4Encoder E) (old : Buffer) (prefix : Bytes)
    (now budget max_payload : ℕ) (stem : Bytes) (new : Buffer) : Type 0 where
  pub stored :
      new.storage
      ≡ (stem ++ salt_of enc)
        ++ (replicate header_cipher_len 0 ++ (replicate (padding_for enc max_payload) 0 ++ prefix))
  pub valid : IsValid new
  pub room : length new.storage + (max_payload - length prefix + tag_len) ≤ min new.capacity new.max
  pub inside : new.start ≤ length stem
  pub before : filled (record new { storage = stem }) ≡ filled old

put_salt_lem :
    {E : Type 0} (enc : V4Encoder E) (b : Buffer) (stem back : Bytes)
    → length enc.salt ≡ salt_len
    → b.storage ≡ stem ++ (replicate (salt_room enc) 0 ++ back)
    → put_salt enc b (length stem) ≡ ok (record b { storage = stem ++ (salt_of enc ++ back) })
unfolding put_salt
put_salt_lem enc b stem back n e = elim (Bool-cases (salt_sent enc.chunk)) [
  | inl sent ↦ rw sent (ap (λ (t : Bytes). ok (record b { storage = t })) (rw sent at e))
  | inr first ↦
      let e' : b.storage ≡ stem ++ (replicate salt_len 0 ++ back) = rw first at e in
      rw
        (
          first,
          range_lem b stem (replicate salt_len 0) back (length stem) (length stem + salt_len) e'
              refl refl,
          copy_from_slice-eq (replicate salt_len 0) enc.salt (sym n),
        )
        (ap (λ (t : Bytes). ok (record b { storage = t }))
          (write_range_lem b stem (replicate salt_len 0) back enc.salt (length stem) e' refl n))
]

ok-eq {ℓ} : {A : Type ℓ} {a b : A} → ok a ≡ ok b → a ≡ b
ok-eq e = cc

pub length-salt_of :
    {E : Type 0} (enc : V4Encoder E)
    → length enc.salt ≡ salt_len
    → length (salt_of enc) ≡ salt_room enc
length-salt_of enc n = elim (Bool-cases (salt_sent enc.chunk)) [
  | inl sent ↦ rw sent
  | inr first ↦ rw first n
]

module _ {E : Type 0} ⦃seal : Seal (V4Encoder E) V4Record⦄ where
  lay_out_lem :
      (enc : V4Encoder E) (buf : Buffer) (prefix : Bytes) (now budget max_payload start : ℕ)
      (b1 : Buffer)
      → IsValid buf
      → length enc.salt ≡ salt_len
      → length prefix ≤ max_payload
      → reserve_record buf
          (salt_room enc
            + (header_cipher_len + padding_for enc max_payload)
            + max_payload
            + tag_len)
          (salt_room enc + (header_cipher_len + padding_for enc max_payload))
        ≡ ok (start, b1)
      → (stem : Bytes) × (new : Buffer) × (lay_out enc buf prefix now budget max_payload
          ≡ ok (
              hold enc new
                (record {
                  record_start = start;
                  payload_start =
                      start + (salt_room enc + (header_cipher_len + padding_for enc max_payload));
                  prefix_len = length prefix;
                  max_payload = max_payload;
                })
                (record {
                  header_start = start + salt_room enc;
                  padding_len = padding_for enc max_payload;
                  budget = budget;
                  reserved_at = now;
                })))
        × (length stem ≡ start)
        × Placed enc buf prefix now budget max_payload stem new
  unfolding lay_out
  lay_out_lem enc buf prefix now budget max_payload start b1 v n fits made =
      let room = salt_room enc in
      let pad = padding_for enc max_payload in
      let fixed : ℕ = room + (header_cipher_len + pad) in
      let r =
        reserve_record-Reserved buf b1 (fixed + max_payload + tag_len) fixed start v (omega arith)
          made in
      let stem = take start b1.storage in
      let stem_size : length stem ≡ start = length-take_of_le start b1.storage r.inside.1 in
      let back = replicate header_cipher_len 0 ++ replicate pad 0 in
      let zeros : replicate fixed 0 ≡ replicate room 0 ++ back =
        replicate-add room (header_cipher_len + pad) 0
        ∙ ap (λ t. replicate room 0 ++ t) (replicate-add header_cipher_len pad 0) in
      let stored1 : b1.storage ≡ stem ++ (replicate room 0 ++ back) =
        r.stored ∙ ap (λ t. stem ++ t) zeros in
      let b2 = record b1 { storage = stem ++ (salt_of enc ++ back) } in
      let salted : put_salt enc b1 start ≡ ok b2 =
        ap (put_salt enc b1) (sym stem_size) ∙ put_salt_lem enc b1 stem back n stored1 in
      let same : length b2.storage ≡ length b1.storage = omega (
        arith,
        ap length stored1,
        length-append stem (replicate room 0 ++ back),
        length-append (replicate room 0) back,
        length-append stem (salt_of enc ++ back),
        length-append (salt_of enc) back,
        length-salt_of enc n,
        length-replicate {A = ℕ} room 0,
      ) in
      let v2 : IsValid b2 = record {
        live = omega (arith, same, r.valid);
        allocated = omega (arith, same, r.valid);
        limited = omega (arith, same, r.valid);
      } in
      let grown : extend_from_slice b2 prefix ≡ ok (push b2 prefix) =
        extend_fits b2 prefix v2 (omega (arith, same, r.room)) in
      (
        stem,
        push b2 prefix,
        rw (made, salted, grown),
        stem_size,
        record {
          stored = simp append_assoc;
          valid = push-IsValid b2 prefix v2 (omega (arith, same, r.room));
          room = omega (arith, same, r.room, length-append b2.storage prefix);
          inside = omega (arith, r.inside, stem_size);
          before = r.before;
        },
      )

  -- What a reservation that succeeds has made of the buffer.
  pub record Made (enc : V4Encoder E) (buf : Buffer) (prefix : Bytes) (size : RecordSize) (now : ℕ)
      (res : Reservation (V4Encoder E) V4Record) : Type 0 where
    pub max_payload : ℕ
    pub stem : Bytes
    pub new : Buffer
    pub fits : length prefix ≤ max_payload
    pub limited : max_payload ≤ limit_of size (record_budget enc.chunk now)
    pub placed : Placed enc buf prefix now (record_budget enc.chunk now) max_payload stem new
    pub made :
        res
        ≡ hold enc new
            (record {
              record_start = length stem;
              payload_start =
                  length stem + (salt_room enc + (header_cipher_len + padding_for enc max_payload));
              prefix_len = length prefix;
              max_payload = max_payload;
            })
            (record {
              header_start = length stem + salt_room enc;
              padding_len = padding_for enc max_payload;
              budget = record_budget enc.chunk now;
              reserved_at = now;
            })

  lay_out-Made :
      (enc : V4Encoder E) (buf : Buffer) (prefix : Bytes) (size : RecordSize) (now max_payload : ℕ)
      (res : Reservation (V4Encoder E) V4Record)
      → IsValid buf
      → length enc.salt ≡ salt_len
      → length prefix ≤ max_payload
      → max_payload ≤ limit_of size (record_budget enc.chunk now)
      → lay_out enc buf prefix now (record_budget enc.chunk now) max_payload ≡ ok res
      → Made enc buf prefix size now res
  unfolding lay_out
  lay_out-Made enc buf prefix size now max_payload res v n fits limited h =
      let fixed : ℕ = salt_room enc + (header_cipher_len + padding_for enc max_payload) in
      let ((start, b1), made, _) =
        >>=-eq-ok (reserve_record buf (fixed + max_payload + tag_len) fixed) _ h in
      let (stem, new, done, at, placed) =
        lay_out_lem enc buf prefix now (record_budget enc.chunk now) max_payload start b1 v n fits
          made in
      record {
        max_payload = max_payload;
        stem = stem;
        new = new;
        fits = fits;
        limited = limited;
        placed = placed;
        made = rw at (ok-eq (sym h ∙ done));
      }

  pub reserve-Made :
      (enc : V4Encoder E) (buf : Buffer) (prefix : Bytes) (size : RecordSize) (now : ℕ)
      (res : Reservation (V4Encoder E) V4Record)
      → IsValid buf
      → length enc.salt ≡ salt_len
      → limit_of size (record_budget enc.chunk now) ≤ max_packet_size
      → reserve enc buf prefix size now ≡ ok res
      → Made enc buf prefix size now res
  unfolding reserve
  reserve-Made enc buf prefix size now res v n small h =
      let budget = record_budget enc.chunk now in
      let (_, _, h1) = >>=-eq-ok (ensure_ready enc.state) _ h in
      let (max_payload, sized, h2) =
        >>=-eq-ok (payload_len size (length prefix) (limit_of size budget)) _ h1 in
      let bounds =
        payload_len_bounds size (length prefix) (limit_of size budget) max_payload sized
          (omega arith) in
      lay_out-Made enc buf prefix size now max_payload res v n bounds.0 bounds.1 h2
