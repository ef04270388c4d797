-- ===== src/Tests/Buffer.antt =====
-- The buffer and the records of crates/snell-protocol, at concrete sizes.
use snell_rs.Prelude.{List, ◌≡◌, refl, [], ◌∷◌, drop, arith}
use snell_rs.Kernel.Error.{ok}
use snell_rs.Buffer.{
  Buffer, new, filled, len, compact, spare_capacity_mut, push, extend_from_slice, extend_zeroed,
  reserve_record, reserve_zeroed, consume, replace_storage,
}
use snell_rs.Buffer.Invariant.{IsValid}
use snell_rs.Buffer.Trace.{Op, extend, zeroes, gone, move_to, exec, run, queue, run-queue}
use snell_rs.Record.{DecodedRecord, data_record, zero_chunk}
use snell_rs.Record.Accounting.{consume_all, consume_all_lem}
use snell_rs.Record.Reservation.Cancel.{extend_all, reserve_record-extend}

abbrev fresh : Buffer
fresh = new 8 8

-- Three live bytes behind five that are gone.
abbrev used : Buffer
used = record { storage = 0 ∷ 0 ∷ 0 ∷ 0 ∷ 0 ∷ 1 ∷ 2 ∷ 3 ∷ []; capacity = 8; start = 5; max = 8 }

used-IsValid : IsValid used
used-IsValid = record { live = omega arith; allocated = omega arith; limited = omega arith }

moves :
    extend_from_slice used (4 ∷ 5 ∷ [])
    ≡ ok (record { storage = 1 ∷ 2 ∷ 3 ∷ 4 ∷ 5 ∷ []; capacity = 8; start = 0; max = 8 })
unfolding extend_from_slice spare_capacity_mut compact len
moves = refl

abbrev calls : List Op
calls = extend (4 ∷ 5 ∷ []) ∷ gone 4 ∷ zeroes 2 ∷ move_to (record { size = 20 }) ∷ []

abbrev end : Buffer
end = record { storage = 5 ∷ 0 ∷ 0 ∷ []; capacity = 20; start = 0; max = 8 }

called : run used calls ≡ ok end
unfolding run exec extend_from_slice spare_capacity_mut compact len consume reserve_zeroed
    extend_zeroed replace_storage filled
called = refl

run-queue_example : (filled end ≡ queue (filled used) calls) × IsValid end
run-queue_example = run-queue used end calls used-IsValid called

abbrev first_record : DecodedRecord
first_record = record { consumed = 2; plaintext = (0, 1); kind = data_record }

abbrev last_record : DecodedRecord
last_record = record { consumed = 1; plaintext = (0, 0); kind = zero_chunk }

consume_all_lem_example :
    (b : Buffer) × (consume_all 3 used (first_record ∷ last_record ∷ []) ≡ (0, ok b))
    × (filled b ≡ drop 3 (filled used))
    × IsValid b
unfolding len
consume_all_lem_example =
    consume_all_lem used (first_record ∷ last_record ∷ []) 3 used-IsValid (omega arith)
      (omega arith)

reserved :
    reserve_record used 5 2
    ≡ ok (3, record { storage = 1 ∷ 2 ∷ 3 ∷ 0 ∷ 0 ∷ []; capacity = 8; start = 0; max = 8 })
unfolding reserve_record extend_zeroed spare_capacity_mut compact len
reserved = refl

abbrev held : Buffer
held = record { storage = 1 ∷ 2 ∷ 3 ∷ 0 ∷ 0 ∷ []; capacity = 8; start = 0; max = 8 }

reserve_record-extend_example :
    extend_all held ((9 ∷ 9 ∷ []) ∷ [] ∷ (7 ∷ []) ∷ []) ≡ ok (push held (9 ∷ 9 ∷ 7 ∷ []))
reserve_record-extend_example =
    reserve_record-extend used held 5 2 3 ((9 ∷ 9 ∷ []) ∷ [] ∷ (7 ∷ []) ∷ []) used-IsValid
      (omega arith) reserved
