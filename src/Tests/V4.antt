-- ===== src/Tests/V4.antt =====
-- The v4 codec at concrete inputs, with a cipher that hides nothing: its tag is the nonce.
use snell_rs.Prelude.{
  ℕ, zero, suc, ap, sym, ◌%◌, ◌≤◌, ◌≡◌, ◌≢◌, refl, [], ◌∷◌, ◌++◌, none, some, true, false, length,
  take, replicate, arith, length-replicate, length-append, length-take, if◌then◌else◌,
}
use mathlib.Core.Path.{subst}
use snell_rs.Kernel.Error.{Result, ok, err, aead}
use snell_rs.Kernel.Error
use snell_rs.Kernel.Slice.{Bytes}
use snell_rs.Kernel.Slice
use snell_rs.Header
use snell_rs.Nonce
use snell_rs.Nonce.{increment}
use snell_rs.Chunk
use snell_rs.Buffer.{Buffer, filled, len, write_range}
use snell_rs.Buffer
use snell_rs.Buffer.Invariant
use snell_rs.Record.{ready, RecordSize, stream, datagram}
use snell_rs.Record
use snell_rs.Record.Reservation.{
  Slot, Reservation, seal_init, drop_reservation, payload_mut, unwritten_start,
}
use snell_rs.Record.Reservation
use snell_rs.Crypto.Entropy.{RepeatEntropy}
use snell_rs.Crypto.Aead.{Ring, IsRing, IsBytes, derive}
use snell_rs.Crypto.Aead
use snell_rs.V4.Padding.{swap_even_indices}
use snell_rs.V4.Swap.{scalar, swap_even_indices-scalar}
use snell_rs.V4.Encoder.{V4Encoder, V4Record, PaddingFill, reserve, v4_seal, bytes_eq, finish}
use snell_rs.V4.Encoder
use snell_rs.V4.Encoder.Failed.{bytes_eq_refl, reserve-finish}
use snell_rs.V4.Encoder.Sealed.{IsFill}
use snell_rs.V4.Encoder.Dropped.{drop_reservation-Uses}
use snell_rs.Record.Reservation.Use.{Uses, unused, used, mutated}
use snell_rs.V4.Encoder.Send.{IsEncoder, Sent, send_lem}
use snell_rs.V4.Decoder.{V4Decoder, State, decode}
use snell_rs.V4.Decoder
use snell_rs.V4.Decoder.Safe.{IsDecoder, FairEnd, decode-FairEnd}
use snell_rs.V4.Session.{Sends, stop, send, read_records}
use snell_rs.V4.Session.RoundTrip.{read_records-Sends}

abbrev low_bytes : Bytes → Bytes
low_bytes [] = []
low_bytes (x ∷ xs) = (x % 256) ∷ low_bytes xs

abbrev tag_of : Bytes → Bytes
tag_of nonce = take 16 (low_bytes nonce ++ replicate 16 0)

abbrev pub ring : Ring
ring = record {
  unbound = λ key. true;
  seal_in_place = λ key nonce aad plain. (some (tag_of nonce), plain);
  open_in_place = λ key nonce aad tag cipher. (bytes_eq tag (tag_of nonce), cipher);
  hash_password = λ password salt. some (replicate 32 7);
}

some-eq : {A : Type 0} {a b : A} → some a ≡ some b → a ≡ b
some-eq e = cc

low_bytes-IsBytes : (xs : Bytes) → IsBytes (low_bytes xs ++ replicate 16 0)
low_bytes-IsBytes [] = omega arith
low_bytes-IsBytes (x ∷ xs) = (omega arith, low_bytes-IsBytes xs)

take-IsBytes : (n : ℕ) (xs : Bytes) → IsBytes xs → IsBytes (take n xs)
take-IsBytes zero xs h = tt
take-IsBytes (suc n) [] h = tt
take-IsBytes (suc n) (x ∷ xs) h = (h.0, take-IsBytes n xs h.1)

length-tag_of : (nonce : Bytes) → length (tag_of nonce) ≡ 16
length-tag_of nonce = omega (
  arith,
  length-take 16 (low_bytes nonce ++ replicate 16 0),
  length-append (low_bytes nonce) (replicate {A = ℕ} 16 0),
)

pub ring-IsRing : IsRing ring
ring-IsRing = record {
  seals = λ key nonce aad plain h. (tag_of nonce, refl, length-tag_of nonce);
  length-seal = λ key nonce aad plain. refl;
  seal-IsBytes = λ key nonce aad plain tag h e.
      (h, subst IsBytes (some-eq e) (take-IsBytes 16 _ (low_bytes-IsBytes nonce)));
  opens = λ key nonce aad plain tag h e. rw (← some-eq e) (rw (bytes_eq_refl (tag_of nonce)));
  length-open = λ key nonce aad tag cipher. refl;
  length-hash = λ password salt raw e. ap length (sym (some-eq e));
}

abbrev pub fill : PaddingFill RepeatEntropy
fill = record { fill_v4_padding = λ padding cipher e. (ok tt, (replicate (length padding) 9, e)) }

nines : (n : ℕ) → IsBytes (replicate n 9)
nines zero = tt
nines (suc n) = (omega arith, nines n)

fill-IsFill : IsFill fill
fill-IsFill = record {
  sized = λ p c e. length-replicate (length p) 9;
  bytes = λ p c e. nines (length p);
  fills = λ p c e. refl;
}

abbrev pub enc : V4Encoder RepeatEntropy
enc = record {
  aead = replicate 16 7;
  nonce = Nonce.new;
  salt = replicate 16 3;
  entropy = record { byte = 9 };
  chunk = record { initial_padding_len = 3; last = none };
  state = ready;
}

enc-IsEncoder : IsEncoder enc
enc-IsEncoder = record { salt_size = refl; padding_small = omega arith; window = tt }

abbrev pub out : Buffer
out = record { storage = []; capacity = 400; start = 0; max = 300 }

pub out-IsValid : Invariant.IsValid out
out-IsValid = record { live = omega arith; allocated = omega arith; limited = omega arith }

-- One record: a prefix and what is written behind it.
abbrev Once : V4Encoder RepeatEntropy → Buffer → Type 0
Once e b =
    (res : Reservation (V4Encoder RepeatEntropy) V4Record) × (reserve ⦃s = v4_seal ring fill⦄ e b
        (1 ∷ []) (stream 5) 0
      ≡ ok res)
    × (2 ≤ res.slot.max_payload)

first : Once enc out
unfolding reserve Encoder.lay_out Encoder.put_salt Record.ensure_ready Record.payload_len
    Chunk.record_budget Chunk.salt_sent Buffer.reserve_record Buffer.spare_capacity_mut
    Buffer.extend_zeroed Buffer.extend_from_slice Buffer.range Buffer.len Reservation.hold
    Slice.copy_from_slice Buffer.compact
first = (_, refl, omega arith)

first_sent : Sent ring enc out (1 ∷ 2 ∷ []) (seal_init ⦃e = v4_seal ring fill⦄ first.0 (2 ∷ []))
first_sent =
    send_lem ring fill ring-IsRing fill-IsFill enc out (1 ∷ []) (2 ∷ []) (stream 5) 0 first.0
      out-IsValid enc-IsEncoder first.1 first.2 (omega arith) (omega arith)

sends : Sends ring fill enc out ((1 ∷ 2 ∷ []) ∷ []) first_sent.next first_sent.after
sends =
    send (1 ∷ []) (2 ∷ []) (stream 5) 0 first.0 first.1 first.2 (omega arith) (omega arith)
      first_sent.status stop

no_salt : Chunk.salt_sent enc.chunk ≡ false
unfolding Chunk.salt_sent
no_salt = refl

derived : derive ring (replicate 16 1) enc.salt ≡ ok enc.aead
unfolding derive Aead.aead_key Aead.new Slice.index_to
derived = refl

no_bytes : filled out ≡ []
unfolding filled
no_bytes = refl

read_records-Sends_example :
    (s : State) × (read_records ring 1 (Decoder.new (replicate 16 1), first_sent.after)
      ≡ some ((1 ∷ 2 ∷ []) ∷ [], s))
    × (filled s.1 ≡ [])
read_records-Sends_example =
    read_records-Sends ring fill (replicate 16 1) enc first_sent.next out first_sent.after
      first_sent.after (1 ∷ 2 ∷ []) [] ring-IsRing fill-IsFill enc-IsEncoder refl no_salt derived
      out-IsValid no_bytes sends first_sent.valid refl

-- A cipher that works for one record only.
abbrev pub tired : Ring
tired = record ring {
  seal_in_place = λ key nonce aad plain.
      (if bytes_eq nonce Nonce.new then some (tag_of nonce) else none, plain);
}

abbrev slot : Slot
slot = record { record_start = 0; payload_start = 23; prefix_len = 1; max_payload = 4 }

abbrev layout : V4Record
layout = record { header_start = 0; padding_len = 0; budget = 4; reserved_at = 0 }

abbrev written : Buffer
written = record { storage = replicate 25 1; capacity = 400; start = 0; max = 300 }

failed :
    (last : V4Encoder RepeatEntropy) × (after : Buffer) × (finish tired fill enc written slot layout
        2
      ≡ (err Error.aead, (last, after)))
    × (bytes_eq last.nonce enc.nonce ≡ false)
unfolding finish Encoder.settle Encoder.seal_record Encoder.seal_header Encoder.seal_body
    Encoder.is_err bytes_eq Record.after_seal Buffer.set_record_end Buffer.zero_extend_to
    Buffer.extend_zeroed Buffer.range Buffer.truncate Slice.split_at_mut Slice.copy_from_slice
    Aead.seal Aead.split_tag Header.plain_header increment Nonce.new
failed = (_, _, refl, refl)

reserve-finish_example :
    (failed.0.chunk ≡ enc.chunk)
    × (reserve ⦃s = v4_seal tired fill⦄ failed.0 out [] (stream 5) 9 ≡ (
        if bytes_eq failed.0.nonce enc.nonce
        then reserve ⦃s = v4_seal tired fill⦄
            (record failed.0 { state = ready })
            out
            []
            (stream 5)
            9
        else err Error.poisoned))
reserve-finish_example =
    reserve-finish tired fill enc failed.0 written failed.1 out slot layout 2 Error.aead []
      (stream 5) 9 failed.2

fresh-IsDecoder : IsDecoder (Decoder.new (replicate 16 1), out)
unfolding Decoder.new
fresh-IsDecoder = record { step = refl; valid = out-IsValid; pending = omega arith }

decode-FairEnd_example :
    decode ring (Decoder.new (replicate 16 1), out) ≢ none
    × FairEnd (decode ring (Decoder.new (replicate 16 1), out))
decode-FairEnd_example =
    decode-FairEnd ring ring-IsRing (Decoder.new (replicate 16 1), out) fresh-IsDecoder

swap_even_indices-scalar_example :
    swap_even_indices (replicate 9 1) (replicate 10 2)
    ≡ scalar true (replicate 9 1) (replicate 10 2)
swap_even_indices-scalar_example =
    swap_even_indices-scalar (replicate 9 1) (replicate 10 2) (omega arith) (omega arith)

-- The caller wrote one byte of the payload and then gave up.
touched :
    (last : Reservation (V4Encoder RepeatEntropy) V4Record) × Uses ⦃e = v4_seal ring fill⦄ first.0
      last
unfolding first payload_mut unwritten_start Buffer.zero_extend_to Buffer.extend_zeroed reserve
    Encoder.lay_out Encoder.put_salt Record.ensure_ready Record.payload_len Chunk.record_budget
    Chunk.salt_sent Buffer.reserve_record Buffer.spare_capacity_mut Buffer.extend_from_slice
    Buffer.range Buffer.len Reservation.hold Slice.copy_from_slice Buffer.compact
touched =
    (_, used (unused first.0) (mutated first.0 _ 43 (8 ∷ []) refl (omega arith) (omega arith)))

drop_reservation-Uses_example :
    (filled (drop_reservation ⦃e = v4_seal ring fill⦄ touched.0).1 ≡ filled out)
    × ((drop_reservation ⦃e = v4_seal ring fill⦄ touched.0).0 ≡ enc)
drop_reservation-Uses_example =
    drop_reservation-Uses ring fill enc out (1 ∷ []) (stream 5) 0 first.0 touched.0 out-IsValid
      enc-IsEncoder first.1 touched.1
