-- ===== src/Tests/V6.antt =====
-- The unshaped codec of v6 at concrete inputs, with the ciphers of the tests of v4.
use snell_rs.Prelude.{◌≡◌, refl, [], true, false, replicate, arith, if◌then◌else◌}
use snell_rs.Kernel.Error.{Error, err, poisoned}
use snell_rs.Kernel.Slice
use snell_rs.Header
use snell_rs.Nonce
use snell_rs.Nonce.{increment}
use snell_rs.Buffer
use snell_rs.Buffer.{Buffer}
use snell_rs.Record.{ready, stream}
use snell_rs.Record
use snell_rs.Record.Reservation.{Slot}
use snell_rs.Crypto.Aead
use snell_rs.V4.Encoder.{bytes_eq}
use snell_rs.V4.Encoder
use snell_rs.V6.Unshaped.Encoder.{
  V6UnshapedEncoder, State, seal_record, finish, reserve, v6_unshaped_seal,
}
use snell_rs.V6.Unshaped.Encoder as Unshaped
use snell_rs.V6.Unshaped.Encoder.Plain.{Agree, seal_record-v4}
use snell_rs.V6.Unshaped.Encoder.Failed.{reserve-finish_unshaped}
use snell_rs.V6.Unshaped.Decoder.{decode}
use snell_rs.V6.Unshaped.Decoder
use snell_rs.V6.Unshaped.Decoder.Safe.{IsDecoder, FairEnd, decode_unshaped-FairEnd}
use snell_rs.Tests.V4.{ring, ring-IsRing, fill, enc, out, out-IsValid, tired}

abbrev plain : V6UnshapedEncoder
plain = record {
  aead = replicate 16 7;
  nonce = Nonce.new;
  salt = replicate 16 3;
  salt_sent = true;
  state = ready;
}

-- Two bytes of payload behind the room for a header.
abbrev slot : Slot
slot = record { record_start = 0; payload_start = 23; prefix_len = 0; max_payload = 2 }

abbrev room : Buffer
room = record { storage = replicate 25 0; capacity = 400; start = 0; max = 300 }

seal_record-v4_example :
    Agree ring fill
      (Encoder.seal_record ring fill slot
        (record { header_start = 0; padding_len = 0; budget = 100; reserved_at = 0 })
        2
        (enc, room))
      (seal_record ring slot 2 (plain, room))
seal_record-v4_example =
    seal_record-v4 ring fill slot
      (record { header_start = 0; padding_len = 0; budget = 100; reserved_at = 0 }) 2 enc plain room
      refl refl refl refl

fresh-IsDecoder : IsDecoder (Decoder.new (replicate 16 1), out)
unfolding Decoder.new
fresh-IsDecoder = record { step = refl; valid = out-IsValid; pending = omega arith }

decode_unshaped-FairEnd_example : FairEnd (decode ring (Decoder.new (replicate 16 1), out))
decode_unshaped-FairEnd_example =
    decode_unshaped-FairEnd ring ring-IsRing (Decoder.new (replicate 16 1), out) fresh-IsDecoder

-- The header is sealed and the payload is not.
failed :
    (last : V6UnshapedEncoder) × (after : Buffer) × (finish tired plain room slot tt 2
      ≡ (err Error.aead, (last, after)))
    × (bytes_eq last.nonce plain.nonce ≡ false)
unfolding finish Unshaped.settle seal_record Unshaped.seal_header Unshaped.seal_payload
    Encoder.is_err bytes_eq Record.after_seal Buffer.set_record_end Buffer.zero_extend_to
    Buffer.extend_zeroed Buffer.range Buffer.truncate Slice.split_at_mut Slice.copy_from_slice
    Aead.seal Aead.split_tag Header.plain_header increment Nonce.new
failed = (_, _, refl, refl)

reserve-finish_unshaped_example :
    (failed.0.salt_sent ≡ plain.salt_sent)
    × (reserve ⦃s = v6_unshaped_seal tired⦄ failed.0 out [] (stream 5) ≡ (
        if bytes_eq failed.0.nonce plain.nonce
        then reserve ⦃s = v6_unshaped_seal tired⦄
            (record failed.0 { state = ready })
            out
            []
            (stream 5)
        else err poisoned))
reserve-finish_unshaped_example =
    reserve-finish_unshaped tired plain failed.0 room failed.1 out slot 2 Error.aead [] (stream 5)
      failed.2
