-- ===== src/V4/Session.antt =====
-- A session of codec/v4/mod.rs: records that are sealed one after the other, and read again.
pub mod RoundTrip
use snell_rs.Prelude.{
  ℕ, zero, suc, ◌+◌, ◌≤◌, ◌<◌, ◌≡◌, List, [], ◌∷◌, ◌++◌, Option, none, some, length,
}
use snell_rs.Kernel.Error.{Result, ok, err, panic}
use snell_rs.Kernel.Slice.{Bytes}
use snell_rs.Buffer.{Buffer, filled}
use snell_rs.Record.{RecordSize, DecodedRecord, DecodeStatus, need_more, decoded, plaintext}
use snell_rs.Record.Reservation.{Reservation, seal_init}
use snell_rs.Crypto.Aead.{Ring, IsBytes}
use snell_rs.V4.Encoder.{V4Encoder, V4Record, PaddingFill, reserve, v4_seal}
use snell_rs.V4.Decoder.{V4Decoder, State, decode, consume}

-- The encoder seals these payloads into a buffer, each in a record of its own that it granted.
pub data Sends {E : Type 0} (ring : Ring) (fill : PaddingFill E)
    : V4Encoder E → Buffer → List Bytes → V4Encoder E → Buffer → Type 0 where
  stop : {enc : V4Encoder E} {buf : Buffer} → Sends ring fill enc buf [] enc buf
  send :
      {enc : V4Encoder E} {buf : Buffer} {enc1 : V4Encoder E} {buf1 : Buffer} {enc2 : V4Encoder E}
      {buf2 : Buffer} {payloads : List Bytes} (prefix bytes : Bytes) (size : RecordSize) (now : ℕ)
      (res : Reservation (V4Encoder E) V4Record)
      → reserve ⦃s = v4_seal ring fill⦄ enc buf prefix size now ≡ ok res
      → length prefix + length bytes ≤ res.slot.max_payload
      → 0 < length (prefix ++ bytes)
      → IsBytes (prefix ++ bytes)
      → seal_init ⦃e = v4_seal ring fill⦄ res bytes ≡ (ok 0, (enc1, buf1))
      → Sends ring fill enc1 buf1 payloads enc2 buf2
      → Sends ring fill enc buf ((prefix ++ bytes) ∷ payloads) enc2 buf2

-- The plaintext of a decoded record, and what is left behind its `consume`.
abbrev pub take_record : DecodedRecord → State → Result (Bytes × State)
take_record r (d, buf) = elim (plaintext r (filled buf)) [
  | ok payload ↦
      let (done, s) = consume d buf r in
      elim done [ ok _ ↦ ok (payload, s) | err e ↦ err e | panic ↦ panic ]
  | err e ↦ err e
  | panic ↦ panic
]

abbrev pub cons_payload : Bytes → Option (List Bytes × State) → Option (List Bytes × State)
cons_payload payload none = none
cons_payload payload (some (payloads, s)) = some (payload ∷ payloads, s)

module _ (ring : Ring) where
  -- The first record of what is live.
  unfoldable pub read_record : State → Option (Bytes × State)
  read_record s = elim (decode ring s) [
    | some out ↦ elim out.0 [
      | ok status ↦ elim status [
        | decoded r ↦ elim (take_record r out.1) [ ok p ↦ some p | err e ↦ none | panic ↦ none ]
        | need_more n ↦ none
      ]
      | err e ↦ none
      | panic ↦ none
    ]
    | none ↦ none
  ]

  -- As many records, one after the other.
  unfoldable pub read_records : ℕ → State → Option (List Bytes × State)
  read_records zero s = some ([], s)
  read_records (suc n) s = elim (read_record s) [
    | some p ↦ cons_payload p.0 (read_records n p.1)
    | none ↦ none
  ]
