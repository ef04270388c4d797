-- ===== src/V4/Decoder.antt =====
-- `V4Decoder` of crates/snell-protocol/src/codec/v4/mod.rs. `Pending` is its number, and a call gives
-- the outcome with the decoder and the buffer that it leaves.
pub mod Steps
pub mod Read
pub mod Ends
pub mod Returns
pub mod Safe
use snell_rs.Prelude.{
  ℕ, zero, suc, ◌+◌, [], ◌∷◌, ◌++◌, Option, none, some, Bool, true, false, not, ◌&&◌, length, take,
  drop, ltb, leb, ◌==◌, if◌then◌else◌,
}
use snell_rs.Kernel.Error.{Error, truncated, Result, ok, err, panic, ◌>>=◌, attempt, ok_or}
use snell_rs.Kernel.Consts.{salt_len, header_cipher_len}
use snell_rs.Kernel.Slice.{Bytes, get_to, index_from, split_at_mut}
use snell_rs.Nonce
use snell_rs.Header.{HeaderBytes, RecordHeader, parse_v4_plain_header, body_len_v4}
use snell_rs.Buffer.{Buffer, filled, range, write_range}
use snell_rs.Record.{
  DecodedRecord, DecodeStatus, pending_need, data_at, zero_chunk_at, pending_consume,
}
use snell_rs.Crypto.Aead.{Ring, derive, open_}
use snell_rs.Crypto.Aead
use snell_rs.V4.Padding.{swap_even_indices}

pub data ReadStep : Type 0 where
  salt header : ReadStep
  body : RecordHeader → ℕ → ReadStep

pub record V4Decoder : Type 0 where
  pub psk : Bytes
  -- by its key
  pub aead : Option Bytes
  pub nonce : Bytes
  pub include_salt : Bool
  pub step : ReadStep
  pub pending : ℕ

unfoldable pub new : Bytes → V4Decoder
new psk = record {
  psk = psk;
  aead = none;
  nonce = Nonce.new;
  include_salt = true;
  step = salt;
  pending = 0;
}

unfoldable pub header_offset : V4Decoder → ℕ
header_offset d = d.pending + (if d.include_salt then salt_len else 0)

unfoldable pub kdf_need : V4Decoder → ℕ
kdf_need d = elim d.aead [ some _ ↦ 0 | none ↦ elim d.step [ salt ↦ salt_len | _ ↦ 0 ] ]

-- The first 16 live bytes.
unfoldable pub kdf_salt : Buffer → Result Bytes
kdf_salt buf = ok_or (get_to (filled buf) salt_len) truncated

unfoldable pub has_unconsumed_plaintext : V4Decoder → Bool
has_unconsumed_plaintext d = not (d.pending == 0)

unfoldable pub consume :
    V4Decoder → Buffer → DecodedRecord → Result (Unit {0}) × (V4Decoder × Buffer)
consume d buf r =
    let (pending, outcome) = pending_consume d.pending buf r in
    attempt (record d { pending = pending }, buf) outcome
      λ buf'. (ok tt, (record d { pending = pending }, buf'))

-- `opened_header`
unfoldable pub opened_header : Bytes → Result HeaderBytes
opened_header (b0 ∷ b1 ∷ b2 ∷ b3 ∷ b4 ∷ b5 ∷ b6 ∷ _) =
    ok (record { b0 = b0; b1 = b1; b2 = b2; b3 = b3; b4 = b4; b5 = b5; b6 = b6 })
opened_header _ = panic

-- One round of the loop goes on to another, or returns.
pub data Round : Type 0 where
  again : Round
  returned : DecodeStatus → Round

abbrev pub State : Type 0
State = V4Decoder × Buffer

-- `if let Some(need) = ... { return Ok(need) }`
unfoldable pub unless_need :
    State → Option DecodeStatus → Result Round × State → Result Round × State
unless_need s (some status) rest = (ok (returned status), s)
unless_need s none rest = rest

module _ (ring : Ring) where
  unfoldable pub install_aead : V4Decoder → (salt key : Bytes) → Result V4Decoder
  install_aead d _ key = do cipher ← Aead.new ring key; ok (record d { aead = some cipher })

  -- `if self.aead.is_none()`
  unfoldable pub ensure_aead : Option Bytes → Bytes → Buffer → Result Bytes
  ensure_aead (some key) psk buf = ok key
  ensure_aead none psk buf = do found ← kdf_salt buf; derive ring psk found

  unfoldable pub read_salt : State → Result Round × State
  read_salt (d, buf) =
      attempt (d, buf) (pending_need d.pending buf salt_len)
        λ need.
          unless_need (d, buf) need
            (attempt (d, buf) (ensure_aead d.aead d.psk buf)
              λ key. (ok again, (record d { aead = some key; step = header }, buf)))

  -- Behind an opened header.
  unfoldable pub accept_header : State → ℕ → Bytes → Result Round × State
  accept_header (d, buf) header_end hdr =
      attempt (d, buf) (opened_header hdr >>= parse_v4_plain_header)
        λ parsed.
          attempt (d, buf) (body_len_v4 parsed)
            λ len.
              if len == 0
              then (let d' = record d { include_salt = false } in
                  attempt (d', buf) (zero_chunk_at d.pending header_end)
                    λ out. (ok (returned out.0), (record d' { pending = out.1 }, buf)))
              else (ok again, (record d { step = body parsed len }, buf))

  unfoldable pub open_header : State → ℕ → Bytes → (key : Bytes) → Result Round × State
  open_header (d, buf) header_end hdr key =
      let (opened, (nonce, hdr')) = open_ ring key d.nonce [] hdr in
      let d' = record d { nonce = nonce } in
      attempt (d', buf) opened λ _. accept_header (d', buf) header_end hdr'

  unfoldable pub read_header : State → Result Round × State
  read_header (d, buf) =
      let off = header_offset d in
      let header_end = off + header_cipher_len in
      attempt (d, buf) (pending_need d.pending buf header_end)
        λ need.
          unless_need (d, buf) need
            (attempt (d, buf) (index_from (filled buf) off)
              λ rest.
                attempt (d, buf) (ok_or (get_to rest header_cipher_len) truncated)
                  λ hdr.
                    attempt (d, buf) (ok_or d.aead Error.aead)
                      (open_header (d, buf) header_end hdr))

  unfoldable pub open_body :
      State
      → RecordHeader
      → (body_off len : ℕ) → (padding cipher_and_tag : Bytes) → (key : Bytes) → Result Round × State
  open_body (d, buf) parsed body_off len padding cipher_and_tag key =
      let (opened, (nonce, plain)) = open_ ring key d.nonce [] cipher_and_tag in
      let buf' = write_range buf (buf.start + body_off) (padding ++ plain) in
      let d1 = record d { nonce = nonce } in
      attempt (d1, buf') opened
        λ _.
          let d2 = record d1 { include_salt = false; step = header } in
          let start = body_off + parsed.padding_len in
          attempt (d2, buf')
            (data_at d.pending (body_off + len) (start, start + parsed.payload_len))
            λ out. (ok (returned out.0), (record d2 { pending = out.1 }, buf'))

  unfoldable pub read_body : RecordHeader → ℕ → State → Result Round × State
  read_body parsed len (d, buf) =
      let body_off = header_offset d + header_cipher_len in
      attempt (d, buf) (pending_need d.pending buf (body_off + len))
        λ need.
          unless_need (d, buf) need
            (attempt (d, buf) (range buf (buf.start + body_off) (buf.start + (body_off + len)))
              λ bytes.
                attempt (d, buf) (split_at_mut bytes parsed.padding_len)
                  λ parts.
                    let (padding, cipher_and_tag) = swap_even_indices parts.0 parts.1 in
                    attempt (d, write_range buf (buf.start + body_off) (padding ++ cipher_and_tag))
                      (ok_or d.aead Error.aead)
                      (open_body (d, buf) parsed body_off len padding cipher_and_tag))

  unfoldable pub round_at : ReadStep → State → Result Round × State
  round_at salt s = read_salt s
  round_at header s = read_header s
  round_at (body parsed len) s = read_body parsed len s

  -- The rest of the loop behind a round.
  unfoldable pub go_on :
      (State → Option (Result DecodeStatus × State))
      → Result Round × State
      → Option (Result DecodeStatus × State)
  go_on rest (ok again, s) = rest s
  go_on rest (ok (returned status), s) = some (ok status, s)
  go_on rest (err e, s) = some (err e, s)
  go_on rest (panic, s) = some (panic, s)

  -- `loop`, with the rounds that it may take; `none` if they do not suffice.
  unfoldable pub loop : ℕ → State → Option (Result DecodeStatus × State)
  loop zero s = none
  loop (suc rounds) s = go_on (loop rounds) (round_at s.0.step s)

  unfoldable pub decode : State → Option (Result DecodeStatus × State)
  decode s = loop 3 s
