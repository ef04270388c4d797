-- ===== src/V6/Unshaped/Decoder.antt =====
-- `V6UnshapedDecoder` of crates/snell-protocol/src/codec/v6/unshaped.rs. The rounds of its loop are
-- named as those of v4.
pub mod Safe
use snell_rs.Prelude.{
  ℕ, zero, suc, ◌+◌, Option, none, some, Bool, true, false, not, ◌==◌, [], if◌then◌else◌,
}
use snell_rs.Kernel.Error.{Error, truncated, Result, ok, err, panic, ◌>>=◌, attempt, ok_or}
use snell_rs.Kernel.Consts.{salt_len, header_cipher_len}
use snell_rs.Kernel.Slice.{Bytes, get_to, index_from}
use snell_rs.Nonce
use snell_rs.Header.{RecordHeader, parse_v6_plain_header, body_len_v6_unshaped}
use snell_rs.Buffer.{Buffer, filled, range, write_range}
use snell_rs.Record.{
  DecodedRecord, DecodeStatus, pending_need, data_at, zero_chunk_at, pending_consume,
}
use snell_rs.Crypto.Aead.{Ring, derive, open_}
use snell_rs.Crypto.Aead
use snell_rs.V4.Decoder.{kdf_salt, opened_header, Round, again, returned}

pub data ReadStep : Type 0 where
  salt header : ReadStep
  body : (payload_len len : ℕ) → ReadStep

pub record V6UnshapedDecoder : Type 0 where
  pub psk : Bytes
  -- the cipher, by its key, and the salt that it was derived from
  pub key : Option (Bytes × Bytes)
  pub nonce : Bytes
  pub include_salt : Bool
  pub step : ReadStep
  pub pending : ℕ

unfoldable pub new : Bytes → V6UnshapedDecoder
new psk = record {
  psk = psk;
  key = none;
  nonce = Nonce.new;
  include_salt = true;
  step = salt;
  pending = 0;
}

unfoldable pub header_offset : V6UnshapedDecoder → ℕ
header_offset d = d.pending + (if d.include_salt then salt_len else 0)

unfoldable pub kdf_need : V6UnshapedDecoder → ℕ
kdf_need d = elim d.key [ some _ ↦ 0 | none ↦ elim d.step [ salt ↦ salt_len | _ ↦ 0 ] ]

unfoldable pub has_unconsumed_plaintext : V6UnshapedDecoder → Bool
has_unconsumed_plaintext d = not (d.pending == 0)

unfoldable pub replay_identity : V6UnshapedDecoder → Option Bytes
replay_identity d = elim d.key [ some (_, salt_bytes) ↦ some salt_bytes | none ↦ none ]

abbrev pub State : Type 0
State = V6UnshapedDecoder × Buffer

unfoldable pub consume : V6UnshapedDecoder → Buffer → DecodedRecord → Result (Unit {0}) × State
consume d buf r =
    let (pending, outcome) = pending_consume d.pending buf r in
    attempt (record d { pending = pending }, buf) outcome
      λ buf'. (ok tt, (record d { pending = pending }, buf'))

-- `if let Some(need) = ... { return Ok(need) }`
unfoldable pub unless_need :
    State → Option DecodeStatus → Result Round × State → Result Round × State
unless_need s (some status) rest = (ok (returned status), s)
unless_need s none rest = rest

module _ (ring : Ring) where
  unfoldable pub install_aead : V6UnshapedDecoder → (salt key : Bytes) → Result V6UnshapedDecoder
  install_aead d salt_bytes key = do
    cipher ← Aead.new ring key
    ok (record d { key = some (cipher, salt_bytes) })

  -- `if self.key.is_none()`
  unfoldable pub ensure_key : Option (Bytes × Bytes) → Bytes → Buffer → Result (Bytes × Bytes)
  ensure_key (some key) psk buf = ok key
  ensure_key none psk buf = do
    salt_bytes ← kdf_salt buf
    cipher ← derive ring psk salt_bytes
    ok (cipher, salt_bytes)

  unfoldable pub read_salt : State → Result Round × State
  read_salt (d, buf) =
      attempt (d, buf) (pending_need d.pending buf salt_len)
        λ need.
          unless_need (d, buf) need
            (attempt (d, buf) (ensure_key d.key d.psk buf)
              λ key. (ok again, (record d { key = some key; step = header }, buf)))

  -- Behind an opened header.
  unfoldable pub accept_header : State → ℕ → Bytes → Result Round × State
  accept_header (d, buf) header_end hdr =
      attempt (d, buf) (opened_header hdr >>= parse_v6_plain_header)
        λ parsed.
          attempt (d, buf) (body_len_v6_unshaped parsed)
            λ len.
              if len == 0
              then (let d' = record d { include_salt = false } in
                  attempt (d', buf) (zero_chunk_at d.pending header_end)
                    λ out. (ok (returned out.0), (record d' { pending = out.1 }, buf)))
              else (ok again, (record d { step = body parsed.payload_len len }, buf))

  unfoldable pub open_header : State → ℕ → Bytes → (key : Bytes × Bytes) → Result Round × State
  open_header (d, buf) header_end hdr key =
      let (opened, (nonce, hdr')) = open_ ring key.0 d.nonce [] hdr in
      let d' = record d { nonce = nonce } in
      attempt (d', buf) opened λ _. accept_header (d', buf) header_end hdr'

  unfoldable pub read_header : State → Result Round × State
  read_header (d, buf) =
      let off = header_offset d in
      let header_end = off + header_cipher_len in
      attempt (d, buf) (pending_need d.pending buf header_end)
        λ need.
          unless_need (d, buf) need
            (attempt (d, buf) (index_from (filled buf) off)
              λ rest.
                attempt (d, buf) (ok_or (get_to rest header_cipher_len) truncated)
                  λ hdr.
                    attempt (d, buf) (ok_or d.key Error.aead) (open_header (d, buf) header_end hdr))

  unfoldable pub open_body :
      State → (payload_len body_off len : ℕ) → (key cipher_and_tag : Bytes) → Result Round × State
  open_body (d, buf) payload_len body_off len key cipher_and_tag =
      let (opened, (nonce, plain)) = open_ ring key d.nonce [] cipher_and_tag in
      let buf' = write_range buf (buf.start + body_off) plain in
      attempt (record d { nonce = nonce }, buf') opened
        λ _.
          let d2 = record d { nonce = nonce; include_salt = false; step = header } in
          attempt (d2, buf') (data_at d.pending (body_off + len) (body_off, body_off + payload_len))
            λ out. (ok (returned out.0), (record d2 { pending = out.1 }, buf'))

  unfoldable pub read_body : (payload_len len : ℕ) → State → Result Round × State
  read_body payload_len len (d, buf) =
      let body_off = header_offset d + header_cipher_len in
      attempt (d, buf) (pending_need d.pending buf (body_off + len))
        λ need.
          unless_need (d, buf) need
            (attempt (d, buf) (ok_or d.key Error.aead)
              λ key.
                attempt (d, buf) (range buf (buf.start + body_off) (buf.start + (body_off + len)))
                  (open_body (d, buf) payload_len body_off len key.0))

  unfoldable pub round_at : ReadStep → State → Result Round × State
  round_at salt s = read_salt s
  round_at header s = read_header s
  round_at (body payload_len len) s = read_body payload_len len s

  -- The rest of the loop behind a round.
  unfoldable pub go_on :
      (State → Option (Result DecodeStatus × State))
      → Result Round × State
      → Option (Result DecodeStatus × State)
  go_on rest (ok again, s) = rest s
  go_on rest (ok (returned status), s) = some (ok status, s)
  go_on rest (err e, s) = some (err e, s)
  go_on rest (panic, s) = some (panic, s)

  -- `loop`, with the rounds that it may take; `none` if they do not suffice.
  unfoldable pub loop : ℕ → State → Option (Result DecodeStatus × State)
  loop zero s = none
  loop (suc rounds) s = go_on (loop rounds) (round_at s.0.step s)

  unfoldable pub decode : State → Option (Result DecodeStatus × State)
  decode s = loop 3 s
