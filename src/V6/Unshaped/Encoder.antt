-- ===== src/V6/Unshaped/Encoder.antt =====
-- `V6UnshapedEncoder` of crates/snell-protocol/src/codec/v6/unshaped.rs, over the cipher.
pub mod Plain
pub mod Failed
use snell_rs.Prelude.{
  ℕ, ◌+◌, ◌-◌, [], ◌∷◌, ◌++◌, Bool, true, false, not, ◌&&◌, length, ◌==◌, if◌then◌else◌, replicate,
}
use snell_rs.Kernel.Error.{Result, ok, err, panic, ◌>>=◌, ◌>>◌, attempt}
use snell_rs.Kernel.Consts.{
  salt_len, header_cipher_len, header_plain_len, max_packet_size, max_packet_size_v6, tag_len,
}
use snell_rs.Kernel.Slice.{Bytes, copy_from_slice, split_at_mut}
use snell_rs.Nonce
use snell_rs.Header.{HeaderBytes, plain_header}
use snell_rs.Buffer.{
  Buffer, set_record_end, range, write_range, reserve_record, extend_from_slice, truncate,
}
use snell_rs.Record.{
  EncoderState, ready, ensure_ready, after_seal, RecordSize, stream, datagram, payload_len,
}
use snell_rs.Record.Reservation.{Slot, Seal, Reservation, hold}
use snell_rs.Crypto.Entropy.{Entropy}
use snell_rs.Crypto.Aead.{Ring, derive, seal}
use snell_rs.V4.Encoder.{header_list, bytes_eq, is_err}

pub record V6UnshapedEncoder : Type 0 where
  -- by its key
  pub aead : Bytes
  pub nonce : Bytes
  pub salt : Bytes
  pub salt_sent : Bool
  pub state : EncoderState

-- The state that sealing works on.
abbrev pub State : Type 0
State = V6UnshapedEncoder × Buffer

module _ (ring : Ring) where
  unfoldable pub with_salt : Bytes → Bytes → Result V6UnshapedEncoder
  with_salt psk salt = do
    key ← derive ring psk salt
    ok (record { aead = key; nonce = Nonce.new; salt = salt; salt_sent = false; state = ready })

  unfoldable pub new : {E : Type 0} → Entropy E → Bytes → E → Result V6UnshapedEncoder
  new g psk entropy =
      let (filled, (salt, _)) = g.fill entropy (replicate salt_len 0) in
      filled >> with_salt psk salt

abbrev pub limit_of : RecordSize → ℕ
limit_of (stream _) = max_packet_size
limit_of (datagram _) = max_packet_size_v6

-- `if first { buf.range_mut(...).copy_from_slice(&self.salt) }`
unfoldable pub put_salt : V6UnshapedEncoder → Buffer → ℕ → Result Buffer
put_salt encoder buf record_start =
    if encoder.salt_sent
    then ok buf
    else (range buf record_start (record_start + salt_len) >>= λ dst.
        copy_from_slice dst encoder.salt >>= λ salt. ok (write_range buf record_start salt))

unfoldable pub reserve :
    ⦃s : Seal V6UnshapedEncoder (Unit {0})⦄ (encoder : V6UnshapedEncoder) (buf : Buffer)
    (prefix : Bytes) (size : RecordSize)
    → Result (Reservation V6UnshapedEncoder (Unit {0}))
reserve encoder buf prefix size = do
  ensure_ready encoder.state
  max_payload ← payload_len size (length prefix) (limit_of size)
  let fixed : ℕ = (if encoder.salt_sent then 0 else salt_len) + header_cipher_len
  (record_start, b1) ← reserve_record buf (fixed + max_payload + tag_len) fixed
  b2 ← put_salt encoder b1 record_start
  b3 ← extend_from_slice b2 prefix
  let slot : Slot = record {
    record_start = record_start;
    payload_start = record_start + fixed;
    prefix_len = length prefix;
    max_payload = max_payload;
  }
  ok (hold encoder b3 slot tt)

module _ (ring : Ring) where
  -- The header is written in front of its tag and sealed in place.
  unfoldable pub seal_header : ℕ → ℕ → HeaderBytes → State → Result (Unit {0}) × State
  seal_header header_start payload_start plain (enc, buf) =
      attempt (enc, buf) (range buf header_start payload_start)
        λ header.
          attempt (enc, buf) (split_at_mut header header_plain_len)
            λ parts.
              attempt (enc, buf) (copy_from_slice parts.0 (header_list plain))
                λ written.
                  let (sealed, (nonce, header')) =
                    seal ring enc.aead enc.nonce [] (written ++ parts.1) in
                  attempt (record enc { nonce = nonce }, write_range buf header_start header')
                    sealed
                    λ _.
                      (ok tt, (record enc { nonce = nonce }, write_range buf header_start header'))

  unfoldable pub seal_payload : ℕ → ℕ → State → Result (Unit {0}) × State
  seal_payload payload_start record_end (enc, buf) =
      attempt (enc, buf) (range buf payload_start record_end)
        λ payload.
          let (sealed, (nonce, cipher_and_tag)) = seal ring enc.aead enc.nonce [] payload in
          attempt (record enc { nonce = nonce }, write_range buf payload_start cipher_and_tag)
            sealed
            λ _.
              (ok tt, (record enc { nonce = nonce }, write_range buf payload_start cipher_and_tag))

  unfoldable pub seal_record : Slot → ℕ → State → Result (Unit {0}) × State
  seal_record slot payload_len (enc, buf) =
      let header_start = slot.payload_start - header_cipher_len in
      let record_end =
        if payload_len == 0
        then slot.payload_start
        else slot.payload_start + payload_len + tag_len in
      attempt (enc, buf) (set_record_end buf record_end)
        λ buf1.
          let (sealed, (enc2, buf2)) =
            seal_header header_start slot.payload_start (plain_header 0 payload_len) (enc, buf1) in
          attempt (enc2, buf2) sealed
            λ _.
              if payload_len == 0
              then (ok tt, (enc2, buf2))
              else seal_payload slot.payload_start record_end (enc2, buf2)

  -- What `finish` does with the outcome of the seal.
  unfoldable pub settle : Slot → Bytes → Result (Unit {0}) × State → Result ℕ × State
  settle slot nonce_before (outcome, (enc, buf)) =
      let enc1 = record enc {
        state = after_seal (is_err outcome && not (bytes_eq enc.nonce nonce_before));
      } in
      elim outcome [
        | ok _ ↦ (ok 0, (record enc1 { salt_sent = true }, buf))
        | err e ↦ attempt (enc1, buf) (truncate buf slot.record_start) λ buf'. (err e, (enc1, buf'))
        | panic ↦ (panic, (enc, buf))
      ]

  unfoldable pub finish : V6UnshapedEncoder → Buffer → Slot → Unit {0} → ℕ → Result ℕ × State
  finish encoder buf slot _ payload_len =
      settle slot encoder.nonce (seal_record slot payload_len (encoder, buf))

  abbrev pub v6_unshaped_seal : Seal V6UnshapedEncoder (Unit {0})
  v6_unshaped_seal = record {
    state = λ enc. enc.state;
    set_state = λ enc st. record enc { state = st };
    finish = finish;
  }
