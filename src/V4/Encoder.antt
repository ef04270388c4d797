-- ===== src/V4/Encoder.antt =====
-- `V4Encoder` of crates/snell-protocol/src/codec/v4/mod.rs. The cipher, the random bytes and the fill
-- of the padding are parameters, and the clock's reading is an argument of `reserve`.
pub mod Sealed
pub mod Failed
pub mod Reserved
pub mod Written
pub mod Send
pub mod Dropped
use snell_rs.Prelude.{
  ℕ, ◌+◌, ◌%◌, ◌*◌, [], ◌∷◌, ◌++◌, Bool, true, false, not, ◌&&◌, length, take, drop, ltb, leb, ◌==◌,
  if◌then◌else◌, replicate,
}
use snell_rs.Kernel.Error.{payload_too_large, Result, ok, err, panic, ◌>>=◌, ◌>>◌, fail_if, attempt}
use snell_rs.Kernel.Consts.{
  salt_len, header_cipher_len, header_plain_len, max_packet_size, tag_len, v4_initial_padding_min,
  v4_initial_padding_span,
}
use snell_rs.Kernel.Slice.{Bytes, copy_from_slice, split_at_mut}
use snell_rs.Chunk.{V4ChunkState, record_budget, commit_write, salt_sent}
use snell_rs.Chunk
use snell_rs.Nonce
use snell_rs.Header.{HeaderBytes, plain_header}
use snell_rs.Buffer.{
  Buffer, set_record_end, range, write_range, reserve_record, extend_from_slice, truncate,
}
use snell_rs.Record.{
  EncoderState, ready, ensure_ready, after_seal, RecordSize, stream, datagram, payload_len,
}
use snell_rs.Record.Reservation.{Slot, Seal, Reservation, hold}
use snell_rs.Crypto.Entropy.{Entropy}
use snell_rs.Crypto.Aead.{Ring, derive, seal}
use snell_rs.V4.Padding.{swap_even_indices}

pub record V4Encoder (E : Type 0) : Type 0 where
  -- by its key
  pub aead : Bytes
  pub nonce : Bytes
  pub salt : Bytes
  pub entropy : E
  pub chunk : V4ChunkState
  pub state : EncoderState

pub record V4Record : Type 0 where
  pub header_start : ℕ
  pub padding_len : ℕ
  pub budget : ℕ
  pub reserved_at : ℕ

-- `fill_v4_padding`, with the padding and the sealed payload.
pub record PaddingFill (E : Type 0) : Type 0 where
  pub fill_v4_padding : (padding payload_cipher : Bytes) → E → Result (Unit {0}) × (Bytes × E)

abbrev pub header_list : HeaderBytes → Bytes
header_list h = h.b0 ∷ h.b1 ∷ h.b2 ∷ h.b3 ∷ h.b4 ∷ h.b5 ∷ h.b6 ∷ []

-- `u32::from_le_bytes`
unfoldable pub from_le_bytes : Bytes → ℕ
from_le_bytes [] = 0
from_le_bytes (b ∷ bytes) = b + 256 * from_le_bytes bytes

module _ {E : Type 0} (ring : Ring) where
  unfoldable pub with_salt : Bytes → Bytes → ℕ → E → Result (V4Encoder E)
  with_salt psk salt initial_padding_len entropy = do
    fail_if (ltb max_packet_size initial_padding_len) payload_too_large
    key ← derive ring psk salt
    ok (record {
      aead = key;
      nonce = Nonce.new;
      salt = salt;
      entropy = entropy;
      chunk = Chunk.new initial_padding_len;
      state = ready;
    })

  -- A generator that fails ends with the call.
  unfoldable pub new : Entropy E → Bytes → E → Result (V4Encoder E)
  new g psk entropy =
      let (salt_filled, (salt, entropy1)) = g.fill entropy (replicate salt_len 0) in
      let (span_filled, (span, entropy2)) = g.fill entropy1 (replicate 4 0) in
      salt_filled
      >> span_filled
      >> with_salt psk salt (v4_initial_padding_min + from_le_bytes span % v4_initial_padding_span)
          entropy2

-- The layout of a record of at most `max_payload` bytes of payload.
abbrev pub salt_room : {E : Type 0} → V4Encoder E → ℕ
salt_room encoder = if salt_sent encoder.chunk then 0 else salt_len

abbrev pub padding_for : {E : Type 0} → V4Encoder E → ℕ → ℕ
padding_for encoder max_payload =
    if not (salt_sent encoder.chunk) && ltb 0 max_payload
    then encoder.chunk.initial_padding_len
    else 0

-- `if first { buf.range_mut(...).copy_from_slice(&self.salt) }`
unfoldable pub put_salt : {E : Type 0} → V4Encoder E → Buffer → ℕ → Result Buffer
put_salt encoder buf record_start =
    if salt_sent encoder.chunk
    then ok buf
    else (range buf record_start (record_start + salt_len) >>= λ dst.
        copy_from_slice dst encoder.salt >>= λ salt. ok (write_range buf record_start salt))

unfoldable pub lay_out :
    {E : Type 0} ⦃s : Seal (V4Encoder E) V4Record⦄ (encoder : V4Encoder E) (buf : Buffer)
    (prefix : Bytes) (now budget max_payload : ℕ)
    → Result (Reservation (V4Encoder E) V4Record)
lay_out encoder buf prefix now budget max_payload = do
  let padding_len : ℕ = padding_for encoder max_payload
  let fixed : ℕ = salt_room encoder + (header_cipher_len + padding_len)
  (record_start, b1) ← reserve_record buf (fixed + max_payload + tag_len) fixed
  b2 ← put_salt encoder b1 record_start
  b3 ← extend_from_slice b2 prefix
  let slot : Slot = record {
    record_start = record_start;
    payload_start = record_start + fixed;
    prefix_len = length prefix;
    max_payload = max_payload;
  }
  let layout : V4Record = record {
    header_start = record_start + salt_room encoder;
    padding_len = padding_len;
    budget = budget;
    reserved_at = now;
  }
  ok (hold encoder b3 slot layout)

abbrev pub limit_of : RecordSize → ℕ → ℕ
limit_of (stream _) budget = budget
limit_of (datagram _) budget = max_packet_size

unfoldable pub reserve :
    {E : Type 0} ⦃s : Seal (V4Encoder E) V4Record⦄ (encoder : V4Encoder E) (buf : Buffer)
    (prefix : Bytes) (size : RecordSize) (now : ℕ)
    → Result (Reservation (V4Encoder E) V4Record)
reserve encoder buf prefix size now = do
  ensure_ready encoder.state
  let budget : ℕ = record_budget encoder.chunk now
  max_payload ← payload_len size (length prefix) (limit_of size budget)
  lay_out encoder buf prefix now budget max_payload

unfoldable pub is_err : Result (Unit {0}) → Bool
is_err (err _) = true
is_err _ = false

unfoldable pub bytes_eq : Bytes → Bytes → Bool
bytes_eq [] [] = true
bytes_eq [] (y ∷ ys) = false
bytes_eq (x ∷ xs) [] = false
bytes_eq (x ∷ xs) (y ∷ ys) = x == y && bytes_eq xs ys

module _ {E : Type 0} (ring : Ring) (fill : PaddingFill E) where
  -- The header is written in front of its tag and sealed in place.
  unfoldable pub seal_header :
      ℕ → HeaderBytes → V4Encoder E × Buffer → Result (Unit {0}) × (V4Encoder E × Buffer)
  seal_header header_start plain (enc, buf) =
      attempt (enc, buf) (range buf header_start (header_start + header_cipher_len))
        λ header.
          attempt (enc, buf) (split_at_mut header header_plain_len)
            λ parts.
              attempt (enc, buf) (copy_from_slice parts.0 (header_list plain))
                λ written.
                  let (sealed, (nonce, header')) =
                    seal ring enc.aead enc.nonce [] (written ++ parts.1) in
                  attempt (record enc { nonce = nonce }, write_range buf header_start header')
                    sealed
                    λ _.
                      (ok tt, (record enc { nonce = nonce }, write_range buf header_start header'))

  -- `if padding_len > 0`: fill, then swap.
  unfoldable pub cover :
      V4Encoder E → Bytes → Bytes → Result (Unit {0}) × (V4Encoder E × (Bytes × Bytes))
  cover enc padding cipher_and_tag =
      if length padding == 0
      then (ok tt, (enc, (padding, cipher_and_tag)))
      else (let (filled, (padding', entropy)) =
            fill.fill_v4_padding padding cipher_and_tag enc.entropy in
          let enc' = record enc { entropy = entropy } in
          attempt (enc', (padding', cipher_and_tag)) filled
            λ _. (ok tt, (enc', swap_even_indices padding' cipher_and_tag)))

  unfoldable pub seal_body :
      ℕ → ℕ → ℕ → V4Encoder E × Buffer → Result (Unit {0}) × (V4Encoder E × Buffer)
  seal_body padding_start record_end padding_len (enc, buf) =
      attempt (enc, buf) (range buf padding_start record_end)
        λ body.
          attempt (enc, buf) (split_at_mut body padding_len)
            λ parts.
              let (sealed, (nonce, cipher_and_tag)) = seal ring enc.aead enc.nonce [] parts.1 in
              let enc1 = record enc { nonce = nonce } in
              attempt (enc1, write_range buf padding_start (parts.0 ++ cipher_and_tag)) sealed
                λ _.
                  let (covered, (enc2, (padding', cipher'))) = cover enc1 parts.0 cipher_and_tag in
                  attempt (enc2, write_range buf padding_start (padding' ++ cipher')) covered
                    λ _. (ok tt, (enc2, write_range buf padding_start (padding' ++ cipher')))

  unfoldable pub seal_record :
      Slot → V4Record → ℕ → V4Encoder E × Buffer → Result (Unit {0}) × (V4Encoder E × Buffer)
  seal_record slot layout payload_len (enc, buf) =
      let padding_start = layout.header_start + header_cipher_len in
      let padding_len = if payload_len == 0 then 0 else layout.padding_len in
      let record_end =
        if payload_len == 0 then padding_start else slot.payload_start + payload_len + tag_len in
      attempt (enc, buf) (set_record_end buf record_end)
        λ buf1.
          let (sealed, (enc2, buf2)) =
            seal_header layout.header_start (plain_header padding_len payload_len) (enc, buf1) in
          attempt (enc2, buf2) sealed
            λ _.
              if payload_len == 0
              then (ok tt, (enc2, buf2))
              else seal_body padding_start record_end padding_len (enc2, buf2)

  -- What `finish` does with the outcome of the seal.
  unfoldable pub settle :
      Slot
      → V4Record
      → Bytes
      → Result (Unit {0}) × (V4Encoder E × Buffer)
      → Result ℕ × (V4Encoder E × Buffer)
  unfolding is_err bytes_eq
  settle slot layout nonce_before (outcome, (enc, buf)) =
      let enc1 = record enc {
        state = after_seal (is_err outcome && not (bytes_eq enc.nonce nonce_before));
      } in
      elim outcome [
        | ok _ ↦ (
          ok 0,
          (record enc1 { chunk = commit_write enc.chunk layout.reserved_at layout.budget }, buf),
        )
        | err e ↦ attempt (enc1, buf) (truncate buf slot.record_start) λ buf'. (err e, (enc1, buf'))
        | panic ↦ (panic, (enc, buf))
      ]

  unfoldable pub finish :
      V4Encoder E → Buffer → Slot → V4Record → ℕ → Result ℕ × (V4Encoder E × Buffer)
  finish encoder buf slot layout payload_len =
      settle slot layout encoder.nonce (seal_record slot layout payload_len (encoder, buf))

  abbrev pub v4_seal : Seal (V4Encoder E) V4Record
  v4_seal = record {
    state = λ enc. enc.state;
    set_state = λ enc st. record enc { state = st };
    finish = finish;
  }
