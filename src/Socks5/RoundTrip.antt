-- ===== src/Socks5/RoundTrip.antt =====
-- The parsers of socks5.rs on what its encoders write.
use snell_rs.Prelude.{
  ℕ, ◌-◌, ◌+◌, ◌≡◌, ap, ◌∙◌, [], ◌∷◌, ◌++◌, arith, length, take, drop, append_assoc, if◌then◌else◌,
  leb, length-drop, length-take, take-append_length,
}
use snell_rs.Kernel.Error.{buffer_too_small, ok, err, done}
use snell_rs.Kernel.Slice.{Bytes, index, index_from, dst_prefix, split_at_mut, copy_from_slice-eq}
use snell_rs.Address.{Address}
use snell_rs.Address.Wire.{IsAddress, on_wire}
use snell_rs.Socks5.Codes.{
  version, Command, command_from, command_into, Reply, reply_from, reply_into,
}
use snell_rs.Socks5.{request_need, reply_need, parse_udp_packet, parse_cmd_addr}
use snell_rs.Socks5.Encode.{encode_three_addr, encode_request, encode_reply, encode_udp_packet}
use snell_rs.Socks5.Written.{
  addr_field, field_len, encoded_addr_len-field_len, parse_addr-addr_field, write_three_addr_lem,
  encode_three_addr_lem, three_add, tag_pos, length-addr_field, drop-addr_field,
}

-- What an encoder that returned has done to `dst`.
record Wrote (dst : Bytes) (x y z : ℕ) (a : Address) (n : ℕ) (dst' : Bytes) : Type 0 where
  pub count : n ≡ 3 + field_len a
  pub content : dst' ≡ x ∷ y ∷ z ∷ addr_field a (drop n dst)
  pub rest : drop n dst' ≡ drop n dst
  pub size : length dst' ≡ length dst

encode_three_addr-Wrote :
    (dst : Bytes) (x y z : ℕ) (a : Address) {n : ℕ} {dst' : Bytes}
    → IsAddress a
    → encode_three_addr dst (x ∷ y ∷ z ∷ []) a ≡ ok (n, dst')
    → Wrote dst x y z a n dst'
encode_three_addr-Wrote dst x y z a v h = ground (
  arith,
  encode_three_addr_lem dst x y z a v,
  drop-addr_field a (drop (3 + field_len a) dst),
  length-addr_field a (drop (3 + field_len a) dst),
  length-drop (3 + field_len a) dst,
)

parse_cmd_addr-addr_field {ℓ} :
    {T : Type ℓ} (build : ℕ → Address → ℕ → T) (y : ℕ) (a : Address) (more : Bytes)
    → IsAddress a
    → parse_cmd_addr (5 ∷ y ∷ 0 ∷ addr_field a more) build
      ≡ ok (done (build y (on_wire a) (3 + field_len a)))
unfolding parse_cmd_addr index index_from
parse_cmd_addr-addr_field build y a more v =
    ground (arith, length-addr_field a more, tag_pos a, parse_addr-addr_field a more v)

-- A SOCKS5 request that was encoded for a well-formed address is parsed back, with whatever stands
-- behind it in the buffer: the command as its code reads, the address as the wire carries it and
-- the number of bytes written. The rest of the buffer is as it was.
pub request_need-encode_request :
    (dst : Bytes) (c : Command) (a : Address) {n : ℕ} {dst' : Bytes}
    → IsAddress a
    → encode_request dst c a ≡ ok (n, dst')
    → request_need dst'
        ≡ ok (
            done (record {
              command = command_from (command_into c);
              destination = on_wire a;
              header_len = n;
            }))
      × (drop n dst' ≡ drop n dst)
      × (length dst' ≡ length dst)
unfolding encode_request request_need
request_need-encode_request dst c a {n} {dst'} v h = (
  rw (w.content, parse_cmd_addr-addr_field _ (command_into c) a (drop n dst) v, ← w.count),
  w.rest,
  w.size,
)
  where
    w : Wrote dst version (command_into c) 0 a n dst'
    w = encode_three_addr-Wrote dst version (command_into c) 0 a v h

-- A SOCKS5 reply that was encoded for a well-formed address is parsed back, with whatever stands
-- behind it in the buffer: the reply as its code reads, the address as the wire carries it and the
-- number of bytes written. The rest of the buffer is as it was.
pub reply_need-encode_reply :
    (dst : Bytes) (r : Reply) (a : Address) {n : ℕ} {dst' : Bytes}
    → IsAddress a
    → encode_reply dst r a ≡ ok (n, dst')
    → (reply_need dst'
        ≡ ok
            (done (record { reply = reply_from (reply_into r); bind = on_wire a; header_len = n })))
      × (drop n dst' ≡ drop n dst)
      × (length dst' ≡ length dst)
unfolding encode_reply reply_need
reply_need-encode_reply dst r a {n} {dst'} v h = (
  rw (w.content, parse_cmd_addr-addr_field _ (reply_into r) a (drop n dst) v, ← w.count),
  w.rest,
  w.size,
)
  where
    w : Wrote dst version (reply_into r) 0 a n dst'
    w = encode_three_addr-Wrote dst version (reply_into r) 0 a v h

-- `encode_udp_packet` on a destination with room: the header, the payload, and what stood behind.
encode_udp_packet_lem :
    (dst : Bytes) (frag : ℕ) (a : Address) (payload : Bytes)
    → IsAddress a
    → encode_udp_packet dst frag a payload ≡ (
        if leb (3 + field_len a + length payload) (length dst)
        then ok (
          3 + field_len a + length payload,
          0 ∷ 0 ∷ frag ∷ addr_field a (payload ++ drop (3 + field_len a + length payload) dst),
        )
        else err (buffer_too_small (3 + field_len a + length payload) (length dst)))
unfolding encode_udp_packet dst_prefix split_at_mut
encode_udp_packet_lem dst frag a payload v = ground (
  arith,
  encoded_addr_len-field_len a v,
  write_three_addr_lem (take (3 + field_len a) front) 0 0 frag a,
  length-take (3 + field_len a) front,
  length-take (3 + field_len a + length payload) dst,
  length-drop (3 + field_len a) front,
  copy_from_slice-eq (drop (3 + field_len a) front) payload,
  regroup,
)
  where
    front : Bytes
    front = take (3 + field_len a + length payload) dst

    regroup :
        (addr_field a [] ++ payload) ++ drop (3 + field_len a + length payload) dst
        ≡ addr_field a (payload ++ drop (3 + field_len a + length payload) dst)
    regroup = simp append_assoc

drop_header :
    (frag : ℕ) (a : Address) (payload : Bytes)
    → drop (3 + field_len a) (0 ∷ 0 ∷ frag ∷ addr_field a payload) ≡ payload
drop_header frag a payload = rw (three_add (field_len a)) (drop-addr_field a payload)

parse_udp_packet-addr_field :
    (frag : ℕ) (a : Address) (payload : Bytes)
    → IsAddress a
    → parse_udp_packet (0 ∷ 0 ∷ frag ∷ addr_field a payload)
      ≡ ok (record {
        frag = frag;
        destination = on_wire a;
        header_len = 3 + field_len a;
        payload = payload;
      })
unfolding parse_udp_packet index index_from
parse_udp_packet-addr_field frag a payload v = ground (
  arith,
  length-addr_field a payload,
  tag_pos a,
  parse_addr-addr_field a payload v,
  drop_header frag a payload,
)

take_datagram :
    (frag : ℕ) (a : Address) (payload rest : Bytes) (n : ℕ)
    → n ≡ 3 + field_len a + length payload
    → take n (0 ∷ 0 ∷ frag ∷ addr_field a (payload ++ rest)) ≡ 0 ∷ 0 ∷ frag ∷ addr_field a payload
take_datagram frag a payload rest n e =
    ap (λ t. take n (0 ∷ 0 ∷ frag ∷ t)) (simp append_assoc)
    ∙ ap (λ k. take k ((0 ∷ 0 ∷ frag ∷ addr_field a payload) ++ rest))
        {y = length (0 ∷ 0 ∷ frag ∷ addr_field a payload)}
        (omega (arith, length-addr_field a payload))
    ∙ take-append_length (0 ∷ 0 ∷ frag ∷ addr_field a payload) rest

-- A SOCKS5 datagram that was encoded for a well-formed address is parsed, from the bytes that the
-- encoder reports, to its fragment number, the address as the wire carries it and exactly the
-- payload.
pub parse_udp_packet-encode_udp_packet :
    (dst : Bytes) (frag : ℕ) (a : Address) (payload : Bytes) {n : ℕ} {dst' : Bytes}
    → IsAddress a
    → encode_udp_packet dst frag a payload ≡ ok (n, dst')
    → parse_udp_packet (take n dst')
      ≡ ok (record {
        frag = frag;
        destination = on_wire a;
        header_len = n - length payload;
        payload = payload;
      })
parse_udp_packet-encode_udp_packet dst frag a payload {n} {dst'} v h = ground (
  arith,
  encode_udp_packet_lem dst frag a payload v,
  take_datagram frag a payload (drop (3 + field_len a + length payload) dst) n,
  parse_udp_packet-addr_field frag a payload v,
)
