-- ===== src/Control/Written.antt =====
-- What the encoders of control/mod.rs write, whatever `dst` held.
use snell_rs.Prelude.{
  ℕ, ◌+◌, ◌%◌, ◌≤◌, ◌<◌, ◌≡◌, ◌∙◌, [], ◌∷◌, ◌++◌, arith, length, take, drop, append_assoc,
  Bool-cases, inl, inr, leb→le, leb, Bool, true, length-drop, length-take, if◌then◌else◌, min,
}
use snell_rs.Kernel.Error.{buffer_too_small, ok, err}
use snell_rs.Kernel.Consts.{
  protocol_version, command_connect, command_connect_v2, command_error, error_reject,
}
use snell_rs.Kernel.Slice.{
  Bytes, to_be_bytes, dst_prefix, fill_two, fill_three, split_copy, split_at_mut_le, index_to_le,
  split_set, copy_from_slice-eq, length-to_be_bytes,
}
use snell_rs.Address.{Address, port}
use snell_rs.Address.Text.{IpText, host}
use snell_rs.Control.Encode.{
  connect_len, encode_connect_request, encode_reject, encode_udp_datagram, tail_parts,
}

-- `VERSION CMD 0 LEN HOST PORT` of a CONNECT, with the bytes behind it.
abbrev pub connect_bytes : Bool → Bytes → ℕ → Bytes → Bytes
connect_bytes reuse h p more =
    protocol_version
    ∷ (if reuse then command_connect_v2 else command_connect)
    ∷ 0
    ∷ (length h % 256)
    ∷ (h ++ (to_be_bytes p ++ more))

connect_len_lem : (n : ℕ) → 0 < n → n ≤ 255 → connect_len n ≡ ok (4 + n + 2)
unfolding connect_len
connect_len_lem n pos short = ground arith

-- For a host of 1 to 255 bytes the CONNECT encoder writes the version, the command, an empty
-- client id, the host and the port, leaves the rest of the buffer alone and reports the number of
-- bytes, if they fit; else it reports the room that it needs and the room that there is.
pub encode_connect_request_lem :
    (t : IpText) (dst : Bytes) (a : Address) (reuse : Bool)
    → 0 < length (host t a)
    → length (host t a) ≤ 255
    → encode_connect_request t dst a reuse ≡ (
        if leb (4 + length (host t a) + 2) (length dst)
        then ok (
          4 + length (host t a) + 2,
          connect_bytes reuse (host t a) (port a) (drop (4 + length (host t a) + 2) dst),
        )
        else err (buffer_too_small (4 + length (host t a) + 2) (length dst)))
unfolding encode_connect_request dst_prefix
encode_connect_request_lem t dst a reuse pos short = elim (Bool-cases (leb needed (length dst))) [
  | inl room ↦
      rw (connect_len_lem (length h) pos short, room)
        (fill_three (take needed dst) (take 4 (connect_bytes reuse h p [])) h (to_be_bytes p) _ (
            omega (
              arith,
              length-take needed dst,
              leb→le needed (length dst) room,
              length-to_be_bytes p,
            ))
          ∙ simp append_assoc)
  | inr full ↦ rw (connect_len_lem (length h) pos short, full)
]
  where
    h : Bytes
    h = host t a

    p : ℕ
    p = port a

    needed : ℕ
    needed = 4 + length h + 2

-- `CODE 1 LEN MESSAGE` of a reject, with the bytes behind it.
abbrev pub reject_bytes : Bytes → Bytes → Bytes
reject_bytes msg more = command_error ∷ error_reject ∷ (length msg % 256) ∷ (msg ++ more)

-- A reject carries the first 255 bytes of its message at most.
pub encode_reject_lem :
    (dst message : Bytes)
    → let msg = take (min (length message) 255) message in
      encode_reject dst message ≡ (
        if leb (3 + length msg) (length dst)
        then ok (3 + length msg, reject_bytes msg (drop (3 + length msg) dst))
        else err (buffer_too_small (3 + length msg) (length dst)))
unfolding encode_reject dst_prefix
encode_reject_lem dst message = elim (Bool-cases (leb needed (length dst))) [
  | inl room ↦
      rw (index_to_le message (min (length message) 255) (omega arith), room)
        (fill_two (take needed dst) (take 3 (reject_bytes msg [])) msg _
            (omega (arith, length-take needed dst, leb→le needed (length dst) room))
          ∙ simp append_assoc)
  | inr full ↦ rw (index_to_le message (min (length message) 255) (omega arith), full)
]
  where
    msg : Bytes
    msg = take (min (length message) 255) message

    needed : ℕ
    needed = 3 + length msg

-- `MARKER TAG ADDR PORT` of a datagram, with the bytes behind it.
abbrev pub datagram_bytes : Bytes → Address → Bytes → Bytes
datagram_bytes marker a more =
    marker ++ ((tail_parts a).0 ∷ ((tail_parts a).1 ++ (to_be_bytes (port a) ++ more)))

abbrev pub datagram_len : Bytes → Address → ℕ
datagram_len marker a = length marker + 1 + length (tail_parts a).1 + 2

pub encode_udp_datagram_lem :
    (dst marker : Bytes) (a : Address) (payload : Bytes)
    → let n = datagram_len marker a + length payload in
      encode_udp_datagram dst (datagram_len marker a) marker a payload ≡ (
        if leb n (length dst)
        then ok (n, datagram_bytes marker a (payload ++ drop n dst))
        else err (buffer_too_small n (length dst)))
unfolding encode_udp_datagram dst_prefix
encode_udp_datagram_lem dst marker a payload = elim (Bool-cases (leb n (length dst))) [
  | inl room ↦
      rw (room, split_at_mut_le front header_len (omega (arith, front_len room)))
        (split_copy header marker _ (omega (arith, header_size room))
          ∙ split_set (drop (length marker) header) (tail_parts a).0 _
              (omega (arith, header_size room, length-drop (length marker) header))
          ∙ fill_two (drop 1 (drop (length marker) header)) (tail_parts a).1 (to_be_bytes (port a))
              _ (omega (arith, rest_len room, length-to_be_bytes (port a)))
          ∙ rw (copy_from_slice-eq (drop header_len front) payload (payload_len room))
              (simp append_assoc))
  | inr full ↦ rw full
]
  where
    header_len : ℕ
    header_len = datagram_len marker a

    n : ℕ
    n = header_len + length payload

    front : Bytes
    front = take n dst

    header : Bytes
    header = take header_len front

    front_len : leb n (length dst) ≡ true → length front ≡ n
    front_len room = omega (arith, length-take n dst, leb→le n (length dst) room)

    header_size : leb n (length dst) ≡ true → length header ≡ header_len
    header_size room = omega (arith, length-take header_len front, front_len room)

    rest_len :
        leb n (length dst) ≡ true
        → length (drop 1 (drop (length marker) header)) ≡ length (tail_parts a).1 + 2
    rest_len room = omega (
      arith,
      header_size room,
      length-drop (length marker) header,
      length-drop 1 (drop (length marker) header),
    )

    payload_len : leb n (length dst) ≡ true → length (drop header_len front) ≡ length payload
    payload_len room = omega (arith, length-drop header_len front, front_len room)
