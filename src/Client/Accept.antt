-- ===== src/Client/Accept.antt =====
-- `accept_socks5` of client/socks.rs as a whole.
use snell_rs.Prelude.{
  ℕ, ◌+◌, ◌≤◌, ◌≡◌, refl, [], ◌∷◌, ◌++◌, length, if◌then◌else◌, arith, true, false,
}
use snell_rs.Kernel.Error.{done, ok, oversized_greeting, oversized_request}
use snell_rs.Kernel.Slice.{Bytes, dst_prefix, split_at_mut, copy_from_slice, to_be_bytes}
use snell_rs.Address.{Address, port}
use snell_rs.Socks5.{Greeting, Request, supports, greeting_need, request_need}
use snell_rs.Socks5.Codes.{
  Command, command_not_supported, Command.connect, Command.udp_associate, Command.bind,
  Command.other, reply_into,
}
use snell_rs.Socks5.Encode.{
  encode_method_selection, encode_reply, encode_three_addr, encoded_addr_len, write_three_addr,
  addr_parts,
}
use snell_rs.Socks5.Messages.{greeting_need-IsIncremental, request_need-IsIncremental}
use snell_rs.Session.{SessionError, no_acceptable_method}
use snell_rs.Client.{
  Stream, Session, returned, failed, panicked, spinning, ◌>>=◌, read_message, write_method,
  write_encoded, write_socks5_reply, write_socks5_reply_bind, accept_greeting, accept_socks5,
  run_command, max_greeting_len, max_request_len, method_no_auth, method_no_acceptable,
}
use snell_rs.Client.Read.{Ends, read_message_from, read_message-Ends}

write_method_lem :
    (s : Stream) (m : ℕ)
    → write_method s m ≡ returned tt (record s { written = s.written ++ (5 ∷ m ∷ []) })
unfolding write_method write_encoded encode_method_selection dst_prefix copy_from_slice
write_method_lem s m = refl

accept_greeting_lem :
    (g more w : Bytes) (greeting : Greeting)
    → greeting_need g ≡ ok (done greeting)
    → greeting.consumed_len ≡ length g
    → length g ≤ max_greeting_len
    → supports greeting method_no_auth ≡ true
    → accept_greeting (record { incoming = g ++ more; written = w })
      ≡ returned tt (record { incoming = more; written = w })
unfolding accept_greeting
accept_greeting_lem g more w greeting h whole fits ok_method = rw (
  read_message_from greeting_need (λ g. g.consumed_len) greeting_need-IsIncremental max_greeting_len
      oversized_greeting (max_greeting_len + 1) [] g more w greeting h whole (omega arith)
      (omega arith),
  ok_method,
)

-- If the peer sends a greeting that offers no authentication and then a request, each parsed whole
-- and within its buffer, `accept_socks5` answers the greeting with method 0 and goes on to run the
-- command of the request, and all that the peer sends behind the request is still in the stream.
pub accept_socks5_lem :
    (g r more w : Bytes) (greeting : Greeting) (request : Request)
    → greeting_need g ≡ ok (done greeting)
    → greeting.consumed_len ≡ length g
    → length g ≤ max_greeting_len
    → supports greeting method_no_auth ≡ true
    → request_need r ≡ ok (done request)
    → request.header_len ≡ length r
    → length r ≤ max_request_len
    → accept_socks5 (record { incoming = g ++ (r ++ more); written = w })
      ≡ run_command request.command request.destination
          (record { incoming = more; written = w ++ (5 ∷ 0 ∷ []) })
unfolding accept_socks5
accept_socks5_lem g r more w greeting request hg wg fg ok_method hr wr fr = rw (
  accept_greeting_lem g (r ++ more) w greeting hg wg fg ok_method,
  write_method_lem (record { incoming = r ++ more; written = w }) method_no_auth,
  read_message_from request_need (λ r. r.header_len) request_need-IsIncremental max_request_len
      oversized_request (max_request_len + 1) [] r more (w ++ (5 ∷ 0 ∷ [])) request hr wr
      (omega arith) (omega arith),
)

Ends->>= :
    {A B : Type 0} (m : Session A) (f : A → Stream → Session B)
    → Ends m
    → ((a : A) (s : Stream) → Ends (f a s))
    → Ends (m >>= f)
Ends->>= (returned a s) f h k = k a s
Ends->>= (failed e s) f h k = tt
Ends->>= panicked f h k = h
Ends->>= spinning f h k = h

write_method-Ends : (s : Stream) (m : ℕ) → Ends (write_method s m)
write_method-Ends s m = rw (Ends, write_method_lem s m) tt

-- The reply that refuses a command, for an unspecified address.
abbrev pub refusal : Bytes
refusal = 5 ∷ 7 ∷ 0 ∷ 1 ∷ 0 ∷ 0 ∷ 0 ∷ 0 ∷ 0 ∷ 0 ∷ []

write_socks5_reply_lem :
    (s : Stream)
    → write_socks5_reply s command_not_supported
      ≡ returned tt (record s { written = s.written ++ refusal })
unfolding write_socks5_reply write_socks5_reply_bind write_encoded encode_reply encode_three_addr
    encoded_addr_len write_three_addr addr_parts reply_into dst_prefix split_at_mut copy_from_slice
    to_be_bytes port
write_socks5_reply_lem s = refl

run_command-Ends : (c : Command) (d : Address) (s : Stream) → Ends (run_command c d s)
unfolding run_command
run_command-Ends connect d s = tt
run_command-Ends udp_associate d s = tt
run_command-Ends bind d s = rw (Ends, write_socks5_reply_lem s) tt
run_command-Ends (other n) d s = rw (Ends, write_socks5_reply_lem s) tt

write_method-failed-Ends :
    (s : Stream) (m : ℕ) (e : SessionError)
    → Ends (◌>>=◌ {B = Unit {0}} (write_method s m) (λ _ s'. failed e s'))
write_method-failed-Ends s m e = rw (Ends, write_method_lem s m) tt

accept_greeting-Ends : (s : Stream) → Ends (accept_greeting s)
unfolding accept_greeting
accept_greeting-Ends s =
    Ends->>=
      (read_message greeting_need max_greeting_len oversized_greeting (max_greeting_len + 1) [] s) _
      (read_message-Ends greeting_need (λ g. g.consumed_len) greeting_need-IsIncremental
        max_greeting_len oversized_greeting (max_greeting_len + 1) [] s (omega arith) (omega arith))
      (λ g s'.
        elim (supports g method_no_auth)
          as (λ b. Ends (
            if b
            then returned tt s'
            else (write_method s' method_no_acceptable >>= λ _ s''.
                failed no_acceptable_method s''))) [
                  | true ↦ tt
                  | false ↦ write_method-failed-Ends s' method_no_acceptable no_acceptable_method
                ])

-- Whatever the peer sends, `accept_socks5` ends with a command or an error: its loops do not run
-- out of fuel, and nothing in it panics.
pub accept_socks5-Ends : (s : Stream) → Ends (accept_socks5 s)
unfolding accept_socks5
accept_socks5-Ends s = Ends->>= (accept_greeting s) _ (accept_greeting-Ends s) (λ _ s1.
    Ends->>= (write_method s1 method_no_auth) _ (write_method-Ends s1 method_no_auth) (λ _ s2.
      Ends->>=
        (read_message request_need max_request_len oversized_request (max_request_len + 1) [] s2) _
        (read_message-Ends request_need (λ r. r.header_len) request_need-IsIncremental
          max_request_len oversized_request (max_request_len + 1) [] s2 (omega arith) (omega arith))
        (λ r s3. run_command-Ends r.command r.destination s3)))
