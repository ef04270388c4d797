-- ===== src/Outbound/Returned.antt =====
-- What server/outbound.rs has done when `socks5_request` returns.
use snell_rs.Prelude.{
  ℕ, zero, suc, ◌+◌, ◌-◌, ◌≤◌, ◌≡◌, refl, sym, ap, ◌∙◌, [], ◌∷◌, ◌++◌, length, take, drop,
  replicate, arith, inl, inr, length-append, length-take_of_le,
}
use snell_rs.Kernel.Error.{
  Malformed, oversized_reply, ParseState, Result, ok, err, panic, ParseState-cases, need, done,
}
use snell_rs.Kernel.Slice.{Bytes, index_to, dst_prefix, split_at_mut, copy_from_slice}
use snell_rs.Address.{Address}
use snell_rs.Socks5.{ReplyMessage, method_selection_need, reply_need}
use snell_rs.Socks5.Codes.{Command}
use snell_rs.Socks5.Encode.{encode_greeting, encode_request}
use snell_rs.Client.{
  Stream, Session, returned, failed, panicked, spinning, ◌>>=◌, read_message, max_request_len,
  method_no_auth,
}
use snell_rs.Outbound.{greet, request, read_exact, lift, select, succeed}

pub >>=-eq-returned {ℓ κ} :
    {A : Type ℓ} {B : Type κ} (m : Session A) (f : A → Stream → Session B) {b : B} {t : Stream}
    → (m >>= f) ≡ returned b t
    → (a : A) × (s : Stream) × (m ≡ returned a s) × (f a s ≡ returned b t)
>>=-eq-returned (returned a s) f h = (a, s, refl, h)
>>=-eq-returned (failed e s) f h = cc
>>=-eq-returned panicked f h = cc
>>=-eq-returned spinning f h = cc

ok-eq {ℓ} : {A : Type ℓ} {a b : A} → ok a ≡ ok b → a ≡ b
ok-eq e = cc

lift-eq-returned {ℓ} :
    {A : Type ℓ} (r : Result A) (s : Stream) {a : A} {t : Stream}
    → lift r s ≡ returned a t
    → (r ≡ ok a) × (s ≡ t)
lift-eq-returned (ok a) s h = (cc, cc)
lift-eq-returned (err e) s h = cc
lift-eq-returned panic s h = cc

pub greeting_written :
    encode_greeting (replicate max_request_len 0) (method_no_auth ∷ [])
    ≡ ok (3, 5 ∷ 1 ∷ 0 ∷ replicate 259 0)
unfolding encode_greeting dst_prefix split_at_mut copy_from_slice
greeting_written = refl

-- Reading writes nothing.
read_message-written :
    {A : Type 0} (parse : Bytes → Result (ParseState A)) (max : ℕ) (oversized : Malformed)
    (fuel : ℕ) (filled : Bytes) (s t : Stream) (a : A)
    → read_message parse max oversized fuel filled s ≡ returned a t
    → t.written ≡ s.written
unfolding read_message
read_message-written parse max oversized zero filled s t a h = cc
read_message-written parse max oversized (suc fuel) filled s t a h =
    elim (ParseState-cases (parse filled)) [
      | inl (n, e) ↦ ground (
        arith,
        e,
        read_message-written parse max oversized fuel
            (filled ++ take (n - length filled) s.incoming)
            (record s { incoming = drop (n - length filled) s.incoming }) t a,
      )
      | inr (inl (b, e)) ↦ ground (arith, e)
      | inr (inr (inl (x, e))) ↦ ground (arith, e)
      | inr (inr (inr e)) ↦ ground (arith, e)
    ]

select-eq-returned :
    (m : ParseState ℕ) (s t : Stream) (u : Unit {0}) → select m s ≡ returned u t → s ≡ t
select-eq-returned (done m) s t u h = ground arith
select-eq-returned (need n) s t u h = cc

succeed-eq-returned :
    (q : ReplyMessage) (s t : Stream) (a : Address) → succeed q s ≡ returned a t → s ≡ t
succeed-eq-returned q s t a h = ground arith

read_exact-eq-returned :
    (n : ℕ) (s t : Stream) (b : Bytes)
    → read_exact n s ≡ returned b t
    → (length b ≡ n) × (t.written ≡ s.written)
unfolding read_exact
read_exact-eq-returned n s t b h = ground (arith, length-take_of_le n s.incoming)

index_to-eq-ok :
    (b : Bytes) (n : ℕ) (out : Bytes) → index_to b n ≡ ok out → (n ≤ length b) × (out ≡ take n b)
unfolding index_to
index_to-eq-ok b n out h = ground arith

-- The half of `greet` that reads.
answer-eq-returned :
    (g : Bytes) (s t : Stream) (buf : Bytes)
    → (read_exact 2 s >>= λ answer s4. lift (method_selection_need answer) s4 >>= λ method s5.
        select method s5 >>= λ _ s6. returned (answer ++ drop 2 g) s6)
      ≡ returned buf t
    → (length buf ≡ 2 + length (drop 2 g)) × (t.written ≡ s.written)
answer-eq-returned g s t buf h =
    let (answer, s4, h4, k4) = >>=-eq-returned (read_exact 2 s) _ h in
    let (method, s5, h5, k5) = >>=-eq-returned (lift (method_selection_need answer) s4) _ k4 in
    let (u, s6, h6, k6) = >>=-eq-returned (select method s5) _ k5 in
    let got = read_exact-eq-returned 2 s s4 answer h4 in
    let named = lift-eq-returned (method_selection_need answer) s4 h5 in
    let chosen = select-eq-returned method s5 s6 u h6 in
    let whole : (answer ++ drop 2 g ≡ buf) × (s6 ≡ t) = (cc, cc) in
    (
      ap length (sym whole.0)
          ∙ length-append answer (drop 2 g)
          ∙ ap (λ (m : ℕ). m + length (drop 2 g)) got.0,
      ap (λ (q : Stream). q.written) (sym (named.1 ∙ chosen ∙ whole.1)) ∙ got.1,
    )

-- `greet` writes one greeting, and its buffer is as long as before.
pub greet-eq-returned :
    (s t : Stream) (buf : Bytes)
    → greet s ≡ returned buf t
    → (length buf ≡ max_request_len) × (t.written ≡ s.written ++ (5 ∷ 1 ∷ 0 ∷ []))
unfolding greet
greet-eq-returned s t buf h =
    let start = encode_greeting (replicate max_request_len 0) (method_no_auth ∷ []) in
    let (g, s1, h1, k1) = >>=-eq-returned (lift start s) _ h in
    let (out, s2, h2, k2) = >>=-eq-returned (lift (index_to g.1 g.0) s1) _ k1 in
    let first = lift-eq-returned start s h1 in
    let greeting : g ≡ (3, 5 ∷ 1 ∷ 0 ∷ replicate 259 0) = ok-eq (sym first.0 ∙ greeting_written) in
    let sent = lift-eq-returned (index_to g.1 g.0) s1 h2 in
    let cut = index_to-eq-ok g.1 g.0 out sent.0 in
    let rest = answer-eq-returned g.1 (record s2 { written = s2.written ++ out }) t buf k2 in
    (
      rest.0 ∙ ap (λ (p : ℕ × Bytes). 2 + length (drop 2 p.1)) greeting,
      rest.1
          ∙ ap (λ (q : Stream). q.written ++ out) (sym (first.1 ∙ sent.1))
          ∙ ap (λ q. s.written ++ q) (cut.1 ∙ ap (λ (p : ℕ × Bytes). take p.0 p.1) greeting),
    )

-- `request` writes what was encoded.
pub request-eq-returned :
    (c : Command) (a : Address) (old : Bytes) (s t : Stream) (bind : Address)
    → request c a old s ≡ returned bind t
    → (n : ℕ) × (buf : Bytes) × (encode_request old c a ≡ ok (n, buf))
      × (n ≤ length buf)
      × (t.written ≡ s.written ++ take n buf)
unfolding request
request-eq-returned c a old s t bind h =
    let (r, s1, h1, k1) = >>=-eq-returned (lift (encode_request old c a) s) _ h in
    let (out, s2, h2, k2) = >>=-eq-returned (lift (index_to r.1 r.0) s1) _ k1 in
    let s3 : Stream = record s2 { written = s2.written ++ out } in
    let m = read_message reply_need max_request_len oversized_reply (max_request_len + 1) [] s3 in
    let (reply, s4, h4, k4) = >>=-eq-returned m succeed k2 in
    let first = lift-eq-returned (encode_request old c a) s h1 in
    let sent = lift-eq-returned (index_to r.1 r.0) s1 h2 in
    let cut = index_to-eq-ok r.1 r.0 out sent.0 in
    (
      r.0,
      r.1,
      first.0,
      cut.0,
      ap (λ (q : Stream). q.written) (sym (succeed-eq-returned reply s4 t bind k4))
          ∙ read_message-written reply_need max_request_len oversized_reply (max_request_len + 1) []
              s3 s4 reply h4
          ∙ ap (λ (q : Stream). q.written ++ out) (sym sent.1 ∙ sym first.1)
          ∙ ap (λ q. s.written ++ q) cut.1,
    )
