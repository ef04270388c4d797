-- ===== src/Client/Read.antt =====
-- The read loop of `accept_socks5` in client/socks.rs, for every incremental parser.
use snell_rs.Prelude.{
  ℕ, zero, suc, ◌+◌, ◌-◌, ◌≤◌, ◌<◌, ◌≡◌, refl, sym, ap, ◌∙◌, [], ◌∷◌, ◌++◌, length, take, drop,
  arith, inl, inr, append_assoc, take-append_le, drop-append_le, take-append-drop, length-append,
  length-take, length-drop, le→leb,
}
use snell_rs.Kernel.Error.{Malformed, ParseState, need, done, Result, ok, ParseState-cases}
use snell_rs.Kernel.Slice.{Bytes}
use snell_rs.Kernel.Incremental.{IsIncremental, finished, waits, cut}
use snell_rs.Client.{Stream, Session, returned, failed, panicked, spinning, read_message}

-- The call ends, with a value or an error.
abbrev pub Ends {ℓ} : {A : Type ℓ} → Session A → Type 0
Ends (returned a s) = Unit {0}
Ends (failed e s) = Unit {0}
Ends panicked = ⊥
Ends spinning = ⊥

module _ {ℓ} {A : Type ℓ} (parse : Bytes → Result (ParseState A)) (size : A → ℕ)
    (p : IsIncremental parse size) (max : ℕ) (oversized : Malformed) where
  no_rest : (rest more : Bytes) → length rest ≡ 0 → rest ++ more ≡ more
  no_rest [] more e = refl
  no_rest (x ∷ rest) more e = absurd (omega arith)

  read_done :
      (fuel : ℕ) (filled : Bytes) (s : Stream) (a : A)
      → parse filled ≡ ok (done a)
      → read_message parse max oversized (suc fuel) filled s ≡ returned a s
  unfolding read_message
  read_done fuel filled s a e = rw (read_message, e)

  read_more :
      (fuel : ℕ) (filled rest more w : Bytes) (n : ℕ)
      → parse filled ≡ ok (need n)
      → length filled ≤ n
      → n ≤ max
      → n - length filled ≤ length rest
      → read_message parse max oversized
          (suc fuel)
          filled
          (record { incoming = rest ++ more; written = w })
        ≡ read_message parse max oversized fuel
            (filled ++ take (n - length filled) rest)
            (record { incoming = drop (n - length filled) rest ++ more; written = w })
  unfolding read_message
  read_more fuel filled rest more w n e lo hi have = rw (
    read_message,
    e,
    le→leb (length filled) n lo,
    le→leb n max hi,
    le→leb (n - length filled) (length (rest ++ more)) (omega (arith, length-append rest more)),
    take-append_le (n - length filled) rest more have,
    drop-append_le (n - length filled) rest more have,
  )

  pub read_message_from :
      (fuel : ℕ) (filled rest more w : Bytes) (a : A)
      → parse (filled ++ rest) ≡ ok (done a)
      → size a ≡ length (filled ++ rest)
      → size a ≤ max
      → length rest < fuel
      → read_message parse max oversized fuel filled
          (record { incoming = rest ++ more; written = w })
        ≡ returned a (record { incoming = more; written = w })
  read_message_from zero filled rest more w a h whole fits enough = absurd (omega arith)
  read_message_from (suc fuel) filled rest more w a h whole fits enough =
      elim (cut parse size p filled rest a h) [
        | finished e within ↦
            rw (no_rest rest more (omega (arith, length-append filled rest)))
              (read_done fuel filled (record { incoming = more; written = w }) a e)
        | waits n e lo hi ↦
            let m : ℕ = n - length filled in
            let sizes = length-append filled rest in
            let again : (filled ++ take m rest) ++ drop m rest ≡ filled ++ rest =
              append_assoc filled (take m rest) (drop m rest)
              ∙ ap (λ t. filled ++ t) (take-append-drop m rest) in
            read_more fuel filled rest more w n e (omega arith) (omega arith) (omega (arith, sizes))
            ∙ read_message_from fuel (filled ++ take m rest) (drop m rest) more w a
                (ap parse again ∙ h) (whole ∙ ap length (sym again)) fits
                (omega (arith, length-drop m rest))
      ]

  -- With fuel for every byte that the buffer has room for, the loop ends.
  pub read_message-Ends :
      (fuel : ℕ) (filled : Bytes) (s : Stream)
      → length filled ≤ max
      → max < length filled + fuel
      → Ends (read_message parse max oversized fuel filled s)
  unfolding read_message
  read_message-Ends zero filled s h enough = absurd (omega arith)
  read_message-Ends (suc fuel) filled s h enough = elim (ParseState-cases (parse filled)) [
    | inl (n, e) ↦ ground (
      arith,
      e,
      p.asks_more filled n e,
      read_message-Ends fuel (filled ++ take (n - length filled) s.incoming)
          (record s { incoming = drop (n - length filled) s.incoming }),
      length-append filled (take (n - length filled) s.incoming),
      length-take (n - length filled) s.incoming,
    )
    | inr (inl (b, e)) ↦ rw (Ends, read_message, e) tt
    | inr (inr (inl (x, e))) ↦ rw (Ends, read_message, e) tt
    | inr (inr (inr e)) ↦ absurd (ground (arith, p.returns filled))
  ]
