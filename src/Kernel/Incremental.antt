-- ===== src/Kernel/Incremental.antt =====
-- What crates/snell-protocol/src/parse.rs promises of an incremental parser, as an interface
-- between the parsers of the protocol and the readers of the runtime.
use snell_rs.Prelude.{ℕ, ◌≤◌, ◌<◌, ◌≡◌, ◌++◌, length, inl, inr, sym, ◌∙◌, arith}
use snell_rs.Kernel.Error.{
  Error, Result, ok, err, ParseState, need, done, Returns, ParseState-cases,
}
use snell_rs.Kernel.Slice.{Bytes}

-- `size` is the number of bytes that a finished parse has used.
pub record IsIncremental {ℓ} {A : Type ℓ} (parse : Bytes → Result (ParseState A)) (size : A → ℕ)
    : Type ℓ where
  -- The parser does not panic.
  pub returns : (buf : Bytes) → Returns (parse buf)
  -- An unfinished parse asks for more than there is.
  pub asks_more : (buf : Bytes) (n : ℕ) → parse buf ≡ ok (need n) → length buf < n
  -- What is finished, or refused, stays so when more bytes arrive.
  pub stands :
      (buf more : Bytes) (a : A) → parse buf ≡ ok (done a) → parse (buf ++ more) ≡ ok (done a)
  pub refuses : (buf more : Bytes) (e : Error) → parse buf ≡ err e → parse (buf ++ more) ≡ err e
  -- A finished parse has used bytes that are there.
  pub within : (buf : Bytes) (a : A) → parse buf ≡ ok (done a) → size a ≤ length buf
  -- It never asks for bytes behind the message.
  pub no_more_than :
      (buf more : Bytes) (n : ℕ) (a : A)
      → parse buf ≡ ok (need n)
      → parse (buf ++ more) ≡ ok (done a)
      → n ≤ size a

-- What a parser says of the front of a message `a`, when the rest has not arrived: it is finished
-- and has used bytes of the front alone, or it asks for more, and not for bytes behind the message.
pub data CutOf {ℓ} {A : Type ℓ} (parse : Bytes → Result (ParseState A)) (size : A → ℕ)
    (front : Bytes) (a : A) : Type ℓ where
  finished : parse front ≡ ok (done a) → size a ≤ length front → CutOf parse size front a
  waits :
      (n : ℕ) → parse front ≡ ok (need n) → length front < n → n ≤ size a → CutOf parse size front a

module _ {ℓ} {A : Type ℓ} (parse : Bytes → Result (ParseState A)) (size : A → ℕ)
    (p : IsIncremental parse size) where
  pub cut :
      (front more : Bytes) (a : A) → parse (front ++ more) ≡ ok (done a) → CutOf parse size front a
  cut front more a h = elim (ParseState-cases (parse front)) [
    | inl (n, e) ↦ waits n e (p.asks_more front n e) (p.no_more_than front more n a e h)
    | inr (inl (b, e)) ↦
        let e' : parse front ≡ ok (done a) = e ∙ (sym (p.stands front more b e) ∙ h) in
        finished e' (p.within front a e')
    | inr (inr (inl (x, e))) ↦ cc (p.refuses front more x e)
    | inr (inr (inr e)) ↦ absurd (ground (arith, p.returns front))
  ]
