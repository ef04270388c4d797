-- ===== src/Config/Str/Trim.antt =====
-- Texts that crates/snell-config/src/lib.rs does not have to trim.
use snell_rs.Prelude.{
  ℕ, ◌≡◌, refl, sym, ap, ◌∙◌, [], ◌∷◌, ◌++◌, none, some, false, ◌==◌, arith, append-nil,
  append_assoc, ==_refl,
}
use mathlib.Core.List.{reverse, reverse-append, reverse-reverse}
use snell_rs.Config.Error.{Text}
use snell_rs.Config.Str.{
  is_whitespace, trim_start, trim_end, trim, strip_suffix, without_return, lines_from, split_once,
}

-- The last character of a text, by its first and the rest.
abbrev pub last_of : ℕ → Text → ℕ
last_of c [] = c
last_of c (d ∷ s) = last_of d s

abbrev pub Solid : ℕ → Type 0
Solid c = is_whitespace c ≡ false

-- Neither end is white space.
abbrev pub IsTrimmed : Text → Type 0
IsTrimmed [] = Unit {0}
IsTrimmed (c ∷ s) = Solid c × Solid (last_of c s)

pub last_of-append : (c : ℕ) (s : Text) (d : ℕ) (t : Text) → last_of c (s ++ d ∷ t) ≡ last_of d t
last_of-append c [] d t = refl
last_of-append c (x ∷ s) d t = last_of-append x s d t

reverse_last : (c : ℕ) (s : Text) → (r : Text) × (reverse (c ∷ s) ≡ last_of c s ∷ r)
reverse_last c [] = ([], refl)
reverse_last c (d ∷ s) =
    let (r, e) = reverse_last d s in
    (r ++ c ∷ [], reverse-append (c ∷ []) (d ∷ s) ∙ ap (λ t. t ++ c ∷ []) e)

pub trim-IsTrimmed : (s : Text) → IsTrimmed s → trim s ≡ s
unfolding trim trim_end trim_start
trim-IsTrimmed [] h = refl
trim-IsTrimmed (c ∷ s) h =
    let (r, e) = reverse_last c s in rw (h.0, e, h.1) (ap reverse (sym e) ∙ reverse-reverse (c ∷ s))

-- A last character other than `p` is not stripped.
strip_suffix-ne : (p c : ℕ) (s : Text) → (last_of c s == p) ≡ false → strip_suffix p (c ∷ s) ≡ none
unfolding strip_suffix
strip_suffix-ne p c [] h = rw h
strip_suffix-ne p c (d ∷ s) h = rw (strip_suffix, strip_suffix-ne p d s h)

pub strip_suffix-append : (p : ℕ) (s : Text) → strip_suffix p (s ++ p ∷ []) ≡ some s
unfolding strip_suffix
strip_suffix-append p [] = rw (==_refl p)
strip_suffix-append p (c ∷ []) = rw (strip_suffix, ==_refl p)
strip_suffix-append p (c ∷ d ∷ s) = rw (strip_suffix, strip_suffix-append p (d ∷ s))

Solid-ne_return : (c : ℕ) → Solid c → (c == b'\r') ≡ false
unfolding is_whitespace
Solid-ne_return c h = ground arith

without_return_lem : (c : ℕ) (s : Text) → Solid (last_of c s) → without_return (c ∷ s) ≡ c ∷ s
unfolding without_return
without_return_lem c s h =
    rw (without_return, strip_suffix-ne b'\r' c s (Solid-ne_return (last_of c s) h))

-- No character of the text is `p`.
abbrev pub Without : ℕ → Text → Type 0
Without p [] = Unit {0}
Without p (c ∷ s) = ((c == p) ≡ false) × Without p s

pub Without-append : (p : ℕ) (s t : Text) → Without p s → Without p t → Without p (s ++ t)
Without-append p [] t h k = k
Without-append p (c ∷ s) t h k = (h.0, Without-append p s t h.1 k)

pub split_once-append :
    (p : ℕ) (key value : Text) → Without p key → split_once p (key ++ p ∷ value) ≡ some (key, value)
unfolding split_once
split_once-append p [] value h = rw (==_refl p)
split_once-append p (c ∷ key) value h = rw (split_once, h.0, split_once-append p key value h.1)

lines_from-line :
    (line body rest : Text)
    → Without b'\n' body
    → lines_from line (body ++ b'\n' ∷ rest) ≡ without_return (line ++ body) ∷ lines_from [] rest
unfolding lines_from
lines_from-line line [] rest h =
    ap (λ t. without_return t ∷ lines_from [] rest) (sym (append-nil line))
lines_from-line line (c ∷ body) rest h =
    rw (lines_from, h.0)
      (lines_from-line (line ++ c ∷ []) body rest h.1
        ∙ ap (λ t. without_return t ∷ lines_from [] rest) (append_assoc line (c ∷ []) body))

-- A line that needs no trimming, behind a newline.
pub lines_from_lem :
    (c : ℕ) (body rest : Text)
    → Without b'\n' (c ∷ body)
    → Solid (last_of c body)
    → lines_from [] ((c ∷ body) ++ b'\n' ∷ rest) ≡ (c ∷ body) ∷ lines_from [] rest
lines_from_lem c body rest h k =
    lines_from-line [] (c ∷ body) rest h
    ∙ ap (λ t. t ∷ lines_from [] rest) (without_return_lem c body k)
