-- ===== src/Config/Str/Trimmed.antt =====
-- What `trim` and the splits of `str` leave, as crates/snell-config/src/lib.rs uses them.
use snell_rs.Prelude.{
  ℕ, ◌≡◌, refl, sym, ap, ◌∙◌, [], ◌∷◌, ◌++◌, none, some, ◌==◌, arith, inl, inr, Bool-cases, ==_iff,
  All, Option-cases,
}
use mathlib.Core.List.{reverse, reverse-append}
use mathlib.Core.Path.{subst}
use snell_rs.Config.Error.{Text}
use snell_rs.Config.Str.{
  is_whitespace, trim_start, trim_end, trim, strip_suffix, without_return, lines_from, lines,
  split_once,
}
use snell_rs.Config.Str.Trim.{last_of, Solid, IsTrimmed, last_of-append, Without, Without-append}

-- Empty, or with a first character that is not white space.
abbrev Begun : Text → Type 0
Begun [] = Unit {0}
Begun (c ∷ s) = Solid c

trim_start-Begun : (s : Text) → Begun (trim_start s)
unfolding trim_start
trim_start-Begun [] = tt
trim_start-Begun (c ∷ s) = elim (Bool-cases (is_whitespace c)) [
  | inl blank ↦ rw blank (trim_start-Begun s)
  | inr solid ↦ rw solid solid
]

trim_start-last : (s : Text) (c : ℕ) → Solid c → trim_start (s ++ c ∷ []) ≡ trim_start s ++ c ∷ []
unfolding trim_start
trim_start-last [] c h = rw h
trim_start-last (d ∷ s) c h = elim (Bool-cases (is_whitespace d)) [
  | inl blank ↦ rw blank (trim_start-last s c h)
  | inr solid ↦ rw solid
]

last-Solid : (c : ℕ) (s : Text) → Solid c → Begun s → Solid (last_of c (reverse s))
last-Solid c [] h k = h
last-Solid c (d ∷ s) h k =
    subst (λ t. Solid (last_of c t)) (sym (reverse-append (d ∷ []) s))
      (subst Solid (sym (last_of-append c (reverse s) d [])) k)

-- A text that begins with a character that stays is trimmed at its end only.
pub trim-Solid :
    (c : ℕ) (s : Text) → Solid c → (t : Text) × (trim (c ∷ s) ≡ c ∷ t) × IsTrimmed (c ∷ t)
unfolding trim trim_end trim_start
trim-Solid c s h =
    let rest = trim_start (reverse s) in
    let ended : reverse (trim_start (reverse (c ∷ s))) ≡ c ∷ reverse rest =
      ap (λ t. reverse (trim_start t)) (reverse-append (c ∷ []) s)
      ∙ ap reverse (trim_start-last (reverse s) c h)
      ∙ reverse-append rest (c ∷ []) in
    (reverse rest, rw h ended, (h, last-Solid c rest h (trim_start-Begun (reverse s))))

trim-Begun : (s : Text) → Begun s → IsTrimmed (trim s)
unfolding trim trim_end trim_start
trim-Begun [] h = tt
trim-Begun (c ∷ s) h = let (t, e, k) = trim-Solid c s h in subst IsTrimmed (sym e) k

trim-trim_start : (s : Text) → trim s ≡ trim (trim_start s)
unfolding trim trim_start
trim-trim_start [] = refl
trim-trim_start (c ∷ s) = elim (Bool-cases (is_whitespace c)) [
  | inl blank ↦ rw blank (trim-trim_start s)
  | inr solid ↦ rw (solid, solid)
]

pub IsTrimmed-trim : (s : Text) → IsTrimmed (trim s)
IsTrimmed-trim s =
    subst IsTrimmed (sym (trim-trim_start s)) (trim-Begun (trim_start s) (trim_start-Begun s))

-- A character that a text does not hold is in no part of it.
Without-reverse : (p : ℕ) (s : Text) → Without p s → Without p (reverse s)
Without-reverse p [] h = tt
Without-reverse p (c ∷ s) h =
    subst (Without p) (sym (reverse-append (c ∷ []) s))
      (Without-append p (reverse s) (c ∷ []) (Without-reverse p s h.1) (h.0, tt))

Without-trim_start : (p : ℕ) (s : Text) → Without p s → Without p (trim_start s)
unfolding trim_start
Without-trim_start p [] h = tt
Without-trim_start p (c ∷ s) h = elim (Bool-cases (is_whitespace c)) [
  | inl blank ↦ rw blank (Without-trim_start p s h.1)
  | inr solid ↦ rw solid h
]

pub Without-trim : (p : ℕ) (s : Text) → Without p s → Without p (trim s)
unfolding trim trim_end
Without-trim p s h =
    Without-reverse p _ (Without-trim_start p _ (Without-reverse p _ (Without-trim_start p s h)))

pub Without-strip_suffix :
    (p q : ℕ) (s t : Text) → Without p s → strip_suffix q s ≡ some t → Without p t
unfolding strip_suffix
Without-strip_suffix p q [] t h e = cc
Without-strip_suffix p q (c ∷ []) [] h e = tt
Without-strip_suffix p q (c ∷ []) (d ∷ t) h e = ground arith
Without-strip_suffix p q (c ∷ d ∷ s) t h e = elim (Option-cases (strip_suffix q (d ∷ s))) [
  | inl missing ↦ let e' = rw (strip_suffix, missing) at e in cc
  | inr (u, found) ↦
      let e' = rw (strip_suffix, found) at e in
      subst (Without p) (ap (λ o. elim o [ none ↦ [] | some x ↦ x ]) e')
        (h.0, Without-strip_suffix p q (d ∷ s) u h.1 found)
]

Without-without_return : (p : ℕ) (s : Text) → Without p s → Without p (without_return s)
unfolding without_return
Without-without_return p s h = elim (Option-cases (strip_suffix b'\r' s)) [
  | inl missing ↦ rw (without_return, missing) h
  | inr (t, found) ↦ rw (without_return, found) (Without-strip_suffix p b'\r' s t h found)
]

lines_from-Without : (line s : Text) → Without b'\n' line → All (Without b'\n') (lines_from line s)
unfolding lines_from
lines_from-Without [] [] h = tt
lines_from-Without (c ∷ line) [] h = (h, tt)
lines_from-Without line (c ∷ s) h = elim (Bool-cases (c == b'\n')) [
  | inl ended ↦
      rw (lines_from, ended) (Without-without_return b'\n' line h, lines_from-Without [] s tt)
  | inr inside ↦
      rw (lines_from, inside)
        (lines_from-Without (line ++ c ∷ []) s (Without-append b'\n' line (c ∷ []) h (inside, tt)))
]

pub lines-Without : (s : Text) → All (Without b'\n') (lines s)
unfolding lines
lines-Without s = lines_from-Without [] s tt

some-eq {ℓ} : {A : Type ℓ} {a b : A} → some a ≡ some b → a ≡ b
some-eq e = cc

-- The two parts of a split.
pub split_once-parts :
    (p : ℕ) (s a b : Text) → split_once p s ≡ some (a, b) → (s ≡ a ++ p ∷ b) × Without p a
unfolding split_once
split_once-parts p [] a b e = cc
split_once-parts p (c ∷ s) a b e =
    let Parts = λ (q : Text × Text). ((c ∷ s) ≡ q.0 ++ p ∷ q.1) × Without p q.0 in
    elim (Bool-cases (c == p)) [
      | inl here ↦
          subst Parts (some-eq (rw here at e)) (ap (λ (t : ℕ). t ∷ s) ((==_iff c p).0 here), tt)
      | inr later ↦ elim (Option-cases (split_once p s)) [
        | inl missing ↦ let e' = rw (split_once, later, missing) at e in cc
        | inr ((x, y), found) ↦
            let r = split_once-parts p s x y found in
            subst Parts (some-eq (rw (split_once, later, found) at e))
              (ap (λ (t : Text). c ∷ t) r.0, (later, r.1))
      ]
    ]
