-- ===== src/Config/IniFile/Parsed.antt =====
-- What `IniFile::parse` of crates/snell-config/src/lib.rs returns.
use snell_rs.Prelude.{
  ℕ, ◌≡◌, refl, sym, ap, ◌∙◌, List, [], ◌∷◌, ◌++◌, Option, none, some, false, ◌||◌, ◌==◌, arith,
  append-nil, append_assoc, inl, inr, Bool-cases, All, Option-cases,
}
use mathlib.Core.Path.{subst}
use snell_rs.Config.Error.{Text, ok, >>=-eq-ok, ok_or, ok-eq}
use snell_rs.Config.Str.{trim, trim_end, trim_start, lines, split_once, strip_suffix, is_empty}
use snell_rs.Config.Str.Trim.{IsTrimmed, Without}
use snell_rs.Config.Str.Trimmed.{
  trim-Solid, IsTrimmed-trim, Without-trim, Without-strip_suffix, lines-Without, split_once-parts,
}
use snell_rs.Config.IniFile.{
  Pairs, Sections, get, section, is_some, push_pair, open_section, add_pair, read_line, read_lines,
  parse,
}
use snell_rs.Config.IniFile.Render.{
  IsFirst, IsNonempty, IsKey, IsValue, IsName, IsPairs, IsFile, render, parse-render,
}

IsPairs-append :
    (before pairs : Pairs) (k v : Text)
    → IsPairs before pairs
    → IsKey k
    → IsValue v
    → get (before ++ pairs) k ≡ none
    → IsPairs before (pairs ++ (k, v) ∷ [])
IsPairs-append before [] k v h key value e = (key, value, rw (append-nil before) at e, tt)
IsPairs-append before ((k', v') ∷ pairs) k v h key value e = (
  h.0,
  h.1,
  h.2,
  IsPairs-append (before ++ (k', v') ∷ []) pairs k v h.3 key value
      (ap (λ t. get t k) (append_assoc before ((k', v') ∷ []) pairs) ∙ e),
)

IsFile-append :
    (before sections : Sections) (n : Text)
    → IsFile before sections
    → IsName n
    → section (before ++ sections) n ≡ none
    → IsFile before (sections ++ (n, []) ∷ [])
IsFile-append before [] n h name e = (name, rw (append-nil before) at e, tt, tt)
IsFile-append before ((n', pairs) ∷ sections) n h name e = (
  h.0,
  h.1,
  h.2,
  IsFile-append (before ++ (n', pairs) ∷ []) sections n h.3 name
      (ap (λ t. section t n) (append_assoc before ((n', pairs) ∷ []) sections) ∙ e),
)

push_pair-IsFile :
    (before sections after : Sections) (k v : Text)
    → IsFile before sections
    → IsKey k
    → IsValue v
    → push_pair sections (k, v) ≡ ok after
    → IsFile before after
unfolding push_pair
push_pair-IsFile before [] after k v h key value e = cc
push_pair-IsFile before ((n, pairs) ∷ []) after k v h key value e =
    elim (Option-cases (get pairs k)) [
      | inl fresh ↦
          subst (IsFile before) (ok-eq (rw (push_pair, fresh) at e))
            (h.0, h.1, IsPairs-append [] pairs k v h.2 key value fresh, tt)
      | inr (a, found) ↦ let e' = rw (push_pair, found) at e in cc
    ]
push_pair-IsFile before ((n, pairs) ∷ s' ∷ more) after k v h key value e =
    let (rest, pushed, same) = >>=-eq-ok (push_pair (s' ∷ more) (k, v)) _ e in
    subst (IsFile before) (ok-eq same) (
      h.0,
      h.1,
      h.2,
      push_pair-IsFile (before ++ (n, pairs) ∷ []) (s' ∷ more) rest k v h.3 key value pushed,
    )

not_empty : (s : Text) → is_empty s ≡ false → IsNonempty s
not_empty [] h = cc
not_empty (c ∷ s) h = tt

none_of : {A : Type 0} (o : Option A) → is_some o ≡ false → o ≡ none
none_of none h = refl
none_of (some a) h = cc

ok_or-eq {ℓ} : {A : Type ℓ} (o : Option A) (e : _) {a : A} → ok_or o e ≡ ok a → o ≡ some a
ok_or-eq none e h = cc
ok_or-eq (some b) e h = ap some (ok-eq h)

open_section-IsFile :
    (sections after : Sections) (rest : Text)
    → IsFile [] sections
    → Without b'\n' rest
    → open_section sections rest ≡ ok after
    → IsFile [] after
unfolding open_section
open_section-IsFile sections after rest h w e =
    let (inner, found, e1) = >>=-eq-ok (ok_or (strip_suffix b']' rest) _) _ e in
    let name = trim inner in
    let line : Without b'\n' inner =
      Without-strip_suffix b'\n' b']' rest inner w (ok_or-eq (strip_suffix b']' rest) _ found) in
    elim (Bool-cases (is_empty name)) [
      | inl empty ↦ let e2 = rw empty at e1 in cc
      | inr solid ↦ elim (Bool-cases (is_some (section sections name))) [
        | inl twice ↦ let e2 = rw (solid, twice) at e1 in cc
        | inr fresh ↦ subst (IsFile []) (ok-eq (rw (solid, fresh) at e1)) (
            IsFile-append [] sections name h
              (record {
                nonempty = not_empty name solid;
                trimmed = IsTrimmed-trim inner;
                one_line = Without-trim b'\n' inner line;
              })
              (none_of (section sections name) fresh))
      ]
    ]

Without-front : (p : ℕ) (a b : Text) → Without p (a ++ b) → Without p a × Without p b
Without-front p [] b h = (tt, h)
Without-front p (c ∷ a) b h = let r = Without-front p a b h.1 in ((h.0, r.0), r.1)

-- The key of a line that is trimmed and is neither a comment nor a header.
IsKey-trim :
    (a b : Text)
    → IsTrimmed (a ++ b'=' ∷ b)
    → IsFirst (a ++ b'=' ∷ b)
    → Without b'\n' (a ++ b'=' ∷ b)
    → Without b'=' a
    → is_empty (trim a) ≡ false
    → IsKey (trim a)
unfolding trim trim_end trim_start
IsKey-trim [] b t f w n e = cc
IsKey-trim (c ∷ a) b t f w n e =
    let (a', same, _) = trim-Solid c a t.0 in
    record {
      first = subst IsFirst (sym same) f;
      trimmed = IsTrimmed-trim (c ∷ a);
      one_line = Without-trim b'\n' (c ∷ a) (Without-front b'\n' (c ∷ a) (b'=' ∷ b) w).0;
      no_sign = Without-trim b'=' (c ∷ a) n;
    }

add_pair-IsFile :
    (sections after : Sections) (line : Text)
    → IsFile [] sections
    → IsTrimmed line
    → IsFirst line
    → Without b'\n' line
    → add_pair sections line ≡ ok after
    → IsFile [] after
unfolding add_pair
add_pair-IsFile sections after line h t f w e =
    let ((a, b), found, e1) = >>=-eq-ok (ok_or (split_once b'=' line) _) _ e in
    let parts = split_once-parts b'=' line a b (ok_or-eq (split_once b'=' line) _ found) in
    let w' = subst (Without b'\n') parts.0 w in
    elim (Bool-cases (is_empty (trim a))) [
      | inl empty ↦ let e2 = rw empty at e1 in cc
      | inr solid ↦
          push_pair-IsFile [] sections after (trim a) (trim b) h
            (IsKey-trim a b (subst IsTrimmed parts.0 t) (subst IsFirst parts.0 f) w' parts.1 solid)
            (record {
              trimmed = IsTrimmed-trim b;
              one_line = Without-trim b'\n' b (Without-front b'\n' a (b'=' ∷ b) w').1.1;
            })
            (rw solid at e1)
    ]

read_line-IsFile :
    (sections after : Sections) (line : Text)
    → IsFile [] sections
    → IsTrimmed line
    → Without b'\n' line
    → read_line sections line ≡ ok after
    → IsFile [] after
unfolding read_line
read_line-IsFile sections after [] h t w e = subst (IsFile []) (ok-eq e) h
read_line-IsFile sections after (c ∷ s) h t w e = elim (Bool-cases (c == b'#' || c == b';')) [
  | inl comment ↦ subst (IsFile []) (ok-eq (rw comment at e)) h
  | inr line ↦ elim (Bool-cases (c == b'[')) [
    | inl header ↦ open_section-IsFile sections after s h w.1 (rw (line, header) at e)
    | inr pair ↦ add_pair-IsFile sections after (c ∷ s) h t (ground arith) w (rw (line, pair) at e)
  ]
]

read_lines-IsFile :
    (sections after : Sections) (ls : List Text)
    → IsFile [] sections
    → All (Without b'\n') ls
    → read_lines sections ls ≡ ok after
    → IsFile [] after
unfolding read_lines
read_lines-IsFile sections after [] h w e = subst (IsFile []) (ok-eq e) h
read_lines-IsFile sections after (line ∷ more) h w e =
    let (next, read, e1) = >>=-eq-ok (read_line sections (trim line)) _ e in
    read_lines-IsFile next after more
      (read_line-IsFile sections next (trim line) h (IsTrimmed-trim line)
        (Without-trim b'\n' line w.0) read)
      w.1 e1

-- A file that `IniFile::parse` accepted has no section twice and no key of a section twice,
-- whatever the case of their letters. Its names, keys and values are trimmed and of one line, no
-- name or key is empty, and no key holds `=` or starts like a comment or a section.
pub parse-IsFile : (raw : Text) (sections : Sections) → parse raw ≡ ok sections → IsFile [] sections
unfolding parse
parse-IsFile raw sections e = read_lines-IsFile [] sections (lines raw) tt (lines-Without raw) e

-- What was read once is read again from its own rendering.
pub parse-render-parse :
    (raw : Text) (sections : Sections)
    → parse raw ≡ ok sections
    → parse (render sections) ≡ ok sections
parse-render-parse raw sections e = parse-render sections (parse-IsFile raw sections e)
