-- ===== src/Config/IniFile/Render.antt =====
-- The files that `IniFile::parse` of crates/snell-config/src/lib.rs reads back as they were written.
use snell_rs.Prelude.{
  ℕ, ◌≡◌, refl, sym, ap, ◌∙◌, [], ◌∷◌, ◌++◌, none, false, ◌==◌, append-nil, append_assoc,
}
use mathlib.Core.Path.{subst}
use snell_rs.Config.Error.{Text, ok, ◌>>=◌}
use snell_rs.Config.Str.{is_whitespace, lines_from, lines}
use snell_rs.Config.Str.Trim.{
  Solid, IsTrimmed, last_of-append, trim-IsTrimmed, strip_suffix-append, Without, Without-append,
  split_once-append, lines_from_lem,
}
use snell_rs.Config.IniFile.{
  Pairs, Sections, get, section, push_pair, open_section, add_pair, read_line, read_lines, parse,
}

abbrev pub IsFirst : Text → Type 0
IsFirst [] = ⊥
IsFirst (c ∷ s) = ((c == b'#') ≡ false) × ((c == b';') ≡ false) × ((c == b'[') ≡ false)

abbrev pub IsNonempty : Text → Type 0
IsNonempty [] = ⊥
IsNonempty (c ∷ s) = Unit {0}

pub record IsKey (k : Text) : Type 0 where
  pub first : IsFirst k
  pub trimmed : IsTrimmed k
  pub one_line : Without b'\n' k
  pub no_sign : Without b'=' k

pub record IsValue (v : Text) : Type 0 where
  pub trimmed : IsTrimmed v
  pub one_line : Without b'\n' v

pub record IsName (n : Text) : Type 0 where
  pub nonempty : IsNonempty n
  pub trimmed : IsTrimmed n
  pub one_line : Without b'\n' n

-- No key stands twice, in any case of its letters; `before` are the pairs in front.
abbrev pub IsPairs : Pairs → Pairs → Type 0
IsPairs before [] = Unit {0}
IsPairs before ((k, v) ∷ more) =
    IsKey k × IsValue v × (get before k ≡ none) × IsPairs (before ++ (k, v) ∷ []) more

abbrev pub IsFile : Sections → Sections → Type 0
IsFile before [] = Unit {0}
IsFile before ((n, pairs) ∷ more) =
    IsName n
    × (section before n ≡ none)
    × IsPairs [] pairs
    × IsFile (before ++ (n, pairs) ∷ []) more

unfoldable pub render_pairs : Pairs → Text
render_pairs [] = []
render_pairs ((k, v) ∷ more) = (k ++ b'=' ∷ v) ++ b'\n' ∷ render_pairs more

unfoldable pub render : Sections → Text
render [] = []
render ((n, pairs) ∷ more) =
    (b'[' ∷ (n ++ b']' ∷ [])) ++ b'\n' ∷ (render_pairs pairs ++ render more)

push_pair-append :
    (before : Sections) (n : Text) (pairs : Pairs) (k v : Text)
    → get pairs k ≡ none
    → push_pair (before ++ (n, pairs) ∷ []) (k, v) ≡ ok (before ++ (n, pairs ++ (k, v) ∷ []) ∷ [])
unfolding push_pair
push_pair-append [] n pairs k v h = rw h
push_pair-append (s ∷ []) n pairs k v h = rw (push_pair, h)
push_pair-append (s ∷ s' ∷ before) n pairs k v h =
    rw (push_pair, push_pair-append (s' ∷ before) n pairs k v h)

-- The lines of a pair and of a header.
line-IsTrimmed :
    (c : ℕ) (s : Text) (sign : ℕ) (v : Text)
    → Solid c
    → Solid sign
    → IsTrimmed v
    → IsTrimmed ((c ∷ s) ++ sign ∷ v)
line-IsTrimmed c s sign [] h k l = (h, subst Solid (sym (last_of-append c s sign [])) k)
line-IsTrimmed c s sign (d ∷ t) h k l = (h, subst Solid (sym (last_of-append c s sign (d ∷ t))) l.1)

equals_sign : Solid b'='
unfolding is_whitespace
equals_sign = refl

brackets : Solid b'[' × Solid b']'
unfolding is_whitespace
brackets = (refl, refl)

-- A line that is read whole, in front of the rest of the file.
read_lines-line :
    (before : Sections) (c : ℕ) (body rest : Text)
    → IsTrimmed (c ∷ body)
    → Without b'\n' (c ∷ body)
    → read_lines before (lines_from [] ((c ∷ body) ++ b'\n' ∷ rest))
      ≡ (read_line before (c ∷ body) >>= λ after. read_lines after (lines_from [] rest))
unfolding read_lines
read_lines-line before c body rest h k =
    rw (lines_from_lem c body rest k h.1, trim-IsTrimmed (c ∷ body) h)

read_line-pair :
    (before : Sections) (n : Text) (pairs : Pairs) (k v : Text)
    → IsKey k
    → IsValue v
    → get pairs k ≡ none
    → read_line (before ++ (n, pairs) ∷ []) (k ++ b'=' ∷ v)
      ≡ ok (before ++ (n, pairs ++ (k, v) ∷ []) ∷ [])
unfolding read_line add_pair
read_line-pair before n pairs [] v key value h = absurd key.first
read_line-pair before n pairs (c ∷ k) v key value h =
    rw
      (
        key.first.0,
        key.first.1,
        key.first.2,
        split_once-append b'=' (c ∷ k) v key.no_sign,
        trim-IsTrimmed (c ∷ k) key.trimmed,
        trim-IsTrimmed v value.trimmed,
      )
      (push_pair-append before n pairs (c ∷ k) v h)

read_line-section :
    (before : Sections) (n : Text)
    → IsName n
    → section before n ≡ none
    → read_line before (b'[' ∷ (n ++ b']' ∷ [])) ≡ ok (before ++ (n, []) ∷ [])
unfolding read_line open_section
read_line-section before [] name h = absurd name.nonempty
read_line-section before (c ∷ n) name h =
    rw (strip_suffix-append b']' (c ∷ n), trim-IsTrimmed (c ∷ n) name.trimmed, h)

-- The pairs of the last section, and what the file has behind them.
read_lines-pairs :
    (before : Sections) (n : Text) (done pairs : Pairs) (rest : Text)
    → IsPairs done pairs
    → read_lines (before ++ (n, done) ∷ []) (lines_from [] (render_pairs pairs ++ rest))
      ≡ read_lines (before ++ (n, done ++ pairs) ∷ []) (lines_from [] rest)
unfolding render_pairs
read_lines-pairs before n done [] rest h =
    ap (λ t. read_lines (before ++ (n, t) ∷ []) (lines_from [] rest)) (sym (append-nil done))
read_lines-pairs before n done (([], v) ∷ pairs) rest h = absurd h.0.first
read_lines-pairs before n done ((c ∷ k, v) ∷ pairs) rest h =
    let line : Text = k ++ b'=' ∷ v in
    let trimmed = line-IsTrimmed c k b'=' v h.0.trimmed.0 equals_sign h.1.trimmed in
    let one_line : Without b'\n' (c ∷ line) =
      Without-append b'\n' (c ∷ k) (b'=' ∷ v) h.0.one_line (refl, h.1.one_line) in
    ap (λ t. read_lines (before ++ (n, done) ∷ []) (lines_from [] t))
      (append_assoc (c ∷ line) (b'\n' ∷ render_pairs pairs) rest)
    ∙ read_lines-line (before ++ (n, done) ∷ []) c line (render_pairs pairs ++ rest) trimmed
        one_line
    ∙ rw (read_line-pair before n done (c ∷ k) v h.0 h.1 h.2) (
        read_lines-pairs before n (done ++ (c ∷ k, v) ∷ []) pairs rest h.3
        ∙ ap (λ t. read_lines (before ++ (n, t) ∷ []) (lines_from [] rest))
            (append_assoc done ((c ∷ k, v) ∷ []) pairs))

read_lines-render :
    (before sections : Sections)
    → IsFile before sections
    → read_lines before (lines_from [] (render sections)) ≡ ok (before ++ sections)
unfolding render lines_from read_lines
read_lines-render before [] h = ap ok (sym (append-nil before))
read_lines-render before (([], pairs) ∷ more) h = absurd h.0.nonempty
read_lines-render before ((c ∷ n, pairs) ∷ more) h =
    let line : Text = (c ∷ n) ++ b']' ∷ [] in
    let trimmed : IsTrimmed (b'[' ∷ line) =
      line-IsTrimmed b'[' (c ∷ n) b']' [] brackets.0 brackets.1 tt in
    let one_line : Without b'\n' (b'[' ∷ line) =
      (refl, Without-append b'\n' (c ∷ n) (b']' ∷ []) h.0.one_line (refl, tt)) in
    read_lines-line before b'[' line (render_pairs pairs ++ render more) trimmed one_line
    ∙ rw (read_line-section before (c ∷ n) h.0 h.1) (
        read_lines-pairs before (c ∷ n) [] pairs (render more) h.2
        ∙ read_lines-render (before ++ (c ∷ n, pairs) ∷ []) more h.3
        ∙ ap ok (append_assoc before ((c ∷ n, pairs) ∷ []) more))

-- Sections with no name and no key of a section twice, whatever the case of their letters, are
-- parsed back from their text in the same order, if names, keys and values are trimmed and of one
-- line, no name or key is empty, and no key holds `=` or starts like a comment or a section.
pub parse-render :
    (sections : Sections) → IsFile [] sections → parse (render sections) ≡ ok sections
unfolding parse lines
parse-render sections h = read_lines-render [] sections h
