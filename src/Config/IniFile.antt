-- ===== src/Config/IniFile.antt =====
-- `IniFile` and `Section` of crates/snell-config/src/lib.rs.
pub mod Render
pub mod Parsed
use snell_rs.Prelude.{
  ℕ, ◌≡◌, List, [], ◌∷◌, ◌++◌, Option, none, some, Bool, true, false, ◌||◌, ◌==◌, if◌then◌else◌,
}
use snell_rs.Config.Error.{
  Text, Ini, unclosed_section_header, empty_section_name, duplicate_section, expected_key_value,
  empty_key, key_outside_section, duplicate_key, ini, Result, ok, err, ◌>>=◌, ok_or,
}
use snell_rs.Config.Str.{
  trim, eq_ignore_ascii_case, is_empty, strip_prefix, strip_suffix, starts_with, split_once, lines,
}

abbrev pub Pairs : Type 0
Pairs = List (Text × Text)

abbrev pub Sections : Type 0
Sections = List (Text × Pairs)

-- `find` by a name, in any case of ASCII letters.
unfoldable pub find {ℓ} : {A : Type ℓ} → Text → List (Text × A) → Option A
find name [] = none
find name ((n, a) ∷ more) = if eq_ignore_ascii_case n name then some a else find name more

-- `Section::get`
unfoldable pub get : Pairs → Text → Option Text
get pairs key = find key pairs

-- `IniFile::section`
unfoldable pub section : Sections → Text → Option Pairs
section sections name = find name sections

abbrev pub is_some {ℓ} : {A : Type ℓ} → Option A → Bool
is_some none = false
is_some (some a) = true

-- `sections.last_mut()`, and a pair pushed to it.
unfoldable pub push_pair : Sections → Text × Text → Result Sections
push_pair [] pair = err (ini key_outside_section)
push_pair ((name, pairs) ∷ []) (key, value) =
    if is_some (get pairs key)
    then err (ini duplicate_key)
    else ok ((name, pairs ++ (key, value) ∷ []) ∷ [])
push_pair (s ∷ s' ∷ more) pair = do rest ← push_pair (s' ∷ more) pair; ok (s ∷ rest)

-- Behind a `[`.
unfoldable pub open_section : Sections → Text → Result Sections
open_section sections rest = do
  inner ← ok_or (strip_suffix b']' rest) (ini unclosed_section_header)
  let name : Text = trim inner
  if is_empty name
      then err (ini empty_section_name)
      else if is_some (section sections name)
      then err (ini duplicate_section)
      else ok (sections ++ (name, []) ∷ [])

unfoldable pub add_pair : Sections → Text → Result Sections
add_pair sections line = do
  (key, value) ← ok_or (split_once b'=' line) (ini expected_key_value)
  if is_empty (trim key) then err (ini empty_key) else push_pair sections (trim key, trim value)

-- One round of the loop, on a line that is trimmed.
unfoldable pub read_line : Sections → Text → Result Sections
read_line sections line =
    if is_empty line || starts_with b'#' line || starts_with b';' line
    then ok sections
    else elim (strip_prefix b'[' line) [
      | some rest ↦ open_section sections rest
      | none ↦ add_pair sections line
    ]

unfoldable pub read_lines : Sections → List Text → Result Sections
read_lines sections [] = ok sections
read_lines sections (line ∷ more) = do
  sections' ← read_line sections (trim line)
  read_lines sections' more

unfoldable pub parse : Text → Result Sections
parse raw = read_lines [] (lines raw)
