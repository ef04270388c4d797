-- ===== src/Kernel/Utf8.antt =====
-- `std::str::from_utf8`: the well-formed byte sequences of the Unicode standard.
use snell_rs.Prelude.{
  ℕ, ◌≡◌, refl, List, [], ◌∷◌, Option, none, some, Bool, true, false, ◌&&◌, ltb, leb, if◌then◌else◌,
}

-- What may follow: a character, or the rest of one that has begun.
pub data State : Type 0 where
  start tail1 tail2 tail3 after_e0 after_ed after_f0 after_f4 : State

abbrev between : ℕ → ℕ → ℕ → Bool
between lo hi b = leb lo b && leb b hi

abbrev tail : State → ℕ → Option State
tail s b = if between 0x80 0xbf b then some s else none

lead : ℕ → Option State
lead b =
    if ltb b 0x80
    then some start
    else if between 0xc2 0xdf b
    then some tail1
    else if between 0xe0 0xe0 b
    then some after_e0
    else if between 0xed 0xed b
    then some after_ed
    else if between 0xe1 0xef b
    then some tail2
    else if between 0xf0 0xf0 b
    then some after_f0
    else if between 0xf1 0xf3 b
    then some tail3
    else if between 0xf4 0xf4 b
    then some after_f4
    else none

unfoldable pub next : State → ℕ → Option State
unfolding lead
next start b = lead b
next tail1 b = tail start b
next tail2 b = tail tail1 b
next tail3 b = tail tail2 b
next after_e0 b = if between 0xa0 0xbf b then some tail1 else none
next after_ed b = if between 0x80 0x9f b then some tail1 else none
next after_f0 b = if between 0x90 0xbf b then some tail2 else none
next after_f4 b = if between 0x80 0x8f b then some tail2 else none

abbrev is_start : State → Bool
is_start start = true
is_start _ = false

unfoldable pub is_utf8_from : State → List ℕ → Bool
unfolding next
is_utf8_from s [] = is_start s
is_utf8_from s (b ∷ bs) = elim (next s b) [ none ↦ false | some t ↦ is_utf8_from t bs ]

unfoldable pub is_utf8 : List ℕ → Bool
unfolding is_utf8_from
is_utf8 bs = is_utf8_from start bs

-- `from_utf8`: the same bytes, as a text.
unfoldable pub from_utf8 : List ℕ → Option (List ℕ)
from_utf8 bs = if is_utf8 bs then some bs else none

accepts_kanji : is_utf8 (0xe6 ∷ 0xbc ∷ 0xa2 ∷ 0x41 ∷ []) ≡ true
unfolding is_utf8
accepts_kanji = refl

refuses_surrogate : is_utf8 (0xed ∷ 0xa0 ∷ 0x80 ∷ []) ≡ false
unfolding is_utf8
refuses_surrogate = refl
