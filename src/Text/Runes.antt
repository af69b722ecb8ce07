-- ===== src/Text/Runes.antt =====
-- The package `unicode/utf8` and the loop `for _, r := range s` of Go: the runes of a text, and
-- whether it is valid UTF-8. A byte that begins no valid rune is read as U+FFFD, alone.
pub mod Laws
use agentsmith_fs_control_pl.Prelude.{
  ℕ, zero, suc, ◌+◌, ◌-◌, ◌*◌, Bool, true, false, ◌&&◌, ◌||◌, Option, none, some, List, [], ◌∷◌,
  ◌==◌, leb, ltb, if◌then◌else◌,
}

abbrev between : ℕ → ℕ → ℕ → Bool
between lo hi b = leb lo b && leb b hi

-- A byte that continues a rune.
abbrev continues : ℕ → Bool
continues b = between 0x80 0xbf b

-- The bytes that may come second in a rune of three and in one of four bytes.
second_of_3 : ℕ → ℕ → Bool
second_of_3 a b = between (if a == 0xe0 then 0xa0 else 0x80) (if a == 0xed then 0x9f else 0xbf) b

second_of_4 : ℕ → ℕ → Bool
second_of_4 a b = between (if a == 0xf0 then 0x90 else 0x80) (if a == 0xf4 then 0x8f else 0xbf) b

decode_2 : ℕ → List ℕ → Option (ℕ × ℕ)
decode_2 a [] = none
decode_2 a (b ∷ s) = if continues b then some ((a - 0xc0) * 64 + (b - 0x80), 1) else none

decode_3 : ℕ → List ℕ → Option (ℕ × ℕ)
decode_3 a [] = none
decode_3 a (b ∷ []) = none
decode_3 a (b ∷ c ∷ s) =
    if second_of_3 a b && continues c
    then some ((a - 0xe0) * 4096 + (b - 0x80) * 64 + (c - 0x80), 2)
    else none

decode_4 : ℕ → List ℕ → Option (ℕ × ℕ)
decode_4 a [] = none
decode_4 a (b ∷ []) = none
decode_4 a (b ∷ c ∷ []) = none
decode_4 a (b ∷ c ∷ d ∷ s) =
    if second_of_4 a b && continues c && continues d
    then some ((a - 0xf0) * 262144 + (b - 0x80) * 4096 + (c - 0x80) * 64 + (d - 0x80), 3)
    else none

-- `utf8.DecodeRune`: the rune that a byte and the text after it begin with, and how many bytes it
-- has after the first; `none` where they begin no valid rune.
decode : ℕ → List ℕ → Option (ℕ × ℕ)
decode a s =
    if ltb a 0x80
    then some (a, 0)
    else if between 0xc2 0xdf a
    then decode_2 a s
    else if between 0xe0 0xef a
    then decode_3 a s
    else if between 0xf0 0xf4 a
    then decode_4 a s
    else none

-- The rune and the count of `decode`, U+FFFD and no further byte for an invalid one.
decoded : Option (ℕ × ℕ) → ℕ × ℕ
decoded none = (0xfffd, 0)
decoded (some r) = r

-- The runes of a text, of which the first bytes belong to a rune that is already read.
runes_after : ℕ → List ℕ → List ℕ
runes_after skip [] = []
runes_after (suc skip) (b ∷ s) = runes_after skip s
runes_after zero (b ∷ s) = (decoded (decode b s)).0 ∷ runes_after (decoded (decode b s)).1 s

unfoldable pub runes : List ℕ → List ℕ
unfolding runes_after decoded decode decode_2 decode_3 decode_4 second_of_3 second_of_4
runes s = runes_after 0 s

valid_after : ℕ → List ℕ → Bool
valid_after skip [] = true
valid_after (suc skip) (b ∷ s) = valid_after skip s
valid_after zero (b ∷ s) = elim (decode b s) [ none ↦ false | some (r, more) ↦ valid_after more s ]

-- `utf8.ValidString`
unfoldable pub valid_string : List ℕ → Bool
unfolding valid_after decode decode_2 decode_3 decode_4 second_of_3 second_of_4
valid_string s = valid_after 0 s

-- `unicode.IsControl`
unfoldable pub is_control : ℕ → Bool
is_control r = ltb r 0x20 || between 0x7f 0x9f r

-- Some rune passes a test.
unfoldable pub any : (ℕ → Bool) → List ℕ → Bool
any test [] = false
any test (r ∷ rs) = test r || any test rs
