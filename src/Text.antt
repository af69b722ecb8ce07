-- ===== src/Text.antt =====
-- Go strings as lists of bytes, with the parts of the package `strings` that the modelled code
-- calls: `==`, `TrimSpace`, `HasPrefix`. Each byte is a number below 256.
mod Trim
pub mod Runes
pub mod Split
unfoldable pub use Trim.{trim_space}
pub use Trim.{trim_space_idem, trim_space-nil}
use Prim.Native.Char.{code}
use Prim.Native.String.{String}
use text.Mathlib.Text.{◌==◌ as str_eq}
use agentsmith_fs_control_pl.Prelude.{
  ℕ, ◌≡◌, refl, ◌↔◌, Bool, true, false, ◌&&◌, List, [], ◌∷◌, arith, ◌==◌, Option, if◌then◌else◌,
  none, some, ◌++◌,
}

abbrev pub Text : Type 0
Text = List ℕ

-- The bytes of a literal of ASCII characters.
abbrev pub bytes : String → Text
bytes String.[] = []
bytes (String.◌∷◌ c s) = code c ∷ bytes s

-- `a == b` on strings
unfoldable pub text_eq : Text → Text → Bool
text_eq [] [] = true
text_eq [] (b ∷ bs) = false
text_eq (a ∷ as') [] = false
text_eq (a ∷ as') (b ∷ bs) = a == b && text_eq as' bs

pub text_eq_iff : (a b : Text) → (text_eq a b ≡ true) ↔ (a ≡ b)
unfolding text_eq
text_eq_iff [] [] = ground arith
text_eq_iff [] (b ∷ bs) = ground arith
text_eq_iff (a ∷ as') [] = ground arith
text_eq_iff (a ∷ as') (b ∷ bs) = ground (arith, text_eq_iff as' bs)

pub text_eq_refl : (a : Text) → text_eq a a ≡ true
text_eq_refl a = (text_eq_iff a a).1 refl

-- `s == ""`
abbrev pub is_empty : Text → Bool
is_empty [] = true
is_empty (b ∷ bs) = false

-- `strings.TrimSpace(s) == ""`
abbrev pub is_blank : Text → Bool
is_blank s = is_empty (trim_space s)

-- The rest of `s` after `p`, if `strings.HasPrefix(s, p)`.
unfoldable pub cut_prefix : Text → Text → Option Text
cut_prefix [] s = some s
cut_prefix (b ∷ p) [] = none
cut_prefix (b ∷ p) (c ∷ s) = if b == c then cut_prefix p s else none

pub cut_prefix-append : (p s : Text) → cut_prefix p (p ++ s) ≡ some s
unfolding cut_prefix
cut_prefix-append [] s = refl
cut_prefix-append (b ∷ p) s = ground (arith, cut_prefix-append p s)

pub append_of_cut_prefix : (p s t : Text) → cut_prefix p s ≡ some t → s ≡ p ++ t
unfolding cut_prefix
append_of_cut_prefix [] s t h = ground arith
append_of_cut_prefix (b ∷ p) [] t h = cc
append_of_cut_prefix (b ∷ p) (c ∷ s) t h = ground (arith, append_of_cut_prefix p s t)

-- Every byte of a text passes a test.
unfoldable pub every : (ℕ → Bool) → Text → Bool
every test [] = true
every test (b ∷ s) = test b && every test s

pub every-append :
    (test : ℕ → Bool) (s t : Text)
    → every test s ≡ true
    → every test t ≡ true
    → every test (s ++ t) ≡ true
unfolding every
every-append test [] t h k = k
every-append test (b ∷ s) t h k = ground (arith, every-append test s t)

-- Two texts of bytes that pass a test, each followed by a byte that does not, are cut alike.
pub cut_at_separator :
    (test : ℕ → Bool) (sep : ℕ) (a b c d : Text)
    → test sep ≡ false
    → every test a ≡ true
    → every test b ≡ true
    → a ++ (sep ∷ c) ≡ b ++ (sep ∷ d)
    → (a ≡ b) × (c ≡ d)
unfolding every
cut_at_separator test sep [] [] c d s h k e = (refl, cc)
cut_at_separator test sep [] (y ∷ b) c d s h k e = absurd (ground arith)
cut_at_separator test sep (x ∷ a) [] c d s h k e = absurd (ground arith)
cut_at_separator test sep (x ∷ a) (y ∷ b) c d s h k e =
    let (p, q) = cut_at_separator test sep a b c d s (ground arith) (ground arith) (cc) in (cc, q)

pub head_eq : {b c : ℕ} {s t : Text} → b ∷ s ≡ c ∷ t → b ≡ c
head_eq e = cc

pub append-left_cancel : (p s t : Text) → p ++ s ≡ p ++ t → s ≡ t
append-left_cancel [] s t e = e
append-left_cancel (b ∷ p) s t e = append-left_cancel p s t (cc)
