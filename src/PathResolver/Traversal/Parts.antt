-- ===== src/PathResolver/Traversal/Parts.antt =====
-- The parts of the managed paths pass the tests on paths and segments
-- (internal/pathresolver/pathresolver.go).
use agentsmith_fs_control_pl.PathResolver.Id.{is_id_char}
use agentsmith_fs_control_pl.PathResolver.Path.{
  check_segment, equal_fold_jvs, fold_jvs, has_slash_like_or_control, is_slash_like_rune,
}
use agentsmith_fs_control_pl.PathResolver.Traversal.{validate_caller_segment, validate_each}
use agentsmith_fs_control_pl.Prelude.{
  All, Bool, List, [], arith, false, leb, none, not, refl, true, ℕ, ◌==◌, ◌||◌, ◌∷◌, ◌≡◌,
}
use agentsmith_fs_control_pl.Text.{Text, bytes, every, every-append, is_empty, text_eq}
use agentsmith_fs_control_pl.Text.Runes.{any, is_control, valid_string}
use agentsmith_fs_control_pl.Text.Runes.Laws.{runes_of_ascii, valid_of_ascii}
use agentsmith_fs_control_pl.Text.Split.{NoSlash, join}

-- A part of a managed path: some characters of identifiers.
pub record IsPart (p : Text) : Type 0 where
  pub nonempty : is_empty p ≡ false
  pub chars : every is_id_char p ≡ true

-- The parts of a payload root.
abbrev pub root_parts : Text → Text → Text → List Text
root_parts namespace collection name =
    bytes "afscp" ∷ bytes "namespaces" ∷ namespace ∷ collection ∷ name ∷ bytes "payload" ∷ []

abbrev pub is_path_char : ℕ → Bool
is_path_char b = is_id_char b || b == b'/'

every_mono :
    (p q : ℕ → Bool) (s : Text)
    → ((b : ℕ) → p b ≡ true → q b ≡ true)
    → every p s ≡ true
    → every q s ≡ true
unfolding every
every_mono p q [] f h = refl
every_mono p q (b ∷ s) f h = ground (arith, every_mono p q s f, f b)

every_none :
    (p q : ℕ → Bool) (s : Text)
    → ((b : ℕ) → p b ≡ true → q b ≡ false)
    → every p s ≡ true
    → any q s ≡ false
unfolding every any
every_none p q [] f h = refl
every_none p q (b ∷ s) f h = ground (arith, every_none p q s f, f b)

pub every-join : (ps : List Text) → All IsPart ps → every is_path_char (join ps) ≡ true
unfolding join every
every-join [] h = refl
every-join (p ∷ []) (h, tt) = every_mono is_id_char is_path_char p (λ b k. ground arith) h.chars
every-join (p ∷ q ∷ ps) (h, hs) =
    every-append is_path_char p (b'/' ∷ join (q ∷ ps))
      (every_mono is_id_char is_path_char p (λ b k. ground arith) h.chars) (every-join (q ∷ ps) hs)

path_char-ascii : (s : Text) → every is_path_char s ≡ true → every (λ b. not (leb 0x80 b)) s ≡ true
path_char-ascii s h = every_mono is_path_char (λ b. not (leb 0x80 b)) s (λ b k. ground arith) h

-- A text of safe characters and slashes is valid UTF-8 without look-alikes and escapes.
pub path_char-plain :
    (s : Text)
    → every is_path_char s ≡ true
    → (valid_string s ≡ true)
      × (has_slash_like_or_control s ≡ false)
      × (every (λ b. not (b == b'%')) s ≡ true)
unfolding has_slash_like_or_control is_control is_slash_like_rune
path_char-plain s h =
    let ascii = path_char-ascii s h in
    (
      valid_of_ascii s ascii,
      rw (runes_of_ascii s ascii) (every_none is_path_char _ s (λ b k. ground arith) h),
      every_mono is_path_char _ s (λ b k. ground arith) h,
    )

IsPart-fold_jvs : (p : Text) → every is_id_char p ≡ true → fold_jvs p ≡ false
unfolding every
IsPart-fold_jvs [] h = refl
IsPart-fold_jvs (a ∷ []) h = refl
IsPart-fold_jvs (a ∷ b ∷ []) h = refl
IsPart-fold_jvs (a ∷ b ∷ c ∷ []) h = refl
IsPart-fold_jvs (a ∷ b ∷ c ∷ d ∷ []) h = ground arith
IsPart-fold_jvs (a ∷ b ∷ c ∷ d ∷ e ∷ s) h = refl

IsPart-other_than_dots :
    (p : Text) → IsPart p → (text_eq p (bytes ".") ≡ false) × (text_eq p (bytes "..") ≡ false)
unfolding every text_eq
IsPart-other_than_dots [] h = (refl, refl)
IsPart-other_than_dots (b ∷ s) h = let c = h.chars in (ground arith, ground arith)

IsPart-path_char : (p : Text) → IsPart p → every is_path_char p ≡ true
IsPart-path_char p h = every_mono is_id_char is_path_char p (λ b k. ground arith) h.chars

IsPart-validate_caller_segment : (p : Text) → IsPart p → validate_caller_segment p ≡ none
unfolding validate_caller_segment check_segment equal_fold_jvs
IsPart-validate_caller_segment p h =
    let (dot, parent) = IsPart-other_than_dots p h in
    let (_, plain, _) = path_char-plain p (IsPart-path_char p h) in
    let ascii = runes_of_ascii p (path_char-ascii p (IsPart-path_char p h)) in
    rw (h.nonempty, dot, parent, ascii, IsPart-fold_jvs p h.chars, plain) refl

pub IsPart-validate_each : (ps : List Text) → All IsPart ps → validate_each ps ≡ none
unfolding validate_each
IsPart-validate_each [] h = refl
IsPart-validate_each (p ∷ ps) (h, hs) =
    rw (IsPart-validate_caller_segment p h) (IsPart-validate_each ps hs)

pub IsPart-NoSlash : (p : Text) → IsPart p → NoSlash p
IsPart-NoSlash p h = every_mono is_id_char _ p (λ b k. ground arith) h.chars
