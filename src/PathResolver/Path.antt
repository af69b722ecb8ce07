-- ===== src/PathResolver/Path.antt =====
-- `ResolveCallerPath` and what it calls (internal/pathresolver/pathresolver.go): the paths that
-- callers give, and the errors of the package.
pub mod Segments
pub mod Again
mod Tests
use mathlib.Core.Option
use agentsmith_fs_control_pl.PathResolver.Id.{
  IdError, namespace_id, repo_id, template_id, validate_id,
}
use agentsmith_fs_control_pl.Prelude.{
  ℕ, List, check, ◌then_check◌, ◌then_return◌, Bool, Option, Result, [], err, false, if◌then◌else◌,
  leb, map, none, not, ok, some, true, ◌&&◌, ◌*◌, ◌+◌, ◌-◌, ◌==◌, ◌||◌, ◌∷◌,
}
use agentsmith_fs_control_pl.Text.{Text, bytes, is_empty, text_eq}
use agentsmith_fs_control_pl.Text.Runes.{is_control, runes, valid_string, any}
use agentsmith_fs_control_pl.Text.Split.{join, split}

-- The errors, with the sentinel that each wraps: `ErrInvalidPath`, `ErrInvalidID` (`bad_id`) or
-- `ErrPathEscape` (from `follows_symlinks` on). `inspection` is an error of the inspector.
pub data PathError : Type 0 where
  empty_path not_utf8 absolute_path slash_like encoded_separator : PathError
  malformed_escape decoded_not_utf8 double_encoded decoded_absolute decoded_slash_like : PathError
  empty_segment dot_segment parent_traversal jvs_segment : PathError
  empty_subdir subdir_not_utf8 absolute_subdir subdir_slash_like encoded_subdir : PathError
  not_payload_root other_resource : PathError
  bad_id : IdError → PathError
  follows_symlinks ignores_hardlinks nil_inspector : PathError
  symlink_component hardlinked_file : List Text → PathError
  inspection : Text → PathError

pub record CallerPath : Type 0 where
  pub clean : Text
  pub segments : List Text

abbrev pub is_ascii_letter : ℕ → Bool
is_ascii_letter b = leb b'A' b && leb b b'Z' || leb b'a' b && leb b b'z'

abbrev pub has_drive : Text → Bool
has_drive [] = false
has_drive (a ∷ []) = false
has_drive (a ∷ b ∷ s) = is_ascii_letter a && b == b':'

abbrev pub starts_with : ℕ → Text → Bool
starts_with c [] = false
starts_with c (b ∷ s) = b == c

unfoldable pub is_absolute_like : Text → Bool
is_absolute_like path = starts_with b'/' path || starts_with 0x5c path || has_drive path

unfoldable pub is_slash_like_rune : ℕ → Bool
is_slash_like_rune r =
    r == 0x5c
    || r == 0x2044
    || r == 0x2215
    || r == 0x2216
    || r == 0x27cd
    || r == 0x29f8
    || r == 0x29f9
    || r == 0x2571
    || r == 0x2572
    || r == 0xfe68
    || r == 0xff0f
    || r == 0xff3c

unfoldable pub has_slash_like_or_control : Text → Bool
has_slash_like_or_control path = any (λ r. is_control r || is_slash_like_rune r) (runes path)

unfoldable pub hex_value : ℕ → Option ℕ
hex_value b =
    if leb b'0' b && leb b b'9'
    then some (b - b'0')
    else if leb b'a' b && leb b b'f'
    then some (b - b'a' + 10)
    else if leb b'A' b && leb b b'F'
    then some (b - b'A' + 10)
    else none

abbrev pub hex_pair : Option ℕ → Option ℕ → Option ℕ
hex_pair none low = none
hex_pair (some high) none = none
hex_pair (some high) (some low) = some (high * 16 + low)

abbrev pub hex_byte : ℕ → ℕ → Option ℕ
hex_byte hi lo = hex_pair (hex_value hi) (hex_value lo)

-- The loop of `containsEncodedSeparator` and `containsEncodedPathMeta`, which skips an escape that
-- does not meet the test.
unfoldable pub contains_encoded : (ℕ → Bool) → Text → Bool
contains_encoded meta (b ∷ hi ∷ lo ∷ s) =
    let next = contains_encoded meta (hi ∷ lo ∷ s) in
    let skipped = contains_encoded meta s in
    if b == b'%'
    then elim (hex_byte hi lo) [ none ↦ next | some value ↦ if meta value then true else skipped ]
    else next
contains_encoded meta s = false

abbrev pub is_separator : ℕ → Bool
is_separator value = value == b'/' || value == 0x5c

unfoldable pub contains_encoded_separator : Text → Bool
contains_encoded_separator path = contains_encoded is_separator path

unfoldable pub contains_encoded_path_meta : Text → Bool
contains_encoded_path_meta path =
    contains_encoded (λ value. value == b'.' || is_separator value) path

-- `url.PathUnescape`: `none` where an escape is malformed.
unfoldable pub path_unescape : Text → Option Text
path_unescape [] = some []
path_unescape (b ∷ []) = if b == b'%' then none else some (b ∷ [])
path_unescape (b ∷ hi ∷ []) =
    let rest = path_unescape (hi ∷ []) in if b == b'%' then none else Option.map (λ s. b ∷ s) rest
path_unescape (b ∷ hi ∷ lo ∷ s) =
    let next = path_unescape (hi ∷ lo ∷ s) in
    let skipped = path_unescape s in
    if b == b'%'
    then elim (hex_byte hi lo) [ none ↦ none | some value ↦ Option.map (λ t. value ∷ t) skipped ]
    else Option.map (λ t. b ∷ t) next

-- `strings.EqualFold(segment, ".jvs")`, by runes; U+017F folds to `s`.
abbrev pub fold_jvs : List ℕ → Bool
fold_jvs (d ∷ j ∷ v ∷ s ∷ []) =
    d == b'.'
    && (j == b'j' || j == b'J')
    && (v == b'v' || v == b'V')
    && (s == b's' || s == b'S' || s == 0x17f)
fold_jvs r = false

unfoldable pub equal_fold_jvs : Text → Bool
equal_fold_jvs segment = fold_jvs (runes segment)

unfoldable pub check_segment : Text → Option PathError
check_segment segment =
    check (is_empty segment) empty_segment
    then_check check (text_eq segment (bytes ".")) dot_segment
    then_check check (text_eq segment (bytes "..")) parent_traversal
    then_check check (equal_fold_jvs segment) jvs_segment

unfoldable pub check_segments : List Text → Option PathError
check_segments [] = none
check_segments (segment ∷ segments) = check_segment segment then_check check_segments segments

unfoldable pub resolve_decoded : Text → Result PathError CallerPath
resolve_decoded decoded =
    check (not (valid_string decoded)) decoded_not_utf8
    then_return check (contains_encoded_path_meta decoded) double_encoded
    then_return check (is_absolute_like decoded) decoded_absolute
    then_return check (has_slash_like_or_control decoded) decoded_slash_like
    then_return check_segments (split decoded)
    then_return ok (record { clean = join (split decoded); segments = split decoded })

unfoldable pub resolve_unescaped : Option Text → Result PathError CallerPath
resolve_unescaped none = err malformed_escape
resolve_unescaped (some decoded) = resolve_decoded decoded

unfoldable pub resolve_caller_path : Text → Result PathError CallerPath
resolve_caller_path raw =
    check (is_empty raw) empty_path
    then_return check (not (valid_string raw)) not_utf8
    then_return check (is_absolute_like raw) absolute_path
    then_return check (has_slash_like_or_control raw) slash_like
    then_return check (contains_encoded_separator raw) encoded_separator
    then_return resolve_unescaped (path_unescape raw)
