-- ===== src/PathResolver/Path/Tests.antt =====
-- Caller paths at concrete texts.
use agentsmith_fs_control_pl.PathResolver.Path.{
  jvs_segment, encoded_separator, double_encoded, slash_like, CallerPath, check_segment,
  check_segments, contains_encoded, contains_encoded_path_meta, contains_encoded_separator,
  equal_fold_jvs, has_slash_like_or_control, hex_value, is_absolute_like, is_slash_like_rune,
  path_unescape, resolve_caller_path, resolve_decoded, resolve_unescaped,
}
use agentsmith_fs_control_pl.PathResolver.Path.Again.{resolve_caller_path_again}
use agentsmith_fs_control_pl.PathResolver.Path.Segments.{IsSafe, resolve_caller_path-IsSafe}
use agentsmith_fs_control_pl.Prelude.{All, [], err, ok, refl, true, ◌++◌, ◌∷◌, ◌≡◌, ◌≢◌}
use agentsmith_fs_control_pl.Text.{bytes, every, text_eq}
use agentsmith_fs_control_pl.Text.Runes.{any, is_control, runes, valid_string}
use agentsmith_fs_control_pl.Text.Split.{join, split}

abbrev path : CallerPath
path = record { clean = bytes "src/a b"; segments = bytes "src" ∷ bytes "a b" ∷ [] }

resolved : resolve_caller_path (bytes "src/a%20b") ≡ ok path
unfolding resolve_caller_path resolve_unescaped resolve_decoded valid_string runes is_absolute_like
    has_slash_like_or_control is_control is_slash_like_rune any contains_encoded_separator
    contains_encoded_path_meta contains_encoded path_unescape hex_value split join check_segments
    check_segment text_eq equal_fold_jvs
resolved = refl

jvs_folds : resolve_caller_path (bytes "a/.JvS") ≡ err jvs_segment
unfolding resolve_caller_path resolve_unescaped resolve_decoded valid_string runes is_absolute_like
    has_slash_like_or_control is_control is_slash_like_rune any contains_encoded_separator
    contains_encoded_path_meta contains_encoded path_unescape hex_value split join check_segments
    check_segment text_eq equal_fold_jvs
jvs_folds = refl

-- U+017F is a long s.
long_s : equal_fold_jvs (bytes ".jv" ++ (0xc5 ∷ 0xbf ∷ [])) ≡ true
unfolding equal_fold_jvs runes
long_s = refl

encoded : resolve_caller_path (bytes "a%2fb") ≡ err encoded_separator
unfolding resolve_caller_path valid_string runes is_absolute_like has_slash_like_or_control
    is_control is_slash_like_rune any contains_encoded_separator contains_encoded hex_value
encoded = refl

twice_encoded : resolve_caller_path (bytes "a%252eb") ≡ err double_encoded
unfolding resolve_caller_path resolve_unescaped resolve_decoded valid_string runes is_absolute_like
    has_slash_like_or_control is_control is_slash_like_rune any contains_encoded_separator
    contains_encoded_path_meta contains_encoded path_unescape hex_value
twice_encoded = refl

-- U+2215 is the division slash.
look_alike : resolve_caller_path (b'a' ∷ 0xe2 ∷ 0x88 ∷ 0x95 ∷ b'b' ∷ []) ≡ err slash_like
unfolding resolve_caller_path valid_string runes is_absolute_like has_slash_like_or_control
    is_control is_slash_like_rune any
look_alike = refl

resolve_caller_path-IsSafe_example :
    All IsSafe path.segments × (path.segments ≢ []) × (path.clean ≡ join path.segments)
resolve_caller_path-IsSafe_example = resolve_caller_path-IsSafe (bytes "src/a%20b") path resolved

resolve_caller_path_again_example : resolve_caller_path path.clean ≡ ok path
unfolding every
resolve_caller_path_again_example = resolve_caller_path_again (bytes "src/a%20b") path resolved refl
