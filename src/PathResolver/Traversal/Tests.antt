-- ===== src/PathResolver/Traversal/Tests.antt =====
-- Traversals at concrete roots and file systems.
use agentsmith_fs_control_pl.PathResolver.Id.{
  validate_characters, validate_id, validate_prefixed, validate_suffix, validate_with,
}
use agentsmith_fs_control_pl.PathResolver.Path.{
  check_segment, check_segments, contains_encoded, contains_encoded_path_meta,
  contains_encoded_separator, equal_fold_jvs, hardlinked_file, has_slash_like_or_control,
  is_absolute_like, is_slash_like_rune, path_unescape, resolve_caller_path, resolve_decoded,
  resolve_unescaped,
}
use agentsmith_fs_control_pl.PathResolver.Traversal.{
  Inspector, TraversalPlan, check_entry, directory_entry, file_entry, inspect_from,
  resolve_payload_traversal, unknown_entry, validate_caller_segment, validate_caller_segments,
  validate_each, validate_managed_subdir, validate_payload_root, validate_resource,
  validate_traversal_plan,
}
use agentsmith_fs_control_pl.PathResolver.Traversal.Checked.{
  IsPlain, prefixes, validate_traversal_plan_iff,
}
use agentsmith_fs_control_pl.PathResolver.Traversal.Roots.{
  IsPayloadRoot, validate_managed_subdir_iff,
}
use agentsmith_fs_control_pl.Prelude.{
  All, [], err, false, none, ok, refl, some, true, ◌↔◌, ◌∷◌, ◌≡◌,
}
use agentsmith_fs_control_pl.Text.{Text, bytes, cut_prefix, every, text_eq}
use agentsmith_fs_control_pl.Text.Runes.{any, is_control, runes, valid_string}
use agentsmith_fs_control_pl.Text.Split.{join, split}

abbrev root : Text
root = bytes "afscp/namespaces/ns_a1/repos/repo_b2/payload"

abbrev sample_plan : TraversalPlan
sample_plan = record {
  root_subdir = root;
  segments = bytes "src" ∷ bytes "main" ∷ [];
  no_follow = true;
  reject_hardlinks = true;
}

-- A directory at the first level, and nothing below it.
abbrev listing : Inspector
listing [] = err (bytes "not a path")
listing (a ∷ []) =
    ok (record { exists = true; type = directory_entry; symlink = false; link_count = 2 })
listing (a ∷ b ∷ r) =
    ok (record { exists = false; type = unknown_entry; symlink = false; link_count = 0 })

-- The same, with a file of two names at the second level.
abbrev linked : Inspector
linked [] = err (bytes "not a path")
linked (a ∷ []) =
    ok (record { exists = true; type = directory_entry; symlink = false; link_count = 2 })
linked (a ∷ b ∷ r) =
    ok (record { exists = true; type = file_entry; symlink = false; link_count = 2 })

planned : resolve_payload_traversal root (bytes "src/main") ≡ ok sample_plan
unfolding resolve_payload_traversal validate_managed_subdir valid_string runes is_absolute_like
    has_slash_like_or_control is_control is_slash_like_rune any every split validate_caller_segments
    validate_each validate_caller_segment check_segment text_eq equal_fold_jvs validate_payload_root
    validate_resource validate_id validate_with validate_prefixed validate_suffix
    validate_characters cut_prefix resolve_caller_path resolve_unescaped resolve_decoded
    contains_encoded_separator contains_encoded_path_meta contains_encoded path_unescape
    check_segments join
planned = refl

inspected :
    inspect_from sample_plan linked [] sample_plan.segments
    ≡ some (hardlinked_file sample_plan.segments)
unfolding inspect_from check_entry
inspected = refl

validate_traversal_plan_iff_example :
    (validate_traversal_plan sample_plan (some listing) ≡ none)
    ↔ All (λ p. IsPlain (listing p)) (prefixes sample_plan.segments)
validate_traversal_plan_iff_example =
    validate_traversal_plan_iff root (bytes "src/main") sample_plan listing planned

validate_managed_subdir_iff_example : (validate_managed_subdir root ≡ none) ↔ IsPayloadRoot root
validate_managed_subdir_iff_example = validate_managed_subdir_iff root
