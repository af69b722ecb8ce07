-- ===== src/PathResolver/Traversal.antt =====
-- `ResolvePayloadTraversal`, `ValidateTraversalPlan` and the managed subdirectories
-- (internal/pathresolver/pathresolver.go). The file system is the inspector, a function from the
-- prefixes of a path to entries or errors.
pub mod Checked
mod Parts
mod Accepts
pub mod Roots
mod Tests
use agentsmith_fs_control_pl.PathResolver.Id.{
  namespace_id, repo_id, template_id, IdError, validate_id,
}
use agentsmith_fs_control_pl.PathResolver.Path.{
  bad_id, symlink_component, hardlinked_file, PathError, absolute_subdir, check_segment, empty_path,
  empty_subdir, encoded_subdir, follows_symlinks, has_slash_like_or_control, ignores_hardlinks,
  inspection, is_absolute_like, nil_inspector, not_payload_root, other_resource,
  resolve_caller_path, slash_like, subdir_not_utf8, subdir_slash_like,
}
use agentsmith_fs_control_pl.Prelude.{
  Bool, List, Option, Result, [], check, err, false, if◌then◌else◌, ltb, none, not, ok, some, true,
  ℕ, ◌&&◌, ◌++◌, ◌==◌, ◌and_then◌, ◌then_check◌, ◌then_return◌, ◌∷◌,
}
use agentsmith_fs_control_pl.Text.{Text, bytes, every, is_empty, text_eq}
use agentsmith_fs_control_pl.Text.Runes.{valid_string}
use agentsmith_fs_control_pl.Text.Split.{split}

pub record TraversalPlan : Type 0 where
  pub root_subdir : Text
  pub segments : List Text
  pub no_follow : Bool
  pub reject_hardlinks : Bool

pub data EntryType : Type 0 where
  unknown_entry directory_entry file_entry other_entry : EntryType
  unlisted_entry : Text → EntryType

pub record TraversalEntry : Type 0 where
  pub exists : Bool
  pub type : EntryType
  pub symlink : Bool
  pub link_count : ℕ

abbrev pub is_file : EntryType → Bool
is_file file_entry = true
is_file entry = false

abbrev pub Inspector : Type 0
Inspector = List Text → Result Text TraversalEntry

unfoldable pub validate_caller_segment : Text → Option PathError
validate_caller_segment segment =
    check_segment segment then_check check (has_slash_like_or_control segment) slash_like

unfoldable pub validate_each : List Text → Option PathError
validate_each [] = none
validate_each (segment ∷ segments) =
    validate_caller_segment segment then_check validate_each segments

unfoldable pub validate_caller_segments : List Text → Option PathError
validate_caller_segments [] = some empty_path
validate_caller_segments (segment ∷ segments) = validate_each (segment ∷ segments)

abbrev pub wrap_id : Option IdError → Option PathError
wrap_id none = none
wrap_id (some e) = some (bad_id e)

unfoldable pub validate_resource : Text → Text → Option PathError
validate_resource collection name =
    if text_eq collection (bytes "repos")
    then wrap_id (validate_id repo_id name)
    else if text_eq collection (bytes "templates")
    then wrap_id (validate_id template_id name)
    else some other_resource

unfoldable pub validate_payload_root : List Text → Option PathError
validate_payload_root (a ∷ b ∷ namespace ∷ collection ∷ name ∷ last ∷ []) =
    check
      (not (
        text_eq a (bytes "afscp")
        && text_eq b (bytes "namespaces")
        && text_eq last (bytes "payload")))
      not_payload_root
    then_check wrap_id (validate_id namespace_id namespace)
    then_check validate_resource collection name
validate_payload_root segments = some not_payload_root

unfoldable pub validate_managed_subdir : Text → Option PathError
validate_managed_subdir subdir =
    check (is_empty subdir) empty_subdir
    then_check check (not (valid_string subdir)) subdir_not_utf8
    then_check check (is_absolute_like subdir) absolute_subdir
    then_check check (has_slash_like_or_control subdir) subdir_slash_like
    then_check check (not (every (λ b. not (b == b'%')) subdir)) encoded_subdir
    then_check validate_caller_segments (split subdir)
    then_check validate_payload_root (split subdir)

unfoldable pub resolve_payload_traversal : Text → Text → Result PathError TraversalPlan
resolve_payload_traversal root raw =
    validate_managed_subdir root
    then_return (resolve_caller_path raw and_then λ path. ok (record {
      root_subdir = root;
      segments = path.segments;
      no_follow = true;
      reject_hardlinks = true;
    }))

-- One round of the loop, at the entry of a prefix.
unfoldable pub check_entry :
    TraversalPlan → List Text → Result Text TraversalEntry → Option PathError
check_entry plan prefix (err e) = some (inspection e)
check_entry plan prefix (ok entry) =
    if not entry.exists
    then none
    else (check (plan.no_follow && entry.symlink) (symlink_component prefix)
        then_check check (plan.reject_hardlinks && is_file entry.type && ltb 1 entry.link_count)
            (hardlinked_file prefix))

-- The loop, from the prefix that is done.
unfoldable pub inspect_from : TraversalPlan → Inspector → List Text → List Text → Option PathError
inspect_from plan inspect done [] = none
inspect_from plan inspect done (segment ∷ segments) =
    check_entry plan (done ++ segment ∷ []) (inspect (done ++ segment ∷ []))
    then_check inspect_from plan inspect (done ++ segment ∷ []) segments

abbrev pub with_inspector : TraversalPlan → Option Inspector → Option PathError
with_inspector plan none = some nil_inspector
with_inspector plan (some inspect) =
    validate_caller_segments plan.segments then_check inspect_from plan inspect [] plan.segments

unfoldable pub validate_traversal_plan : TraversalPlan → Option Inspector → Option PathError
validate_traversal_plan plan inspector =
    validate_managed_subdir plan.root_subdir
    then_check check (not plan.no_follow) follows_symlinks
    then_check check (not plan.reject_hardlinks) ignores_hardlinks
    then_check with_inspector plan inspector
