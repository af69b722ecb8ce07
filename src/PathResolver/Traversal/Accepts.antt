-- ===== src/PathResolver/Traversal/Accepts.antt =====
-- The checks of managed subdirectories accept the payload roots of valid identifiers
-- (internal/pathresolver/pathresolver.go).
use agentsmith_fs_control_pl.PathResolver.Id.{
  IdKind, export_id, mount_binding_id, namespace_id, operation_id, other_kind, repo_id, template_id,
  validate_id, validate_prefixed, validate_with, volume_id,
}
use agentsmith_fs_control_pl.PathResolver.Id.Laws.{validate_id-safe}
use agentsmith_fs_control_pl.PathResolver.Path.{is_absolute_like}
use agentsmith_fs_control_pl.PathResolver.Traversal.{
  validate_caller_segments, validate_managed_subdir, validate_payload_root, validate_resource,
}
use agentsmith_fs_control_pl.PathResolver.Traversal.Parts.{
  IsPart, IsPart-NoSlash, IsPart-validate_each, every-join, path_char-plain, root_parts,
}
use agentsmith_fs_control_pl.Prelude.{All, All-map, [], false, none, refl, ◌∷◌, ◌≡◌, ◌≢◌}
use agentsmith_fs_control_pl.Text.{Text, bytes, cut_prefix, every, is_empty, text_eq}
use agentsmith_fs_control_pl.Text.Split.{join, split-join}

-- No identifier is empty.
validate_id-nonempty : (k : IdKind) → validate_id k [] ≢ none
unfolding validate_id validate_with validate_prefixed cut_prefix
validate_id-nonempty namespace_id h = cc
validate_id-nonempty repo_id h = cc
validate_id-nonempty template_id h = cc
validate_id-nonempty volume_id h = cc
validate_id-nonempty export_id h = cc
validate_id-nonempty mount_binding_id h = cc
validate_id-nonempty operation_id h = cc
validate_id-nonempty (other_kind t) h = cc

-- A valid identifier is a part of a managed path.
validate_id-IsPart : (k : IdKind) (s : Text) → validate_id k s ≡ none → IsPart s
validate_id-IsPart k [] h = absurd (validate_id-nonempty k h)
validate_id-IsPart k (b ∷ s) h = record { nonempty = refl; chars = validate_id-safe k (b ∷ s) h }

root_parts-IsPart :
    (namespace collection name : Text)
    → IsPart namespace
    → IsPart collection
    → IsPart name
    → All IsPart (root_parts namespace collection name)
unfolding every
root_parts-IsPart namespace collection name n c m =
    let payload : All IsPart (bytes "payload" ∷ []) =
      (record { nonempty = refl; chars = refl }, tt) in
    let given : All IsPart (namespace ∷ collection ∷ name ∷ bytes "payload" ∷ []) =
      (n, (c, (m, payload))) in
    (record { nonempty = refl; chars = refl }, (record { nonempty = refl; chars = refl }, given))

root_parts-head :
    (namespace collection name : Text)
    → (is_empty (join (root_parts namespace collection name)) ≡ false)
      × (is_absolute_like (join (root_parts namespace collection name)) ≡ false)
unfolding join is_absolute_like
root_parts-head namespace collection name = (refl, refl)

-- What remains of the checks of a managed path whose parts are safe is that of its parts.
root_parts-accepted :
    (namespace collection name : Text)
    → IsPart namespace
    → IsPart collection
    → IsPart name
    → validate_payload_root (root_parts namespace collection name) ≡ none
    → validate_managed_subdir (join (root_parts namespace collection name)) ≡ none
unfolding validate_managed_subdir validate_caller_segments
root_parts-accepted namespace collection name n c m v =
    let parts = root_parts namespace collection name in
    let ok_parts = root_parts-IsPart namespace collection name n c m in
    let (nonempty, relative) = root_parts-head namespace collection name in
    let (utf8, plain, single) = path_char-plain (join parts) (every-join parts ok_parts) in
    let apart =
      split-join (bytes "afscp")
        (bytes "namespaces" ∷ namespace ∷ collection ∷ name ∷ bytes "payload" ∷ [])
        (All-map (λ p h. IsPart-NoSlash p h) parts ok_parts) in
    rw (nonempty, utf8, relative, plain, single, apart, IsPart-validate_each parts ok_parts, v) refl

pub accepts_repo_root :
    (namespace name : Text)
    → validate_id namespace_id namespace ≡ none
    → validate_id repo_id name ≡ none
    → validate_managed_subdir (join (root_parts namespace (bytes "repos") name)) ≡ none
unfolding validate_payload_root text_eq every validate_resource
accepts_repo_root namespace name n m =
    root_parts-accepted namespace (bytes "repos") name (validate_id-IsPart namespace_id namespace n)
      (record { nonempty = refl; chars = refl }) (validate_id-IsPart repo_id name m)
      (rw (n, m) refl)

pub accepts_template_root :
    (namespace name : Text)
    → validate_id namespace_id namespace ≡ none
    → validate_id template_id name ≡ none
    → validate_managed_subdir (join (root_parts namespace (bytes "templates") name)) ≡ none
unfolding validate_payload_root text_eq every validate_resource
accepts_template_root namespace name n m =
    root_parts-accepted namespace (bytes "templates") name
      (validate_id-IsPart namespace_id namespace n) (record { nonempty = refl; chars = refl })
      (validate_id-IsPart template_id name m) (rw (n, m) refl)
