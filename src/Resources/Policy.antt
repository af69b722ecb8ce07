-- ===== src/Resources/Policy.antt =====
-- The policies of a namespace (internal/resources/resources.go): JSON objects with fixed keys. An
-- object is an association list, of which the first entry counts; nil is `none`. `parse` is
-- `json.Number.Float64`, which reads a number in the notation of JSON as an integer over a power of
-- two.
use agentsmith_fs_control_pl.Operations.Value.{
  Value, boolean, integer, float, number, Members, member, no_members,
}
use agentsmith_fs_control_pl.Prelude.{
  ◌^◌, ◌*◌, Bool, List, Option, Result, [], check, err, false, if◌then◌else◌, ltb_ℤ, none, not, ok,
  pos, some, true, ℕ, ℤ, ◌then_check◌, ◌||◌, ◌∷◌,
}
use agentsmith_fs_control_pl.Resources.{
  ResourceError, missing_field, no_object, out_of_range, unsupported_field, wrong_type,
}
use agentsmith_fs_control_pl.Text.{Text, bytes, text_eq}

-- A number as an integer over a power of two.
abbrev pub Float : Type 0
Float = ℤ × ℕ

-- `object[key]`
abbrev pub get : Members → Text → Option Value
get no_members k = none
get (member name v ms) k = if text_eq name k then some v else get ms k

abbrev pub is_boolean : Value → Bool
is_boolean (boolean b) = true
is_boolean _ = false

abbrev pub one_of : List Text → Text → Bool
one_of [] k = false
one_of (a ∷ keys) k = text_eq a k || one_of keys k

unfoldable pub reject_unknown_keys : List Text → Members → Option ResourceError
reject_unknown_keys allowed no_members = none
reject_unknown_keys allowed (member k v ms) =
    check (not (one_of allowed k)) unsupported_field then_check reject_unknown_keys allowed ms

abbrev require : (Value → Bool) → Option Value → Option ResourceError
require test none = some missing_field
require test (some v) = check (not (test v)) wrong_type

abbrev pub require_bool : Members → Text → Option ResourceError
require_bool ms k = require is_boolean (get ms k)

abbrev pub as_float : (Text → Option Float) → Option Value → Result ResourceError Float
as_float parse none = err missing_field
as_float parse (some (integer n)) = ok (n, 0)
as_float parse (some (float m e)) = ok (m, e)
as_float parse (some (number s)) = elim (parse s) [ none ↦ err wrong_type | some x ↦ ok x ]
as_float parse (some _) = err wrong_type

abbrev pub require_number : (Text → Option Float) → Members → Text → Result ResourceError Float
require_number parse ms k = as_float parse (get ms k)

-- `x < n`
abbrev pub below : Float → ℕ → Bool
below (m, e) n = ltb_ℤ m (pos (n * 2 ^ e))

abbrev pub at_least : ℕ → Result ResourceError Float → Option ResourceError
at_least n (err e) = some e
at_least n (ok x) = check (below x n) out_of_range

-- `validateObject`, then the checks of the members
abbrev pub in_object : (Members → Option ResourceError) → Option Members → Option ResourceError
in_object f none = some no_object
in_object f (some ms) = f ms

unfoldable pub validate_export_policy : (Text → Option Float) → Members → Option ResourceError
validate_export_policy parse p =
    reject_unknown_keys (bytes "webdav_enabled" ∷ bytes "max_session_seconds" ∷ []) p
    then_check require_bool p (bytes "webdav_enabled")
    then_check at_least 60 (require_number parse p (bytes "max_session_seconds"))

unfoldable pub validate_lifecycle_policy : (Text → Option Float) → Members → Option ResourceError
validate_lifecycle_policy parse p =
    reject_unknown_keys
      (bytes "tombstone_retention_seconds"
        ∷ bytes "purge_requires_lifecycle_admin"
        ∷ bytes "break_glass_purge_enabled"
        ∷ [])
      p
    then_check at_least 0 (require_number parse p (bytes "tombstone_retention_seconds"))
    then_check require_bool p (bytes "purge_requires_lifecycle_admin")
    then_check require_bool p (bytes "break_glass_purge_enabled")

unfoldable pub validate_mount_policy : Members → Option ResourceError
validate_mount_policy p =
    reject_unknown_keys
      (bytes "workload_mount_enabled"
        ∷ bytes "workload_mount_requires_external_control_root"
        ∷ bytes "allow_privileged_workload"
        ∷ [])
      p
    then_check require_bool p (bytes "workload_mount_enabled")
    then_check require_bool p (bytes "workload_mount_requires_external_control_root")
    then_check require_bool p (bytes "allow_privileged_workload")

unfoldable pub validate_template_policy : Members → Option ResourceError
validate_template_policy p =
    reject_unknown_keys
      (bytes "namespace_templates_enabled" ∷ bytes "cross_namespace_clone_enabled" ∷ []) p
    then_check require_bool p (bytes "namespace_templates_enabled")
    then_check require_bool p (bytes "cross_namespace_clone_enabled")
