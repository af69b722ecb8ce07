-- ===== src/PathResolver/Id.antt =====
-- `ValidateID` of internal/pathresolver/pathresolver.go. `MountID` is another name of
-- `WorkloadMountBindingID`; `other_kind` stands for any other string.
pub mod Laws
mod Tests
use agentsmith_fs_control_pl.Prelude.{
  Bool, Option, [], check, leb, length, ltb, none, not, some, ℕ, ◌&&◌, ◌==◌, ◌then_check◌, ◌||◌,
  ◌∷◌,
}
use agentsmith_fs_control_pl.Text.{Text, bytes, cut_prefix, every}

pub data IdKind : Type 0 where
  namespace_id repo_id template_id volume_id export_id mount_binding_id operation_id : IdKind
  other_kind : Text → IdKind

-- The errors of `ValidateID`, all wrapping `ErrInvalidID`.
pub data IdError : Type 0 where
  unknown_kind wrong_prefix wrong_length wrong_start unsafe_character : IdError

-- The table `idSpecs`.
abbrev pub id_prefix : IdKind → Option Text
id_prefix namespace_id = some (bytes "ns_")
id_prefix repo_id = some (bytes "repo_")
id_prefix template_id = some (bytes "tmpl_")
id_prefix volume_id = some (bytes "vol_")
id_prefix export_id = some (bytes "export_")
id_prefix mount_binding_id = some (bytes "wmb_")
id_prefix operation_id = some (bytes "op_")
id_prefix (other_kind k) = none

abbrev pub is_ascii_alnum : ℕ → Bool
is_ascii_alnum b = leb b'A' b && leb b b'Z' || leb b'a' b && leb b b'z' || leb b'0' b && leb b b'9'

abbrev pub is_id_char : ℕ → Bool
is_id_char b = is_ascii_alnum b || b == b'_' || b == b'-'

-- The bytes of the suffix; the length test leaves no empty one.
unfoldable pub validate_characters : Text → Option IdError
validate_characters [] = some wrong_start
validate_characters (b ∷ s) =
    check (not (is_ascii_alnum b)) wrong_start
    then_check check (not (every is_id_char s)) unsafe_character

unfoldable pub validate_suffix : Text → Option IdError
validate_suffix s =
    check (ltb (length s) 2 || ltb 63 (length s)) wrong_length then_check validate_characters s

unfoldable pub validate_prefixed : Option Text → Option IdError
validate_prefixed none = some wrong_prefix
validate_prefixed (some suffix) = validate_suffix suffix

unfoldable pub validate_with : Option Text → Text → Option IdError
validate_with none id = some unknown_kind
validate_with (some p) id = validate_prefixed (cut_prefix p id)

unfoldable pub validate_id : IdKind → Text → Option IdError
validate_id kind id = validate_with (id_prefix kind) id
