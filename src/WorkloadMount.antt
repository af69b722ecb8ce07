-- ===== src/WorkloadMount.antt =====
-- internal/workloadmount: the bindings of workload mounts, their mount paths and secret references
-- (workloadmount.go), and the scan for stale leases (reconcile.go).
pub mod Paths
pub mod Labels
pub mod Freshness
pub mod StaleLease
mod Tests
use mathlib.Core.Option
use agentsmith_fs_control_pl.Clock.{Time, after, is_zero}
use agentsmith_fs_control_pl.PathResolver.Id.{IdKind, IdError, mount_binding_id, validate_id}
use agentsmith_fs_control_pl.Prelude.{
  Bool, List, Option, [], check, false, if◌then◌else◌, is_some, leb, length, ltb, ltb_ℤ, map, none,
  not, pos, true, ℕ, ℤ, ◌&&◌, ◌++◌, ◌+◌, ◌-◌, ◌==◌, ◌then_check◌, ◌||◌, ◌∷◌,
}
use agentsmith_fs_control_pl.SessionState.Sessions.{
  MountStatus, expired, failed, issued, pending, releasing, revoked, other_status, released,
}
use agentsmith_fs_control_pl.Text.{Text, bytes, cut_prefix, every, is_empty, text_eq, trim_space}
use agentsmith_fs_control_pl.Text.Runes.{any, is_control, runes}
use agentsmith_fs_control_pl.Text.Split.{before_first, join, split}

-- The errors of `Validate` and `ValidateMountPath`.
pub data MountError : Type 0 where
  bad_id : IdError → MountError
  path_empty path_relative path_root path_backslash path_control path_unclean : MountError
  path_reserved : MountError
  bad_status bad_lease_seconds bad_timestamps bad_secret_ref : MountError

pub record Binding : Type 0 where
  pub id : Text
  pub namespace_id : Text
  pub repo_id : Text
  pub volume_id : Text
  pub mount_path : Text
  pub read_only_mount : Bool
  pub status : MountStatus
  pub lease_seconds : ℤ
  pub lease_expires_at : Time
  pub last_heartbeat_at : Option Time
  pub last_observed_at : Option Time
  pub confirmed_unmounted_at : Option Time
  pub unable_to_write_at : Option Time
  pub terminal_observed_at : Option Time
  pub status_reason : Text
  pub created_at : Time
  pub updated_at : Time

abbrev pub min_lease_seconds : ℤ
min_lease_seconds = pos 60

abbrev pub max_lease_seconds : ℤ
max_lease_seconds = pos 86_400

abbrev pub reserved_paths : List Text
reserved_paths =
    bytes "/proc"
    ∷ bytes "/sys"
    ∷ bytes "/dev"
    ∷ bytes "/run/secrets"
    ∷ bytes "/var/run/secrets"
    ∷ []

-- `strings.HasPrefix(path, "/")`
abbrev pub is_absolute : Text → Bool
is_absolute [] = false
is_absolute (b ∷ s) = b == b'/'

abbrev pub unclean_part : Text → Bool
unclean_part part = is_empty part || text_eq part (bytes ".") || text_eq part (bytes "..")

unfoldable pub check_parts : List Text → Option MountError
check_parts [] = none
check_parts (part ∷ parts) = check (unclean_part part) path_unclean then_check check_parts parts

-- `parts[1:]`; `strings.Split` always gives a part.
abbrev pub after_first : List Text → List Text
after_first [] = []
after_first (part ∷ parts) = parts

unfoldable pub check_reserved : Text → List Text → Option MountError
check_reserved path [] = none
check_reserved path (reserved ∷ rest) =
    check (text_eq path reserved || is_some (cut_prefix (reserved ++ b'/' ∷ []) path)) path_reserved
    then_check check_reserved path rest

unfoldable pub validate_mount_path : Text → Option MountError
validate_mount_path path =
    check (is_empty path || not (text_eq (trim_space path) path)) path_empty
    then_check check (not (is_absolute path)) path_relative
    then_check check (text_eq path (bytes "/")) path_root
    then_check check (not (every (λ b. not (b == 0x5c)) path)) path_backslash
    then_check check (any is_control (runes path)) path_control
    then_check check_parts (after_first (split path))
    then_check check (not (text_eq (b'/' ∷ join (after_first (split path))) path)) path_unclean
    then_check check_reserved path reserved_paths

abbrev pub mount_id : IdKind → Text → Option MountError
mount_id k name = Option.map bad_id (validate_id k name)

-- `ValidStatus`
unfoldable pub valid_status : MountStatus → Bool
valid_status (MountStatus.other_status s) = false
valid_status status = true

unfoldable pub valid_orchestrator_status : MountStatus → Bool
valid_orchestrator_status MountStatus.issued = false
valid_orchestrator_status MountStatus.releasing = false
valid_orchestrator_status (MountStatus.other_status s) = false
valid_orchestrator_status status = true

unfoldable pub terminal : MountStatus → Bool
terminal MountStatus.released = true
terminal MountStatus.revoked = true
terminal MountStatus.expired = true
terminal MountStatus.failed = true
terminal status = false

unfoldable pub validate_binding : Binding → Option MountError
validate_binding m =
    mount_id IdKind.mount_binding_id m.id
    then_check mount_id IdKind.namespace_id m.namespace_id
    then_check mount_id IdKind.repo_id m.repo_id
    then_check mount_id IdKind.volume_id m.volume_id
    then_check validate_mount_path m.mount_path
    then_check check (not (valid_status m.status)) bad_status
    then_check check
        (ltb_ℤ m.lease_seconds min_lease_seconds || ltb_ℤ max_lease_seconds m.lease_seconds)
        bad_lease_seconds
    then_check check (is_zero m.lease_expires_at || is_zero m.created_at || is_zero m.updated_at)
        bad_timestamps

pub record SecretRef : Type 0 where
  pub namespace : Text
  pub name : Text

-- One round of the loop of `validSecretRefDNSLabel`: a rune, and whether it is neither the first
-- nor the last byte of the text. A rune of several bytes is refused at its first byte.
abbrev pub label_rune : ℕ → Bool → Bool
label_rune r inside = leb b'a' r && leb r b'z' || leb b'0' r && leb r b'9' || r == b'-' && inside

unfoldable pub label_from : ℕ → ℕ → List ℕ → Bool
label_from index last [] = true
label_from index last (r ∷ rs) =
    label_rune r (ltb 0 index && ltb index last) && label_from (index + 1) last rs

unfoldable pub valid_dns_label : Text → ℕ → Bool
valid_dns_label value most =
    if is_empty value || ltb most (length value)
    then false
    else label_from 0 (length value - 1) (runes value)

unfoldable pub split_dots : Text → List Text
split_dots [] = [] ∷ []
split_dots (b ∷ s) =
    let parts = split_dots s in if b == b'.' then [] ∷ parts else before_first b parts

unfoldable pub all_labels : List Text → Bool
all_labels [] = true
all_labels (part ∷ parts) = valid_dns_label part 63 && all_labels parts

unfoldable pub valid_dns_subdomain : Text → ℕ → Bool
valid_dns_subdomain value most =
    let trimmed = trim_space value in
    if is_empty trimmed || ltb most (length trimmed) then false else all_labels (split_dots trimmed)

unfoldable pub validate_secret_ref : SecretRef → Option MountError
validate_secret_ref ref =
    check (not (valid_dns_label ref.namespace 63) || not (valid_dns_subdomain ref.name 253))
      bad_secret_ref

pub data PlanFreshness : Type 0 where
  allow_issuance stale_issuance allow_teardown no_ordinary_plan : PlanFreshness

abbrev pub issuance : Time → Time → PlanFreshness
issuance expires now =
    if is_zero expires || not (after expires now) then stale_issuance else allow_issuance

unfoldable pub freshness_of : MountStatus → Time → Time → PlanFreshness
freshness_of MountStatus.issued expires now = issuance expires now
freshness_of MountStatus.pending expires now = issuance expires now
freshness_of MountStatus.active expires now = issuance expires now
freshness_of MountStatus.releasing expires now = allow_teardown
freshness_of status expires now = no_ordinary_plan

unfoldable pub binding_plan_freshness : Binding → Time → PlanFreshness
binding_plan_freshness m now = freshness_of m.status m.lease_expires_at now
