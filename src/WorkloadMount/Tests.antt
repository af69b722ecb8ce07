-- ===== src/WorkloadMount/Tests.antt =====
-- Workload mounts at concrete bindings and paths.
use agentsmith_fs_control_pl.PathResolver.Id.{
  validate_characters, validate_id, validate_prefixed, validate_suffix, validate_with,
}
use agentsmith_fs_control_pl.Prelude.{All, [], false, none, ok, pos, refl, some, true, ◌∷◌, ◌≡◌}
use agentsmith_fs_control_pl.SessionState.{
  conclude, evaluate, lifecycle_drain_gate, mount_blocker, mount_evidence, scan_exports,
  scan_mounts,
}
use agentsmith_fs_control_pl.SessionState.Sessions.{
  GateRequest, MountStatus, validate_mount, validate_target,
}
use agentsmith_fs_control_pl.Text.{bytes, cut_prefix, every, text_eq, trim_space}
use agentsmith_fs_control_pl.Text.Runes.{any, is_control, runes}
use agentsmith_fs_control_pl.Text.Split.{join, split}
use agentsmith_fs_control_pl.WorkloadMount.{
  Binding, all_labels, allow_issuance, binding_plan_freshness, check_parts, check_reserved,
  freshness_of, label_from, path_reserved, split_dots, valid_dns_label, valid_dns_subdomain,
  valid_status, validate_binding, validate_mount_path, validate_secret_ref,
}
use agentsmith_fs_control_pl.WorkloadMount.Freshness.{
  IsGone, gate_view, lifecycle_drain_gate-IsGone,
}
use agentsmith_fs_control_pl.WorkloadMount.StaleLease.{run_once_stale_leases}

abbrev binding : Binding
binding = record {
  id = bytes "wmb_m1";
  namespace_id = bytes "ns_a1";
  repo_id = bytes "repo_b2";
  volume_id = bytes "vol_v1";
  mount_path = bytes "/workspace/repo";
  read_only_mount = false;
  status = MountStatus.active;
  lease_seconds = pos 3600;
  lease_expires_at = 100;
  last_heartbeat_at = none;
  last_observed_at = none;
  confirmed_unmounted_at = none;
  unable_to_write_at = none;
  terminal_observed_at = none;
  status_reason = [];
  created_at = 10;
  updated_at = 10;
}

abbrev gone : Binding
gone = record binding { status = MountStatus.released; confirmed_unmounted_at = some 90 }

valid_binding : validate_binding binding ≡ none
unfolding validate_binding validate_mount_path validate_id validate_with validate_prefixed
    validate_suffix validate_characters cut_prefix every text_eq trim_space any is_control runes
    split join check_parts check_reserved valid_status
valid_binding = refl

reserved : validate_mount_path (bytes "/proc/1") ≡ some path_reserved
unfolding validate_mount_path cut_prefix every text_eq trim_space any is_control runes split join
    check_parts check_reserved
reserved = refl

not_reserved : validate_mount_path (bytes "/process") ≡ none
unfolding validate_mount_path cut_prefix every text_eq trim_space any is_control runes split join
    check_parts check_reserved
not_reserved = refl

-- A name is trimmed for the test only.
padded_name :
    validate_secret_ref (record { namespace = bytes "fs"; name = bytes " mount.key-1 " }) ≡ none
unfolding validate_secret_ref valid_dns_label valid_dns_subdomain label_from all_labels split_dots
    trim_space runes
padded_name = refl

fresh : binding_plan_freshness binding 99 ≡ allow_issuance
unfolding binding_plan_freshness freshness_of
fresh = refl

kept :
    run_once_stale_leases
      (some (record { has_store = true; has_clock = true; limit = pos 10 }))
      200
      (λ now limit. ok (binding ∷ []))
    ≡ (record { scanned = 1; kept_blocked = 1; failed_count = 0 }, none)
unfolding run_once_stale_leases
kept = refl

abbrev gate : GateRequest
gate = record {
  namespace_id = bytes "ns_a1";
  repo_id = bytes "repo_b2";
  now = 150;
  export_sessions = [];
  mounts = gate_view gone ∷ [];
}

opened : (lifecycle_drain_gate gate).allowed ≡ true
unfolding lifecycle_drain_gate evaluate validate_target validate_id validate_with validate_prefixed
    validate_suffix validate_characters cut_prefix every scan_exports scan_mounts validate_mount
    mount_blocker mount_evidence text_eq conclude
opened = refl

lifecycle_drain_gate-IsGone_example : All (IsGone gate) (gone ∷ [])
lifecycle_drain_gate-IsGone_example = lifecycle_drain_gate-IsGone gate (gone ∷ []) refl opened
