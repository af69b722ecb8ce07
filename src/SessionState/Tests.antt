-- ===== src/SessionState/Tests.antt =====
-- The gates on concrete sessions.
use agentsmith_fs_control_pl.PathResolver.Id.{
  validate_characters, validate_id, validate_prefixed, validate_suffix, validate_with,
}
use agentsmith_fs_control_pl.Prelude.{
  All, List, [], false, none, pos, refl, some, true, ◌↔◌, ◌∷◌, ◌≡◌,
}
use agentsmith_fs_control_pl.SessionState.{
  conclude, evaluate, evidence_of, export_blocker, export_has_terminal_evidence,
  export_observation_stale, export_writer_drained, lifecycle_drain_gate, mount_blocker,
  mount_evidence, restore_writer_gate, scan_exports, scan_mounts,
}
use agentsmith_fs_control_pl.SessionState.Gate.{IsOpen, evaluate-allowed_iff}
use agentsmith_fs_control_pl.SessionState.Gravest.{gravest_export, gravest_mount}
use agentsmith_fs_control_pl.SessionState.Safety.{CannotWrite, restore_writer_gate-CannotWrite}
use agentsmith_fs_control_pl.SessionState.Sessions.{
  ExportSession, GateRequest, MountStatus, WorkloadMountBinding, active_writer_sessions, deny,
  lifecycle_drain, read_write, revoked, validate_export, validate_mount, validate_target,
  workload_mount,
}
use agentsmith_fs_control_pl.Text.{bytes, cut_prefix, every, text_eq, trim_space}

-- All that a gate computes with.
rules : Unit {0}
unfolding restore_writer_gate lifecycle_drain_gate evaluate validate_target validate_export
    validate_mount scan_exports scan_mounts conclude export_blocker export_writer_drained
    export_observation_stale export_has_terminal_evidence evidence_of mount_blocker mount_evidence
    gravest_export gravest_mount validate_id validate_with validate_prefixed validate_suffix
    validate_characters cut_prefix every text_eq trim_space
rules = tt

-- A read-write export that was revoked, with evidence.
abbrev ended : ExportSession
ended = record {
  id = bytes "export_01";
  namespace_id = bytes "ns_a1";
  repo_id = bytes "repo_b2";
  mode = read_write;
  status = revoked;
  expires_at = 50;
  active_request_count = pos 0;
  active_write_count = pos 0;
  last_observed_at = none;
  last_gateway_heartbeat_at = none;
  gateway_heartbeat_expires_at = none;
  write_drained_at = none;
  terminal_observed_at = some 40;
  status_reason = [];
  created_at = 10;
  updated_at = 40;
}

abbrev unmounted : WorkloadMountBinding
unmounted = record {
  id = bytes "wmb_01";
  namespace_id = bytes "ns_a1";
  repo_id = bytes "repo_b2";
  read_only_mount = false;
  status = MountStatus.released;
  lease_expires_at = 50;
  confirmed_unmounted_at = some 45;
  unable_to_write_at = none;
  terminal_observed_at = some 45;
  created_at = 10;
  updated_at = 45;
}

abbrev request : List WorkloadMountBinding → GateRequest
request ms = record {
  namespace_id = bytes "ns_a1";
  repo_id = bytes "repo_b2";
  now = 60;
  export_sessions = ended ∷ [];
  mounts = ms;
}

abbrev drained : GateRequest
drained = request (unmounted ∷ [])

-- A mount whose lease is live.
abbrev mounted : WorkloadMountBinding
mounted = record unmounted {
  status = MountStatus.active;
  lease_expires_at = 90;
  confirmed_unmounted_at = none;
}

drained_opens : (lifecycle_drain_gate drained).allowed ≡ true
unfolding rules
drained_opens = refl

drained_opens_restore : (restore_writer_gate drained).allowed ≡ true
unfolding rules
drained_opens_restore = refl

mounted_blocks :
    restore_writer_gate (request (mounted ∷ [])) ≡ deny active_writer_sessions workload_mount
unfolding rules
mounted_blocks = refl

evaluate-allowed_iff_example :
    ((evaluate lifecycle_drain drained).allowed ≡ true) ↔ IsOpen lifecycle_drain drained
evaluate-allowed_iff_example = evaluate-allowed_iff lifecycle_drain drained

restore_writer_gate-CannotWrite_example : All (CannotWrite drained) (unmounted ∷ [])
restore_writer_gate-CannotWrite_example =
    restore_writer_gate-CannotWrite drained drained_opens_restore
