-- ===== src/ExportAccess/Tests.antt =====
-- Export sessions and requests at concrete values.
use agentsmith_fs_control_pl.ExportAccess.{
  Session, expiry_not_after, resolve_ttl_seconds, ttl_too_small, validate_begin,
  validate_request_id, validate_session, webdav,
}
use agentsmith_fs_control_pl.ExportAccess.Validity.{validate_session-validate_export}
use agentsmith_fs_control_pl.PathResolver.Id.{
  validate_characters, validate_id, validate_prefixed, validate_suffix, validate_with,
}
use agentsmith_fs_control_pl.Prelude.{[], err, none, pos, refl, some, true, ◌≡◌}
use agentsmith_fs_control_pl.SessionState.Sessions.{
  active, read_write, ExportSession, validate_export,
}
use agentsmith_fs_control_pl.Text.{bytes, cut_prefix, every, trim_space}

abbrev session : Session
session = record {
  id = bytes "export_e1";
  namespace_id = bytes "ns_a1";
  repo_id = bytes "repo_b2";
  protocol = webdav;
  mode = read_write;
  status = active;
  expires_at = 100;
  created_by_caller_service = bytes "svc";
  created_by_actor = record { type = bytes "user"; id = bytes "u1" };
  active_request_count = pos 1;
  active_write_count = pos 1;
  created_at = 10;
  updated_at = 10;
}

abbrev view : ExportSession
view = record {
  id = bytes "export_e1";
  namespace_id = bytes "ns_a1";
  repo_id = bytes "repo_b2";
  mode = read_write;
  status = active;
  expires_at = 100;
  active_request_count = pos 1;
  active_write_count = pos 1;
  last_observed_at = none;
  last_gateway_heartbeat_at = none;
  gateway_heartbeat_expires_at = none;
  write_drained_at = none;
  terminal_observed_at = none;
  status_reason = [];
  created_at = 10;
  updated_at = 10;
}

valid_session : validate_session session ≡ none
unfolding validate_session validate_id validate_with validate_prefixed validate_suffix
    validate_characters cut_prefix every trim_space
valid_session = refl

short_ttl : resolve_ttl_seconds (pos 59) (pos 7200) ≡ err ttl_too_small
unfolding resolve_ttl_seconds
short_ttl = refl

late :
    validate_begin (record {
      request_id = bytes "errq_r1";
      export_id = bytes "export_e1";
      started_at = 20;
      heartbeat_expires_at = 20;
      write = true;
    })
    ≡ some expiry_not_after
unfolding validate_begin validate_request_id validate_id validate_with validate_prefixed
    validate_suffix validate_characters cut_prefix every trim_space
late = refl

validate_session-validate_export_example : validate_export view ≡ none
unfolding trim_space
validate_session-validate_export_example =
    validate_session-validate_export session view valid_session (refl, refl, refl)
      (refl, refl, refl, refl, refl, refl, refl, refl) refl
