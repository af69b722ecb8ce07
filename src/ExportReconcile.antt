-- ===== src/ExportReconcile.antt =====
-- internal/exportreconcile/reconcile.go: a round that recovers stale requests and ends the export
-- sessions which are drained. The store is a machine with states of any type. `stable_id` is the
-- hash of `stableID` and `hash_request` the one of `operations.HashRequest`; the audit event that
-- goes with a request is left out.
pub mod Account
pub mod Targets
mod Tests
use agentsmith_fs_control_pl.Clock.{Time, after, is_zero}
use agentsmith_fs_control_pl.ExportRuntime.{StoredSession}
use agentsmith_fs_control_pl.ExportRuntime.Steps.{TerminalRequest}
use agentsmith_fs_control_pl.Operations.Idempotency.{new_idempotency_scope, scope_string}
use agentsmith_fs_control_pl.Operations.Record.{OperationRecord, export_session_reconcile}
use agentsmith_fs_control_pl.Operations.State.{succeeded}
use agentsmith_fs_control_pl.Operations.Value.{Members, text, nil, member, no_members}
use agentsmith_fs_control_pl.Prelude.{
  Bool, List, Option, Result, [], err, false, if◌then◌else◌, leb, length, ltb, negsuc, none, not,
  ok, pos, some, true, ℕ, ℤ, ◌++◌, ◌+◌, ◌==◌, ◌||◌, ◌∷◌,
}
use agentsmith_fs_control_pl.SessionState.Sessions.{
  ExportStatus, active, revoking, revoked, expired, failed, other_status,
}
use agentsmith_fs_control_pl.Text.{Text, bytes, is_blank, trim_space}

pub record ExportReconcileResult : Type 0 where
  pub recovered_runtime_requests : ℕ
  pub recovered_runtime_writes : ℕ
  pub scanned : ℕ
  pub terminalized : ℕ
  pub reused_count : ℕ
  pub skipped : ℕ
  pub race_lost : ℕ
  pub failed_count : ℕ

-- `no_rows` is `sql.ErrNoRows`.
pub data StoreError : Type 0 where
  no_rows : StoreError
  other_error : Text → StoreError

pub data ReconcileError : Type 0 where
  store_required owner_required : ReconcileError
  recovery_failed list_failed : StoreError → ReconcileError
  hash_failed : Text → ReconcileError
  reconcile_failed : Text → Text → ReconcileError

-- The answer of the reconciliation is whether its operation was stored before.
pub record Store (W : Type 0) : Type 0 where
  pub recover_requests : Time → ℕ → W → Result StoreError (ℕ × ℕ) × W
  pub list_sessions : Time → ℕ → W → Result StoreError (List StoredSession) × W
  pub reconcile : TerminalRequest → OperationRecord → W → Result StoreError Bool × W

-- `clock` is what the clock shows, if there is one, and `system_now` what `time.Now` does.
pub record Config (W : Type 0) : Type 0 where
  pub store : Option (Store W)
  pub owner : Text
  pub limit : ℤ
  pub now : Time
  pub clock : Option Time
  pub system_now : Time

abbrev pub default_limit : ℕ
default_limit = 10

abbrev pub limit_of : ℤ → ℕ
limit_of (pos n) = if n == 0 then default_limit else n
limit_of (negsuc n) = default_limit

abbrev pub clock_time : Option Time → Time
clock_time none = 0
clock_time (some t) = t

abbrev pub first_set : Time → Time → Time
first_set t u = if is_zero t then u else t

abbrev pub decision_time : {W : Type 0} → Config W → Time
decision_time c = first_set (first_set c.now (clock_time c.clock)) c.system_now

abbrev pub target_of : ExportStatus → StoredSession → Time → Option (ExportStatus × Text)
target_of revoking s now = some (revoked, bytes "export session drained after revoke")
target_of active s now =
    if after s.expires_at now
    then none
    else some (expired, bytes "export session expired with no active requests")
target_of current s now = none

unfoldable pub target_status : StoredSession → Time → Option (ExportStatus × Text)
target_status s now =
    if not (s.active_request_count == 0) || not (s.active_write_count == 0)
    then none
    else target_of s.status s now

abbrev pub status_text : ExportStatus → Text
status_text active = bytes "active"
status_text revoking = bytes "revoking"
status_text revoked = bytes "revoked"
status_text expired = bytes "expired"
status_text failed = bytes "failed"
status_text (other_status s) = s

abbrev pub terminal_request : StoredSession → ExportStatus → Text → Time → TerminalRequest
terminal_request s target reason now = record {
  export_id = s.id;
  namespace_id = s.namespace_id;
  target_status = target;
  observed_at = now;
  status_reason = reason;
  active_request_count = pos 0;
  active_write_count = pos 0;
}

-- The key of a reconciliation, by which it is stored once.
abbrev pub reconcile_key : StoredSession → ExportStatus → Text
reconcile_key s target = s.id ++ (b':' ∷ status_text target)

abbrev pub hashed_members : StoredSession → ExportStatus → Members
hashed_members s target = member (bytes "export_id") (text s.id) (
    member (bytes "namespace_id") (text s.namespace_id)
      (member (bytes "target_status") (text (status_text target)) no_members))

abbrev pub operation_record :
    Text → Text → Text → StoredSession → ExportStatus → Time → OperationRecord
operation_record name hash owner s target now = record {
  boundary = record {
    id = name;
    type = export_session_reconcile;
    phase = bytes "export_session_reconcile_committed";
    idempotency_scope = scope_string (
        new_idempotency_scope owner s.namespace_id export_session_reconcile
          (reconcile_key s target));
    idempotency_key = reconcile_key s target;
    request_hash = hash;
    correlation_id = bytes "corr_" ++ name;
    caller_service = owner;
    authorized_actor = record { type = bytes "service"; id = owner };
    resource = record { type = bytes "export"; id = s.id };
    namespace_id = s.namespace_id;
    repo_id = s.repo_id;
    template_id = [];
    export_id = s.id;
    mount_binding_id = [];
    session_fence_id = [];
    external_resource_ids = [];
    input_summary = member (bytes "export_id") (text s.id) (
        member (bytes "repo_id") (text s.repo_id)
          (member (bytes "target_status") (text (status_text target)) no_members));
    jvs_json_output = nil;
    verification_result = nil;
    compensation_status = [];
    error = none;
    created_at = now;
  };
  state = succeeded;
  attempt = pos 1;
  lease_owner = [];
  lease_expires_at = none;
  started_at = some now;
  finished_at = some now;
}

-- A round gives its result, its error and the requests that it made, in order.
pub record Outcome (W : Type 0) : Type 0 where
  pub result : ExportReconcileResult
  pub error : Option ReconcileError
  pub requests : List TerminalRequest
  pub world : W

abbrev pub no_result : ExportReconcileResult
no_result = record {
  recovered_runtime_requests = 0;
  recovered_runtime_writes = 0;
  scanned = 0;
  terminalized = 0;
  reused_count = 0;
  skipped = 0;
  race_lost = 0;
  failed_count = 0;
}

abbrev pub count_race_lost : ExportReconcileResult → ExportReconcileResult
count_race_lost r = record r { race_lost = r.race_lost + 1 }

abbrev pub count_reused : ExportReconcileResult → ExportReconcileResult
count_reused r = record r { reused_count = r.reused_count + 1 }

abbrev pub count_terminalized : ExportReconcileResult → ExportReconcileResult
count_terminalized r = record r { terminalized = r.terminalized + 1 }

abbrev pub count_skipped : ExportReconcileResult → ExportReconcileResult
count_skipped r = record r { skipped = r.skipped + 1 }

-- The result before the loop.
abbrev pub started : ℕ → ℕ → ℕ → ℕ → ExportReconcileResult
started limit requests writes listed = record no_result {
  recovered_runtime_requests = requests;
  recovered_runtime_writes = writes;
  scanned = if ltb limit listed then limit else listed;
}

abbrev pub stop : {W : Type 0} → ExportReconcileResult → Option ReconcileError → W → Outcome W
stop r e w = record { result = r; error = e; requests = []; world = w }

abbrev pub fail : {W : Type 0} → ExportReconcileResult → ReconcileError → W → Outcome W
fail r e w = stop (record r { failed_count = r.failed_count + 1 }) (some e) w

abbrev pub asked : {W : Type 0} → TerminalRequest → Outcome W → Outcome W
asked q o = record o { requests = q ∷ o.requests }

module _ {W : Type 0} (stable_id : Text → Text → Text) (hash_request : Members → Result Text Text)
    (store : Store W) (owner : Text) (limit : ℕ) (now : Time) where
  abbrev pub after_reconcile :
      (ExportReconcileResult → W → Outcome W)
      → ExportReconcileResult
      → TerminalRequest
      → Result StoreError Bool × W
      → Outcome W
  after_reconcile rest r q (err no_rows, w) = rest (count_race_lost r) w
  after_reconcile rest r q (err (other_error e), w) = fail r (reconcile_failed q.export_id e) w
  after_reconcile rest r q (ok true, w) = rest (count_reused r) w
  after_reconcile rest r q (ok false, w) = rest (count_terminalized r) w

  abbrev pub submit :
      (ExportReconcileResult → W → Outcome W)
      → ExportReconcileResult
      → StoredSession
      → TerminalRequest
      → Result Text Text
      → W
      → Outcome W
  submit rest r s q (err e) w = fail r (hash_failed e) w
  submit rest r s q (ok hash) w =
      let name = stable_id (bytes "op_exportreconcile_") (reconcile_key s q.target_status) in
      asked q (
        after_reconcile rest r q
          (store.reconcile q (operation_record name hash owner s q.target_status now) w))

  abbrev pub visit :
      (ExportReconcileResult → W → Outcome W)
      → ExportReconcileResult
      → StoredSession
      → Option (ExportStatus × Text)
      → W
      → Outcome W
  visit rest r s none w = rest (count_skipped r) w
  visit rest r s (some (target, reason)) w =
      submit rest r s (terminal_request s target reason now)
        (hash_request (hashed_members s target)) w

  unfoldable pub scan_sessions : List StoredSession → ℕ → ExportReconcileResult → W → Outcome W
  scan_sessions [] idx r w = stop r none w
  scan_sessions (s ∷ ss) idx r w =
      let rest = scan_sessions ss (idx + 1) in
      if leb limit idx then stop r none w else visit rest r s (target_status s now) w

  abbrev pub after_list : ℕ × ℕ → Result StoreError (List StoredSession) × W → Outcome W
  after_list counts (err e, w) = stop no_result (some (list_failed e)) w
  after_list (requests, writes) (ok ss, w) =
      scan_sessions ss 0 (started limit requests writes (length ss)) w

  abbrev pub after_recovery : Result StoreError (ℕ × ℕ) × W → Outcome W
  after_recovery (err e, w) = fail no_result (recovery_failed e) w
  after_recovery (ok counts, w) = after_list counts (store.list_sessions now limit w)

-- `RunOnce`, with the checks of `validatedConfig` in front.
unfoldable pub reconcile_exports :
    {W : Type 0} → (Text → Text → Text) → (Members → Result Text Text) → Config W → W → Outcome W
reconcile_exports stable_id hash_request c w = elim c.store [
  | none ↦ stop no_result (some store_required) w
  | some store ↦
      if is_blank c.owner
      then stop no_result (some owner_required) w
      else after_recovery stable_id hash_request store (trim_space c.owner) (limit_of c.limit)
          (decision_time c) (store.recover_requests (decision_time c) (limit_of c.limit) w)
]
