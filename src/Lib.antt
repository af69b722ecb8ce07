-- ===== src/Lib.antt =====
-- Verification of the core of the AgentSmith file-system control plane: the decisions that keep
-- two workers, two operations or two tenants from the same storage. The program accepts durable
-- operations over HTTP, workers lease them one at a time and run them against repositories on
-- shared volumes, exports and workload mounts give sessions access to those repositories, and
-- every change leaves an audit record in an outbox. The packages modelled here are the pure ones
-- that all of this is decided by. A function of the source is one function of the model, or a few
-- where a loop or a switch of it has a name of its own; the guards stand in the same order, and a
-- changed record is returned.
--
-- The files and the code they are about, by paths from the root of the repository:
--
-- Prelude, Text and Clock hold what the parts share: error results in the order of the checks,
-- lists, 64-bit integers, texts as lists of bytes, TrimSpace, times.
--
-- PathResolver models internal/pathresolver/pathresolver.go: identifiers (`ValidateID`) in
-- PathResolver/Id, the storage roots of repositories and templates in PathResolver/Repo, the
-- paths that callers send (`ResolveCallerPath`) in PathResolver/Path, and the plans by which a
-- path is walked below a payload root in PathResolver/Traversal. Text/Runes reads UTF-8 and
-- Text/Split splits at slashes.
--
-- Operations models internal/operations: the states and transitions of state.go in
-- Operations/State, the record of types.go in Operations/Record and Operations/Value, the leases
-- of lease.go in Operations/Lease, and the scopes and queued records of idempotency.go in
-- Operations/Idempotency. Exclusion under the leases runs them on a shared clock with any number
-- of workers.
--
-- Fences models internal/fences/fences.go, the fences between operations on a repository.
--
-- Resources models internal/resources/resources.go: namespaces, repositories and their
-- lifecycles, with callers in Resources/Caller, policies in Resources/Policy and bindings in
-- Resources/Binding.
--
-- RepoAccess models internal/repoaccess/repoaccess.go, which admits an operation to a repository
-- by the records of Resources, the paths of PathResolver and the held fences.
--
-- Auth models internal/auth/policy.go and internal/namespaceauth/mapping.go: who may act in which
-- role, for the callers that Resources lets a namespace store.
--
-- SessionState models internal/sessionstate/sessionstate.go, the gates that look at exports and
-- mounts before a restore or a lifecycle operation.
--
-- WorkloadMount models internal/workloadmount: the bindings of workload mounts, which paths and
-- secret references they may name, when a plan for one is fresh, and the scan of stale leases in
-- WorkloadMount/StaleLease. Freshness reads stored bindings the way
-- internal/store/postgres/session_state.go does and relates them to the gates of SessionState.
--
-- ExportAccess models internal/exportaccess/exportaccess.go, the sessions of exports, the
-- requests that a gateway makes through them, and their lifetimes.
--
-- ExportRuntime models the statements of internal/store/postgres/export_sessions.go that count
-- requests. A ledger holds the rows of sessions, by identifier, and of requests; a statement is
-- one function on it, since it runs in one transaction, and its common table expressions have
-- functions of their own. The disabling of a namespace by
-- internal/store/postgres/namespace_operations.go is a step on its exports too. Steps puts the
-- statements together with any order and any arguments. GateView reads the rows for the gates of
-- SessionState, and ExportAccess puts the validation of the methods before the statements.
--
-- ExportReconcile models internal/exportreconcile/reconcile.go, a round that ends the sessions of
-- exports which are drained, and relates its requests to the statement of ExportRuntime that they
-- reach.
--
-- RestoreReconcile models internal/restorereconcile/reconcile.go: what is decided on an
-- observation, the redaction of evidence in RestoreReconcile/Redaction, and the run in
-- RestoreReconcile/Loop, where the store is a machine with a state of any type that can answer
-- anything. A property of a run follows the state of the store from call to call.
--
-- Recovery models internal/recovery/operation.go, a round that takes up left-over operations by
-- the plans of Inspection: its data in Recovery, its steps in Recovery/Steps, where an execution
-- answers together with the renewals of the lease that run beside it, and the time between
-- renewals in Recovery/Interval.
--
-- Worker models internal/worker/run_once.go, a round of the worker: the runners it calls are
-- functions on a world of any type, with the results of ExportReconcile, RestoreReconcile,
-- WorkloadMount/StaleLease and AuditDelivery.
--
-- Outbox models internal/audit/outbox.go, the delivery of audit records, and in Outbox/Stale the
-- recovery of stale records by internal/store/postgres/audit_outbox.go, which sends a record once
-- more whatever its attempts.
--
-- AuditDelivery models internal/auditdelivery: delivery.go, a round that delivers the audit
-- records that are due, where what the store and the deliverer answer is given with each record
-- and the calls that mark records are written down in order; and in AuditDelivery/Stale the
-- recovery of records in stale.go.
--
-- Inspection models internal/inspection/recovery_planner.go, which plans for operators over the
-- records of Operations, Fences and Outbox.
--
-- How Go is read. A string is the list of its bytes. A string type with constants is a data type
-- with a constructor for each of them and one for any other string. A time is the number of
-- nanoseconds since Go's zero time, so that a time before that is left out; a duration is a
-- signed number, and adding one does not overflow, which the years that a clock shows stay far
-- from. An `int` is a signed number that wraps at 64 bits where it is counted up; the counts of a
-- list are natural numbers. A nil pointer is `none`. Of an error the code, the field or the kind
-- is kept, the sentence for people is not. A loop is a recursion on its list, so no fuel is
-- needed and every function ends.
--
-- Parameters. How encoding/json reads and writes the payload of an audit record, how
-- `json.Number.Float64` reads a number of a policy, and the rewriting of secrets by
-- internal/observability/redaction.go are arguments of the functions that use them, without
-- hypotheses. So are the file system of a traversal, the stores and the executor of the
-- reconciliations and of the recovery, the hashes of SHA-256, and the runners of the worker.
--
-- Not modelled. HTTP, WebDAV, the external jvs program, configuration and the process wiring are
-- input and output around these decisions; the goroutine that renews leases is seen by its answer
-- only. Of the database only the statements on export sessions and the stale recovery of audit
-- records are modelled, with what they do to other tables left out; the other statements, that
-- claim leases, hold fences and deliver audit records, are left for later, and so are the
-- executors. Whether the operation of a terminal reconciliation was stored before is an argument
-- of the statement. So are volumes and their capabilities in resources.go, the redaction of
-- operation records, and the audit events of the reconciliations. Text is compared without regard
-- to case only where the code looks for `.jvs` and for sensitive words.
pub mod Prelude
pub mod Text
pub mod Clock
pub mod PathResolver
pub mod Fences
pub mod SessionState
pub mod Operations
pub mod Outbox
pub mod Inspection
pub mod Resources
pub mod Auth
pub mod RepoAccess
pub mod AuditDelivery
pub mod WorkloadMount
pub mod RestoreReconcile
pub mod ExportRuntime
pub mod ExportReconcile
pub mod ExportAccess
pub mod Recovery
pub mod Worker
