-- ===== src/Operations/Idempotency/Queued.antt =====
-- A queued operation is found again by its scope, and a worker can take it up
-- (internal/operations/idempotency.go and internal/operations/lease.go).
use agentsmith_fs_control_pl.Operations.Idempotency.{
  IdempotencyScope, QueuedOperationSpec, compare_idempotency, conflict, new_queued_operation_record,
  queued_record, reused, scope_string, unseen, validate_spec,
}
use agentsmith_fs_control_pl.Operations.Lease.{
  LeaseRequest, acquire_lease, LeaseDecision, acquire_in, apply_lease,
}
use agentsmith_fs_control_pl.Operations.Lease.Grant.{
  RequestIsValid, acquire_lease-allowed_iff, acquire_lease-inv,
}
use agentsmith_fs_control_pl.Operations.Record.{OperationRecord}
use agentsmith_fs_control_pl.Operations.State.{running, allowed_next, validate_transition}
use agentsmith_fs_control_pl.Prelude.{
  Bool-cases, List, [], ap, arith, false, if◌then◌else◌, inl, inr, none, ok, pos, sym, true, ◌++◌,
  ◌↔◌, ◌∙◌, ◌∷◌, ◌≡◌, ◌≢◌, ◌⊎◌, refl, subst,
}
use agentsmith_fs_control_pl.Text.{Text, text_eq, text_eq_iff}

new_queued_operation_record-inv :
    (s : QueuedOperationSpec) (r : OperationRecord)
    → new_queued_operation_record s ≡ ok r
    → (validate_spec s ≡ none) × (r ≡ queued_record s)
unfolding new_queued_operation_record
new_queued_operation_record-inv s r h = ground arith

compare-append_same :
    (rs : List OperationRecord) (r : OperationRecord) (scope : IdempotencyScope) (hash old : Text)
    → r.idempotency_scope ≡ scope_string scope
    → compare_idempotency rs scope old ≡ unseen
    → compare_idempotency (rs ++ r ∷ []) scope hash
      ≡ (if text_eq r.request_hash hash then reused r else conflict)
unfolding compare_idempotency
compare-append_same [] r scope hash old e h =
    let same = (text_eq_iff r.idempotency_scope (scope_string scope)).1 e in ground arith
compare-append_same (q ∷ rs) r scope hash old e h =
    ground (arith, compare-append_same rs r scope hash old e)

compare-append_other :
    (rs : List OperationRecord) (r : OperationRecord) (scope : IdempotencyScope) (hash : Text)
    → r.idempotency_scope ≢ scope_string scope
    → compare_idempotency (rs ++ r ∷ []) scope hash ≡ compare_idempotency rs scope hash
unfolding compare_idempotency
compare-append_other [] r scope hash n =
    let same = text_eq_iff r.idempotency_scope (scope_string scope) in ground arith
compare-append_other (q ∷ rs) r scope hash n =
    ground (arith, compare-append_other rs r scope hash n)

differ : {a b : Text} → (text_eq a b ≡ true) ↔ (a ≡ b) → text_eq a b ≡ false → a ≢ b
differ e n h = ground (arith, e.1 h)

-- Once the operation of a request with a new scope is stored behind the others, a repeated request
-- gets that operation, and one with the same scope and another request hash a conflict; requests
-- with another scope string are answered as before.
pub compare_idempotency-queued :
    (rs : List OperationRecord) (s : QueuedOperationSpec) (r : OperationRecord)
    (other : IdempotencyScope) (hash : Text)
    → new_queued_operation_record s ≡ ok r
    → compare_idempotency rs s.scope s.request_hash ≡ unseen
    → (compare_idempotency (rs ++ r ∷ []) s.scope s.request_hash ≡ reused r)
      × ((hash ≡ s.request_hash) ⊎ (compare_idempotency (rs ++ r ∷ []) s.scope hash ≡ conflict))
      × ((scope_string other ≡ scope_string s.scope)
          ⊎ (compare_idempotency (rs ++ r ∷ []) other hash ≡ compare_idempotency rs other hash))
compare_idempotency-queued rs s r other hash h unseen_before =
    let (_, made) = new_queued_operation_record-inv s r h in
    let scoped : r.idempotency_scope ≡ scope_string s.scope = ap (λ x. x.idempotency_scope) made in
    let hashed : r.request_hash ≡ s.request_hash = ap (λ x. x.request_hash) made in
    let again =
      compare-append_same rs r s.scope s.request_hash s.request_hash scoped unseen_before in
    let changed = compare-append_same rs r s.scope hash s.request_hash scoped unseen_before in
    (
      ground (arith, text_eq_iff r.request_hash s.request_hash),
      elim (Bool-cases (text_eq r.request_hash hash)) [
        | inl e ↦ inl (sym ((text_eq_iff r.request_hash hash).0 e) ∙ hashed)
        | inr n ↦ inr (ground arith)
      ],
      elim (Bool-cases (text_eq (scope_string other) (scope_string s.scope))) [
        | inl e ↦ inl ((text_eq_iff (scope_string other) (scope_string s.scope)).0 e)
        | inr n ↦ inr (
            compare-append_other rs r other hash (λ e.
              differ (text_eq_iff (scope_string other) (scope_string s.scope)) n (sym e ∙ scoped)))
      ],
    )

-- A worker takes an operation up and runs it for the first time.
abbrev pub IsTaken : LeaseDecision → Type 0
IsTaken d = (d.allowed ≡ true) × (d.operation.state ≡ running) × (d.operation.attempt ≡ pos 1)

queued_record-IsTaken :
    (s : QueuedOperationSpec) (q : LeaseRequest)
    → RequestIsValid q
    → IsTaken (acquire_lease (queued_record s) q)
unfolding acquire_in apply_lease validate_transition allowed_next
queued_record-IsTaken s q valid =
    let allowed =
      (acquire_lease-allowed_iff (queued_record s) q).1
        (record { request = valid; attempt = refl; paired = inl (refl, refl); state = refl }) in
    let (_, _, _, run) = acquire_lease-inv (queued_record s) q allowed in
    (allowed, ap (λ d. d.operation.state) run, ap (λ d. d.operation.attempt) run)

-- Every operation that a request is queued as is taken up by the first worker that asks for its
-- lease with a valid request.
pub new_queued_operation_record-IsTaken :
    (s : QueuedOperationSpec) (r : OperationRecord) (q : LeaseRequest)
    → new_queued_operation_record s ≡ ok r
    → RequestIsValid q
    → IsTaken (acquire_lease r q)
new_queued_operation_record-IsTaken s r q h valid =
    subst (λ x. IsTaken (acquire_lease x q)) (sym (new_queued_operation_record-inv s r h).1)
      (queued_record-IsTaken s q valid)
