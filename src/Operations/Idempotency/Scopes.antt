-- ===== src/Operations/Idempotency/Scopes.antt =====
-- Scopes as strings (internal/operations/idempotency.go).
use agentsmith_fs_control_pl.Operations.Idempotency.{
  IdempotencyScope, scope_equal, scope_string, type_text,
}
use agentsmith_fs_control_pl.Prelude.{ℕ, Bool, arith, not, refl, true, ◌==◌, ◌↔◌, ◌≡◌}
use agentsmith_fs_control_pl.Text.{Text, cut_at_separator, every, text_eq_iff}

-- A text without the separator of the parts of a scope.
abbrev pub NoColon : Text → Type 0
NoColon s = every (λ b. not (b == b':')) s ≡ true

-- The parts before the idempotency key hold no colon.
pub record IsPlainScope (s : IdempotencyScope) : Type 0 where
  pub caller : NoColon s.caller_service
  pub namespace : NoColon s.namespace_id
  pub type : NoColon (type_text s.operation_type)

scope_equal_iff :
    (a b : IdempotencyScope)
    → (scope_equal a b ≡ true) ↔ (
        (a.caller_service ≡ b.caller_service)
        × (a.namespace_id ≡ b.namespace_id)
        × (type_text a.operation_type ≡ type_text b.operation_type)
        × (a.idempotency_key ≡ b.idempotency_key))
unfolding scope_equal
scope_equal_iff a b =
    let c = text_eq_iff a.caller_service b.caller_service in
    let n = text_eq_iff a.namespace_id b.namespace_id in
    let t = text_eq_iff (type_text a.operation_type) (type_text b.operation_type) in
    let k = text_eq_iff a.idempotency_key b.idempotency_key in
    (
      (λ h. (c.0 (ground arith), n.0 (ground arith), t.0 (ground arith), k.0 (ground arith))),
      λ (p, q, r, s).
          let p' = c.1 p in let q' = n.1 q in let r' = t.1 r in let s' = k.1 s in ground arith,
    )

scope_string-injective :
    (a b : IdempotencyScope)
    → IsPlainScope a
    → IsPlainScope b
    → scope_string a ≡ scope_string b
    → (a.caller_service ≡ b.caller_service)
      × (a.namespace_id ≡ b.namespace_id)
      × (type_text a.operation_type ≡ type_text b.operation_type)
      × (a.idempotency_key ≡ b.idempotency_key)
unfolding scope_string
scope_string-injective a b p q h =
    let test : ℕ → Bool = λ c. not (c == b':') in
    let (caller, rest) =
      cut_at_separator test b':' a.caller_service b.caller_service _ _ refl p.caller q.caller h in
    let (namespace, rest') =
      cut_at_separator test b':' a.namespace_id b.namespace_id _ _ refl p.namespace q.namespace
        rest in
    let (type, key) =
      cut_at_separator test b':' (type_text a.operation_type) (type_text b.operation_type) _ _ refl
        p.type q.type rest' in
    (caller, namespace, type, key)

-- Where no caller, namespace and operation type holds a colon, two scopes have the same string
-- exactly if `Equal` holds between them, whatever the idempotency keys hold.
pub scope_string_iff :
    (a b : IdempotencyScope)
    → IsPlainScope a
    → IsPlainScope b
    → (scope_string a ≡ scope_string b) ↔ (scope_equal a b ≡ true)
unfolding scope_string
scope_string_iff a b p q = (
  (λ h. (scope_equal_iff a b).1 (scope_string-injective a b p q h)),
  λ h. let (c, n, t, k) = (scope_equal_iff a b).0 h in rw (c, n, t, k) refl,
)
