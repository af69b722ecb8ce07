-- ===== src/ExportAccess/Validity.antt =====
-- Valid requests and sessions (internal/exportaccess/exportaccess.go and
-- internal/sessionstate/sessionstate.go).
use agentsmith_fs_control_pl.ExportAccess.{
  Session, validate_session, request_suffix, validate_request_id,
}
use agentsmith_fs_control_pl.PathResolver.Id.Laws.{IsSuffix}
use agentsmith_fs_control_pl.Prelude.{
  arith, false, none, ◌≡◌, Option-cases, [], ap, inl, inr, refl, some, sym, ◌++◌, ◌↔◌, ◌∙◌, ◌∷◌,
}
use agentsmith_fs_control_pl.SessionState.Sessions.{ExportSession, export_terminal, validate_export}
use agentsmith_fs_control_pl.Text.{
  trim_space, Text, append_of_cut_prefix, bytes, cut_prefix, cut_prefix-append,
}

-- The identifiers have no white space at their ends.
abbrev pub HasTrimmedIds : Session → Type 0
HasTrimmedIds s =
    (trim_space s.id ≡ s.id)
    × (trim_space s.namespace_id ≡ s.namespace_id)
    × (trim_space s.repo_id ≡ s.repo_id)

-- What the gates read of a stored session, whose identifiers are stored as they are.
abbrev pub IsViewOf : Session → ExportSession → Type 0
IsViewOf s v =
    (v.id ≡ s.id)
    × (v.namespace_id ≡ s.namespace_id)
    × (v.repo_id ≡ s.repo_id)
    × (v.mode ≡ s.mode)
    × (v.status ≡ s.status)
    × (v.expires_at ≡ s.expires_at)
    × (v.active_request_count ≡ s.active_request_count)
    × (v.active_write_count ≡ s.active_write_count)

-- A valid session that is not terminal, and whose identifiers have no white space at their ends, is
-- one that the session gates read as valid, once it is stored.
pub validate_session-validate_export :
    (s : Session) (v : ExportSession)
    → validate_session s ≡ none
    → HasTrimmedIds s
    → IsViewOf s v
    → export_terminal s.status ≡ false
    → validate_export v ≡ none
unfolding validate_session validate_export
validate_session-validate_export s v h (x, y, z) (a, b, c, d, e, f, g, k) t =
    rw (a, b, c, d, e, f, g, k, t) (ground (arith, x, y, z))

request_suffix_iff : (s : Text) → (request_suffix (some s) ≡ none) ↔ IsSuffix s
request_suffix_iff [] = ((λ h. cc), λ i. absurd (omega (arith, i.at_least)))
request_suffix_iff (b ∷ s) = (
  (λ h. record {
    at_least = ground arith;
    at_most = ground arith;
    start = (b, s, refl, ground arith, ground arith);
  }),
  λ i. let (c, t, e, first, rest) = i.start in ground (arith, i.at_least, i.at_most),
)

-- A runtime request is named exactly by `errq_` and a suffix as the identifiers of the resolver have
-- it.
pub validate_request_id_iff :
    (name : Text)
    → (validate_request_id name ≡ none) ↔ ((s : Text) × (name ≡ bytes "errq_" ++ s) × IsSuffix s)
unfolding validate_request_id
validate_request_id_iff name = (
  (λ h. elim (Option-cases (cut_prefix (bytes "errq_") name)) [
    | inl n ↦ absurd (ground arith)
    | inr (s, e) ↦ (
      s,
      append_of_cut_prefix (bytes "errq_") name s e,
      (request_suffix_iff s).0 (ap request_suffix (sym e) ∙ h),
    )
  ]),
  λ (s, e, i).
      ap request_suffix (ap (cut_prefix (bytes "errq_")) e ∙ cut_prefix-append (bytes "errq_") s)
      ∙ (request_suffix_iff s).1 i,
)
