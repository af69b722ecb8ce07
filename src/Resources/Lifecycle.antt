-- ===== src/Resources/Lifecycle.antt =====
-- What a valid lifecycle of a repository is (internal/resources/resources.go).
use agentsmith_fs_control_pl.Clock.{Time}
use agentsmith_fs_control_pl.PathResolver.Id.{operation_id}
use agentsmith_fs_control_pl.Prelude.{Option, arith, is_some, none, refl, some, true, ◌↔◌, ◌≡◌, ◌⊎◌}
use agentsmith_fs_control_pl.Resources.{
  RepoStatus, archiving, archived, restoring_archived, deleting, tombstoned, restoring_tombstoned,
  purging, purged, operator_intervention_required, id_check, RepoLifecycle, validate_lifecycle,
}
use agentsmith_fs_control_pl.Text.{is_empty}

-- The status before the deletion, which a repository keeps from the start of a deletion to its end.
abbrev pub PreDelete : RepoStatus → Option RepoStatus → Type 0
PreDelete RepoStatus.active p = p ≡ none
PreDelete archiving p = p ≡ none
PreDelete archived p = p ≡ none
PreDelete restoring_archived p = p ≡ none
PreDelete operator_intervention_required p =
    (p ≡ none) ⊎ ((p ≡ some RepoStatus.active) ⊎ (p ≡ some archived))
PreDelete (RepoStatus.other_status s) p = ⊥
PreDelete _ p = (p ≡ some RepoStatus.active) ⊎ (p ≡ some archived)

-- How long a repository is retained is set while it is in the trash, and only from then on.
abbrev pub Retention : RepoStatus → Option Time → Type 0
Retention tombstoned e = is_some e ≡ true
Retention restoring_tombstoned e = is_some e ≡ true
Retention purging e = is_some e ≡ true
Retention deleting e = Unit
Retention purged e = Unit
Retention operator_intervention_required e = Unit
Retention _ e = e ≡ none

pub record IsLifecycle (l : RepoLifecycle) : Type 0 where
  pub pre_delete : PreDelete l.status l.pre_delete_status
  pub retention : Retention l.status l.retention_expires_at
  pub operation :
      (is_empty l.last_lifecycle_operation_id ≡ true)
      ⊎ (id_check operation_id l.last_lifecycle_operation_id ≡ none)

lifecycle_sound :
    (s : RepoStatus) (l : RepoLifecycle)
    → l.status ≡ s
    → validate_lifecycle l ≡ none
    → PreDelete s l.pre_delete_status × Retention s l.retention_expires_at
unfolding validate_lifecycle
lifecycle_sound deleting l e h = (ground arith, tt)
lifecycle_sound purged l e h = (ground arith, tt)
lifecycle_sound operator_intervention_required l e h = (ground arith, tt)
lifecycle_sound (RepoStatus.other_status t) l e h = ground arith
lifecycle_sound _ l e h = (ground arith, ground arith)

lifecycle_operation :
    (l : RepoLifecycle)
    → validate_lifecycle l ≡ none
    → (is_empty l.last_lifecycle_operation_id ≡ true)
      ⊎ (id_check operation_id l.last_lifecycle_operation_id ≡ none)
unfolding validate_lifecycle
lifecycle_operation l h = ground arith

lifecycle_complete :
    (s : RepoStatus) (l : RepoLifecycle)
    → l.status ≡ s
    → PreDelete s l.pre_delete_status
    → Retention s l.retention_expires_at
    → (is_empty l.last_lifecycle_operation_id ≡ true)
      ⊎ (id_check operation_id l.last_lifecycle_operation_id ≡ none)
    → validate_lifecycle l ≡ none
unfolding validate_lifecycle
lifecycle_complete (RepoStatus.other_status t) l e p r o = absurd p
lifecycle_complete _ l e p r o = ground arith

-- A lifecycle is valid exactly when its status is known, the status before a deletion is set from
-- the start of the deletion on and is active or archived, the retention is set in the trash and not
-- before, and the last operation is empty or an operation id.
pub validate_lifecycle_iff : (l : RepoLifecycle) → (validate_lifecycle l ≡ none) ↔ IsLifecycle l
validate_lifecycle_iff l = (
  λ h.
      let (p, r) = lifecycle_sound l.status l refl h in
      record { pre_delete = p; retention = r; operation = lifecycle_operation l h },
  λ v. lifecycle_complete l.status l refl v.pre_delete v.retention v.operation,
)
