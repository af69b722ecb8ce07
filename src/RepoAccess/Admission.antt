-- ===== src/RepoAccess/Admission.antt =====
-- When an operation may use a repository (internal/repoaccess/repoaccess.go).
use agentsmith_fs_control_pl.Prelude.{
  All, Option, arith, false, if◌then◌else◌, none, not, refl, true, ◌≡◌, ◌⊎◌, some, Bool, ◌||◌, ◌↔◌,
  ap, inl, inr,
}
use agentsmith_fs_control_pl.RepoAccess.{
  Request, Intent, lifecycle_archive, lifecycle_restore_archived, lifecycle_delete,
  lifecycle_restore_tombstoned, lifecycle_purge, other_intent, intent_valid, mode_valid, Decision,
  admit_lifecycle_intent, allow, deny_for_held_lifecycle_fence, deny_for_repo_status,
  is_lifecycle_intent, stored_state_broken, admit, deny_for_writer_fence, ErrorFamily, deny,
  or_else, Mode, other_mode, read_only, read_write,
}
use agentsmith_fs_control_pl.RepoAccess.FenceLaws.{
  IsUnfenced, lifecycle_fence_denies, NoLifecycle-complete, unfenced-denies_none,
  unfenced-NoLifecycle, IsUnfenced-sound, writer_fence_denies,
}
use agentsmith_fs_control_pl.RepoAccess.StoredState.{IsSoundState, stored_state_broken_iff}
use agentsmith_fs_control_pl.Resources.{
  NamespaceStatus, RepoStatus, repo, archived, tombstoned, repo_status_eq, is_active, is_repo,
  RepoKind,
}
use agentsmith_fs_control_pl.Resources.Policy.{Float}
use agentsmith_fs_control_pl.Text.{Text, text_eq, text_eq_iff}

-- The status of a repository that each intent starts from.
abbrev pub MayUse : Intent → RepoStatus → Type 0
MayUse lifecycle_archive s = s ≡ RepoStatus.active
MayUse lifecycle_restore_archived s = s ≡ archived
MayUse lifecycle_delete s = (s ≡ RepoStatus.active) ⊎ (s ≡ archived)
MayUse lifecycle_restore_tombstoned s = s ≡ tombstoned
MayUse lifecycle_purge s = s ≡ tombstoned
MayUse (other_intent t) s = ⊥
MayUse _ s = s ≡ RepoStatus.active

pub record IsAdmitted (parse : Text → Option Float) (q : Request) : Type 0 where
  pub mode : (q.mode ≡ read_only) ⊎ (q.mode ≡ read_write)
  pub stored : IsSoundState parse q
  pub of_namespace : q.namespace.id ≡ q.repo.namespace_id
  pub of_binding : q.binding.namespace_id ≡ q.repo.namespace_id
  pub kind : q.repo.kind ≡ repo
  pub bound : q.binding.status ≡ NamespaceStatus.active
  pub enabled : q.namespace.status ≡ NamespaceStatus.active
  pub unfenced : All (IsUnfenced q) q.held_repo_fences
  pub status : MayUse q.intent q.repo.status

-- What is left of `Admit` once the fences are out of the way.
abbrev admit_status : Intent → RepoStatus → Decision
admit_status i s =
    if is_lifecycle_intent i
    then admit_lifecycle_intent i s
    else if not (repo_status_eq s RepoStatus.active)
    then deny_for_repo_status s
    else allow

status_sound :
    (i : Intent) (s : RepoStatus)
    → intent_valid i ≡ true
    → (admit_status i s).allowed ≡ true
    → MayUse i s
unfolding admit_lifecycle_intent
status_sound (other_intent t) s v h = cc
status_sound _ s v h = ground arith

status_complete :
    (i : Intent) (s : RepoStatus)
    → MayUse i s
    → (intent_valid i ≡ true) × (admit_status i s ≡ allow)
unfolding admit_lifecycle_intent
status_complete (other_intent t) s h = absurd h
status_complete _ s h = (refl, ground arith)

-- One guard of `Admit`, passed.
passed :
    (b : Bool) (e : ErrorFamily) (d : Decision)
    → (if b then deny e none else d).allowed ≡ true
    → (b ≡ false) × (d.allowed ≡ true)
passed b e d h = ground arith

no_fence :
    (o : Option Decision) (d : Decision)
    → ((x : Decision) → o ≡ some x → x.allowed ≡ false)
    → (or_else o d).allowed ≡ true
    → (o ≡ none) × (d.allowed ≡ true)
no_fence none d f h = (refl, h)
no_fence (some x) d f h = absurd (cc (h, f x refl))

-- What `Admit` has seen when it allows a request.
record IsPassed (parse : Text → Option Float) (q : Request) : Type 0 where
  pub known : not (intent_valid q.intent) || not (mode_valid q.mode) ≡ false
  pub stored : stored_state_broken parse q ≡ false
  pub matching :
      not (text_eq q.namespace.id q.repo.namespace_id)
        || not (text_eq q.binding.namespace_id q.repo.namespace_id)
      ≡ false
  pub kind : not (is_repo q.repo.kind) ≡ false
  pub enabled : not (is_active q.binding.status) || not (is_active q.namespace.status) ≡ false
  pub no_lifecycle : deny_for_held_lifecycle_fence q.held_repo_fences ≡ none
  pub no_writers : deny_for_writer_fence q ≡ none
  pub status : (admit_status q.intent q.repo.status).allowed ≡ true

admit-IsPassed :
    (parse : Text → Option Float) (q : Request) → (admit parse q).allowed ≡ true → IsPassed parse q
unfolding admit
admit-IsPassed parse q h =
    let (a, h1) = passed _ _ _ h in
    let (b, h2) = passed _ _ _ h1 in
    let (c, h3) = passed _ _ _ h2 in
    let (d, h4) = passed _ _ _ h3 in
    let (e, h5) = passed _ _ _ h4 in
    let (f, h6) = no_fence _ _ (lifecycle_fence_denies q.held_repo_fences) h5 in
    let (g, h7) = no_fence _ _ (writer_fence_denies q) h6 in
    record {
      known = a;
      stored = b;
      matching = c;
      kind = d;
      enabled = e;
      no_lifecycle = f;
      no_writers = g;
      status = h7;
    }

both : (a b : Bool) → not a || not b ≡ false → (a ≡ true) × (b ≡ true)
both true true h = (refl, refl)
both true false h = cc
both false b h = cc

is_repo_sound : (k : RepoKind) → not (is_repo k) ≡ false → k ≡ repo
is_repo_sound repo h = refl
is_repo_sound _ h = cc

is_active_sound : (s : NamespaceStatus) → is_active s ≡ true → s ≡ NamespaceStatus.active
is_active_sound NamespaceStatus.active h = refl
is_active_sound _ h = cc

mode_sound : (m : Mode) → mode_valid m ≡ true → (m ≡ read_only) ⊎ (m ≡ read_write)
mode_sound read_only h = inl refl
mode_sound read_write h = inr refl
mode_sound (other_mode s) h = cc

mode_complete : (m : Mode) → (m ≡ read_only) ⊎ (m ≡ read_write) → mode_valid m ≡ true
mode_complete m (inl e) = rw e refl
mode_complete m (inr e) = rw e refl

IsAdmitted-IsPassed :
    (parse : Text → Option Float) (q : Request) → IsAdmitted parse q → IsPassed parse q
IsAdmitted-IsPassed parse q a =
    let (v, s) = status_complete q.intent q.repo.status a.status in
    let n = (text_eq_iff q.namespace.id q.repo.namespace_id).1 a.of_namespace in
    let b = (text_eq_iff q.binding.namespace_id q.repo.namespace_id).1 a.of_binding in
    record {
      known = rw (v, mode_complete q.mode a.mode) refl;
      stored = (stored_state_broken_iff parse q).1 a.stored;
      matching = rw (n, b) refl;
      kind = rw a.kind refl;
      enabled = rw (a.bound, a.enabled) refl;
      no_lifecycle =
          NoLifecycle-complete q.held_repo_fences
            (unfenced-NoLifecycle q q.held_repo_fences a.unfenced);
      no_writers = unfenced-denies_none q a.unfenced;
      status = ap (λ d. d.allowed) s;
    }

IsPassed-admit :
    (parse : Text → Option Float) (q : Request) → IsPassed parse q → (admit parse q).allowed ≡ true
unfolding admit
IsPassed-admit parse q p =
    rw (p.known, p.stored, p.matching)
      (rw (p.kind, p.enabled) (rw (p.no_lifecycle, p.no_writers) p.status))

-- `Admit` allows a request exactly when intent and mode are known, the stored records are valid and
-- of one namespace, its fences sound and of the repository, the namespace and its binding are
-- active, no held fence is in the way, and the status of the repository is one that the intent
-- starts from.
pub admit-allowed_iff :
    (parse : Text → Option Float) (q : Request)
    → ((admit parse q).allowed ≡ true) ↔ IsAdmitted parse q
admit-allowed_iff parse q = (sound, complete)
  where
    sound : (admit parse q).allowed ≡ true → IsAdmitted parse q
    sound h =
        let p = admit-IsPassed parse q h in
        let (intent, mode) = both (intent_valid q.intent) (mode_valid q.mode) p.known in
        let (n, b) =
          both (text_eq q.namespace.id q.repo.namespace_id)
            (text_eq q.binding.namespace_id q.repo.namespace_id) p.matching in
        let (bound, enabled) =
          both (is_active q.binding.status) (is_active q.namespace.status) p.enabled in
        record {
          mode = mode_sound q.mode mode;
          stored = (stored_state_broken_iff parse q).0 p.stored;
          of_namespace = (text_eq_iff q.namespace.id q.repo.namespace_id).0 n;
          of_binding = (text_eq_iff q.binding.namespace_id q.repo.namespace_id).0 b;
          kind = is_repo_sound q.repo.kind p.kind;
          bound = is_active_sound q.binding.status bound;
          enabled = is_active_sound q.namespace.status enabled;
          unfenced = IsUnfenced-sound q p.no_lifecycle p.no_writers;
          status = status_sound q.intent q.repo.status intent p.status;
        }

    complete : IsAdmitted parse q → (admit parse q).allowed ≡ true
    complete a = IsPassed-admit parse q (IsAdmitted-IsPassed parse q a)
