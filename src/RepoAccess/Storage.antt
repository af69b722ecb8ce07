-- ===== src/RepoAccess/Storage.antt =====
-- What an admitted request may touch (internal/repoaccess/repoaccess.go over
-- internal/resources/resources.go and internal/pathresolver/pathresolver.go).
use mathlib.Core.List.{Memᴰ}
use agentsmith_fs_control_pl.PathResolver.Id.{IdError}
use agentsmith_fs_control_pl.PathResolver.Repo.{RepoPaths, resolve_repo_paths}
use agentsmith_fs_control_pl.PathResolver.Repo.Laws.{
  Root, Within, control, payload, resolve_repo_paths-disjoint, root_of,
}
use agentsmith_fs_control_pl.Prelude.{
  Option, Result, arith, err, false, none, ok, refl, subst, true, ◌≡◌, All-at, All-map, Bool-cases,
  inl, inr,
}
use agentsmith_fs_control_pl.RepoAccess.{
  Intent, Request, read_only, read_write, Fence, is_held, is_lifecycle, admit, export_create,
  storage_session, workload_mount,
}
use agentsmith_fs_control_pl.RepoAccess.Admission.{admit-allowed_iff}
use agentsmith_fs_control_pl.RepoAccess.FenceLaws.{IsUnfenced, IsUnfenced-IsPassing, Writes}
use agentsmith_fs_control_pl.Resources.{
  repo, Repo, canonical, validate_canonical_path_identity, validate_repo,
}
use agentsmith_fs_control_pl.Resources.Policy.{Float}
use agentsmith_fs_control_pl.Text.{Text, text_eq_iff}

canonical-paths :
    (r : Repo) (p : Result IdError RepoPaths)
    → canonical r p ≡ none
    → (x : RepoPaths) × (p ≡ ok x)
      × (r.control_volume_subdir ≡ x.control_volume_subdir)
      × (r.payload_volume_subdir ≡ x.payload_volume_subdir)
canonical-paths r (err e) h = cc
canonical-paths r (ok x) h = (
  x,
  refl,
  (text_eq_iff r.control_volume_subdir x.control_volume_subdir).0 (ground arith),
  (text_eq_iff r.payload_volume_subdir x.payload_volume_subdir).0 (ground arith),
)

repo-canonical :
    (r : Repo)
    → r.kind ≡ repo
    → validate_repo r ≡ none
    → canonical r (resolve_repo_paths r.namespace_id r.id) ≡ none
unfolding validate_repo validate_canonical_path_identity
repo-canonical r k h = ground arith

-- The roots that a repository record names.
abbrev pub stored_root : Repo → Root → Text
stored_root r control = r.control_volume_subdir
stored_root r payload = r.payload_volume_subdir

root-cases :
    (r : Repo) (x : RepoPaths)
    → r.control_volume_subdir ≡ x.control_volume_subdir
    → r.payload_volume_subdir ≡ x.payload_volume_subdir
    → (k : Root) → stored_root r k ≡ root_of k x
root-cases r x c p control = c
root-cases r x c p payload = p

admitted-root :
    (parse : Text → Option Float) (q : Request)
    → (admit parse q).allowed ≡ true
    → (x : RepoPaths) × (resolve_repo_paths q.repo.namespace_id q.repo.id ≡ ok x)
      × ((k : Root) → stored_root q.repo k ≡ root_of k x)
admitted-root parse q h =
    let a = (admit-allowed_iff parse q).0 h in
    let (x, e, c, p) =
      canonical-paths q.repo (resolve_repo_paths q.repo.namespace_id q.repo.id)
        (repo-canonical q.repo a.kind a.stored.repo) in
    (x, e, root-cases q.repo x c p)

-- Two admitted requests touch storage apart: where a control or payload root that one repository
-- record names is or lies within one that the other names, it is the same root of the same
-- repository of the same namespace.
pub admit-disjoint :
    (parse : Text → Option Float) (q s : Request) (x y : Root)
    → (admit parse q).allowed ≡ true
    → (admit parse s).allowed ≡ true
    → Within (stored_root q.repo x) (stored_root s.repo y)
    → (q.repo.namespace_id ≡ s.repo.namespace_id) × (q.repo.id ≡ s.repo.id) × (x ≡ y)
admit-disjoint parse q s x y hq hs w =
    let (p, e, f) = admitted-root parse q hq in
    let (r, g, k) = admitted-root parse s hs in
    resolve_repo_paths-disjoint q.repo.namespace_id s.repo.namespace_id q.repo.id s.repo.id p r x y
      e g
      (subst (λ t. Within t (root_of y r)) (f x)
        (subst (λ t. Within (stored_root q.repo x) t) (k y) w))

-- A held lifecycle fence on the repository shuts out every request, whatever its intent and mode.
pub admit-fenced :
    (parse : Text → Option Float) (q : Request) (f : Fence)
    → Memᴰ f q.held_repo_fences
    → is_held f ≡ true
    → is_lifecycle f.kind ≡ true
    → (admit parse q).allowed ≡ false
admit-fenced parse q f m h l = elim (Bool-cases (admit parse q).allowed) [
  | inl y ↦
      let u : IsUnfenced q f =
        All-at (IsUnfenced q) f q.held_repo_fences m ((admit-allowed_iff parse q).0 y).unfenced in
      absurd (cc (l, (IsUnfenced-IsPassing q f u h).0))
  | inr n ↦ n
]

reading-Writes_less : (i : Intent) → Writes i read_only → Writes i read_write
reading-Writes_less storage_session w = refl
reading-Writes_less export_create w = refl
reading-Writes_less workload_mount w = refl
reading-Writes_less i w = w

-- What may be used for writing may be used for reading: a request that is admitted read-write is
-- admitted read-only.
pub admit-read_only :
    (parse : Text → Option Float) (q : Request)
    → q.mode ≡ read_write
    → (admit parse q).allowed ≡ true
    → (admit parse (record q { mode = read_only })).allowed ≡ true
admit-read_only parse q m h =
    let a = (admit-allowed_iff parse q).0 h in
    (admit-allowed_iff parse (record q { mode = read_only })).1 (record {
      mode = inl refl;
      stored = record {
        repo = a.stored.repo;
        namespace = a.stored.namespace;
        binding = a.stored.binding;
        fences = a.stored.fences;
      };
      of_namespace = a.of_namespace;
      of_binding = a.of_binding;
      kind = a.kind;
      bound = a.bound;
      enabled = a.enabled;
      unfenced =
          All-map (λ f u p r. ((u p r).0, λ w. (u p r).1 (rw m (reading-Writes_less q.intent w))))
            q.held_repo_fences a.unfenced;
      status = a.status;
    })
