-- ===== src/RepoAccess/FenceLaws.antt =====
-- Which fences stop a request (internal/repoaccess/repoaccess.go).
use agentsmith_fs_control_pl.Prelude.{
  All, Bool-cases, List, [], arith, false, inl, inr, none, refl, some, true, ◌∷◌, ◌≡◌, All-zip,
  All-map, ◌↔◌, ◌≢◌,
}
use agentsmith_fs_control_pl.RepoAccess.{
  Request, Fence, is_held, is_lifecycle, is_writer_session, Decision, deny_for_held_lifecycle_fence,
  deny_for_writer_fence, deny_for_writer_fences, writer_fence_blocks, FenceKind, Intent, Mode,
  export_create, is_read_write, lifecycle, other_intent, other_kind, other_mode, read_only,
  read_write, save_point_create, storage_session, template_clone_into_repo,
  template_create_from_repo, workload_mount, writer_session,
}

-- The requests that change the repository or let something write to it.
abbrev pub Writes : Intent → Mode → Type 0
Writes storage_session m = m ≡ read_write
Writes export_create m = m ≡ read_write
Writes workload_mount m = m ≡ read_write
Writes save_point_create m = ⊥
Writes template_create_from_repo m = ⊥
Writes template_clone_into_repo m = ⊥
Writes (other_intent s) m = ⊥
Writes _ m = Unit

-- No fence that is neither released nor recovered stands in the way of the request: none is a
-- lifecycle fence, and none is a writer fence where the request writes.
abbrev pub IsUnfenced : Request → Fence → Type 0
IsUnfenced q f =
    f.released_at ≡ none
    → f.recovered_at ≡ none
    → (f.kind ≢ lifecycle) × (Writes q.intent q.mode → f.kind ≢ writer_session)

-- The same by the tests of the program.
abbrev IsPassing : Request → Fence → Type 0
IsPassing q f =
    is_held f ≡ true
    → (is_lifecycle f.kind ≡ false)
      × (writer_fence_blocks q.intent q.mode ≡ true → is_writer_session f.kind ≡ false)

is_read_write_iff : (m : Mode) → (is_read_write m ≡ true) ↔ (m ≡ read_write)
is_read_write_iff read_write = (λ h. refl, λ h. refl)
is_read_write_iff read_only = (λ h. cc, λ h. cc)
is_read_write_iff (other_mode s) = (λ h. cc, λ h. cc)

-- Writer fences stop exactly the requests that write.
writer_fence_blocks_iff : (i : Intent) (m : Mode) → (writer_fence_blocks i m ≡ true) ↔ Writes i m
unfolding writer_fence_blocks
writer_fence_blocks_iff storage_session m = is_read_write_iff m
writer_fence_blocks_iff export_create m = is_read_write_iff m
writer_fence_blocks_iff workload_mount m = is_read_write_iff m
writer_fence_blocks_iff save_point_create m = (λ h. cc, λ b. absurd b)
writer_fence_blocks_iff template_create_from_repo m = (λ h. cc, λ b. absurd b)
writer_fence_blocks_iff template_clone_into_repo m = (λ h. cc, λ b. absurd b)
writer_fence_blocks_iff (other_intent s) m = (λ h. cc, λ b. absurd b)
writer_fence_blocks_iff _ m = (λ h. tt, λ u. refl)

is_lifecycle_iff : (k : FenceKind) → (is_lifecycle k ≡ false) ↔ (k ≢ lifecycle)
is_lifecycle_iff lifecycle = (λ h. cc, λ h. absurd (h refl))
is_lifecycle_iff writer_session = (λ h e. cc, λ h. refl)
is_lifecycle_iff (other_kind s) = (λ h e. cc, λ h. refl)

is_writer_session_iff : (k : FenceKind) → (is_writer_session k ≡ false) ↔ (k ≢ writer_session)
is_writer_session_iff writer_session = (λ h. cc, λ h. absurd (h refl))
is_writer_session_iff lifecycle = (λ h e. cc, λ h. refl)
is_writer_session_iff (other_kind s) = (λ h e. cc, λ h. refl)

IsPassing-IsUnfenced : (q : Request) (f : Fence) → IsPassing q f → IsUnfenced q f
IsPassing-IsUnfenced q f h a_none b_none =
    let (a, b) = h (rw (a_none, b_none) refl) in
    (
      (is_lifecycle_iff f.kind).0 a,
      λ w. (is_writer_session_iff f.kind).0 (b ((writer_fence_blocks_iff q.intent q.mode).1 w)),
    )

pub IsUnfenced-IsPassing : (q : Request) (f : Fence) → IsUnfenced q f → IsPassing q f
IsUnfenced-IsPassing q f h held =
    let (a, b) = h (ground arith) (ground arith) in
    (
      (is_lifecycle_iff f.kind).1 a,
      λ w. (is_writer_session_iff f.kind).1 (b ((writer_fence_blocks_iff q.intent q.mode).0 w)),
    )

-- The fences that the two loops let pass.
abbrev NoLifecycle : Fence → Type 0
NoLifecycle f = is_held f ≡ true → is_lifecycle f.kind ≡ false

abbrev NoWriter : Fence → Type 0
NoWriter f = is_held f ≡ true → is_writer_session f.kind ≡ false

NoLifecycle-sound : (fs : List Fence) → deny_for_held_lifecycle_fence fs ≡ none → All NoLifecycle fs
unfolding deny_for_held_lifecycle_fence
NoLifecycle-sound [] h = tt
NoLifecycle-sound (f ∷ fs) h = ((λ p. ground arith), NoLifecycle-sound fs (ground arith))

pub NoLifecycle-complete :
    (fs : List Fence) → All NoLifecycle fs → deny_for_held_lifecycle_fence fs ≡ none
unfolding deny_for_held_lifecycle_fence
NoLifecycle-complete [] h = refl
NoLifecycle-complete (f ∷ fs) (h, hs) = ground (arith, NoLifecycle-complete fs hs)

NoWriter-sound : (fs : List Fence) → deny_for_writer_fences fs ≡ none → All NoWriter fs
unfolding deny_for_writer_fences
NoWriter-sound [] h = tt
NoWriter-sound (f ∷ fs) h = ((λ p. ground arith), NoWriter-sound fs (ground arith))

NoWriter-complete : (fs : List Fence) → All NoWriter fs → deny_for_writer_fences fs ≡ none
unfolding deny_for_writer_fences
NoWriter-complete [] h = refl
NoWriter-complete (f ∷ fs) (h, hs) = ground (arith, NoWriter-complete fs hs)

-- A decision that a fence makes is a refusal.
pub lifecycle_fence_denies :
    (fs : List Fence) (d : Decision) → deny_for_held_lifecycle_fence fs ≡ some d → d.allowed ≡ false
unfolding deny_for_held_lifecycle_fence
lifecycle_fence_denies [] d h = cc
lifecycle_fence_denies (f ∷ fs) d h = ground (arith, lifecycle_fence_denies fs d)

writer_fences_deny :
    (fs : List Fence) (d : Decision) → deny_for_writer_fences fs ≡ some d → d.allowed ≡ false
unfolding deny_for_writer_fences
writer_fences_deny [] d h = cc
writer_fences_deny (f ∷ fs) d h = ground (arith, writer_fences_deny fs d)

pub writer_fence_denies :
    (q : Request) (d : Decision) → deny_for_writer_fence q ≡ some d → d.allowed ≡ false
unfolding deny_for_writer_fence
writer_fence_denies q d h = ground (arith, writer_fences_deny q.held_repo_fences d)

no_writer :
    (q : Request)
    → deny_for_writer_fence q ≡ none
    → writer_fence_blocks q.intent q.mode ≡ true
    → All NoWriter q.held_repo_fences
unfolding deny_for_writer_fence
no_writer q h b = NoWriter-sound q.held_repo_fences (ground arith)

pub IsUnfenced-sound :
    (q : Request)
    → deny_for_held_lifecycle_fence q.held_repo_fences ≡ none
    → deny_for_writer_fence q ≡ none
    → All (IsUnfenced q) q.held_repo_fences
IsUnfenced-sound q l w =
    let ls = NoLifecycle-sound q.held_repo_fences l in
    All-map (IsPassing-IsUnfenced q) q.held_repo_fences
      (elim (Bool-cases (writer_fence_blocks q.intent q.mode)) [
        | inl y ↦ All-zip (λ f a b p. (a p, λ _. b p)) q.held_repo_fences ls (no_writer q w y)
        | inr n ↦ All-zip (λ f a b p. (a p, λ y. absurd (ground arith))) q.held_repo_fences ls ls
      ])

pub unfenced-NoLifecycle :
    (q : Request) (fs : List Fence) → All (IsUnfenced q) fs → All NoLifecycle fs
unfenced-NoLifecycle q [] u = tt
unfenced-NoLifecycle q (f ∷ fs) (u, us) =
    ((λ p. (IsUnfenced-IsPassing q f u p).0), unfenced-NoLifecycle q fs us)

unfenced-NoWriter :
    (q : Request) (fs : List Fence)
    → writer_fence_blocks q.intent q.mode ≡ true
    → All (IsUnfenced q) fs
    → All NoWriter fs
unfenced-NoWriter q [] b u = tt
unfenced-NoWriter q (f ∷ fs) b (u, us) =
    ((λ p. (IsUnfenced-IsPassing q f u p).1 b), unfenced-NoWriter q fs b us)

pub unfenced-denies_none :
    (q : Request) → All (IsUnfenced q) q.held_repo_fences → deny_for_writer_fence q ≡ none
unfolding deny_for_writer_fence
unfenced-denies_none q u = elim (Bool-cases (writer_fence_blocks q.intent q.mode)) [
  | inl y ↦ rw y (NoWriter-complete q.held_repo_fences (unfenced-NoWriter q q.held_repo_fences y u))
  | inr n ↦ rw n refl
]
