-- ===== src/PathResolver/Traversal/Roots.antt =====
-- The managed subdirectories are the payload roots of repositories and templates
-- (internal/pathresolver/pathresolver.go).
use mathlib.Core.List.{append_assoc}
use agentsmith_fs_control_pl.PathResolver.Id.{
  IdError, namespace_id, repo_id, template_id, validate_id,
}
use agentsmith_fs_control_pl.PathResolver.Repo.{
  RepoPaths, paths_under, repo_container, resolve_repo_paths, resolve_template_paths,
  template_container,
}
use agentsmith_fs_control_pl.PathResolver.Repo.Laws.{
  resolve_repo_paths-inv, resolve_template_paths-inv,
}
use agentsmith_fs_control_pl.PathResolver.Traversal.{
  validate_payload_root, validate_resource, wrap_id, validate_managed_subdir,
}
use agentsmith_fs_control_pl.PathResolver.Traversal.Accepts.{
  accepts_repo_root, accepts_template_root,
}
use agentsmith_fs_control_pl.PathResolver.Traversal.Parts.{root_parts}
use agentsmith_fs_control_pl.Prelude.{
  Bool-cases, List, Option, [], arith, inl, inr, none, ok, refl, some, true, ◌&&◌, ◌∷◌, ◌≡◌, ◌⊎◌,
  ap, sym, ◌↔◌, ◌∙◌,
}
use agentsmith_fs_control_pl.Text.{Text, bytes, text_eq, text_eq_iff}
use agentsmith_fs_control_pl.Text.Split.{join, join-split, split}

-- A payload root of a repository or a template of some namespace.
abbrev pub IsPayloadRoot : Text → Type 0
IsPayloadRoot s =
    ((namespace : Text) × (name : Text) × (paths : RepoPaths) × (resolve_repo_paths namespace name
        ≡ ok paths)
      × (s ≡ paths.payload_volume_subdir))
    ⊎ ((namespace : Text) × (name : Text) × (paths : RepoPaths) × (resolve_template_paths namespace
            name
          ≡ ok paths)
        × (s ≡ paths.payload_volume_subdir))

join-root_parts_repo :
    (namespace name : Text)
    → join (root_parts namespace (bytes "repos") name)
      ≡ (paths_under (repo_container namespace name)).payload_volume_subdir
unfolding join
join-root_parts_repo namespace name = simp append_assoc

join-root_parts_template :
    (namespace name : Text)
    → join (root_parts namespace (bytes "templates") name)
      ≡ (paths_under (template_container namespace name)).payload_volume_subdir
unfolding join
join-root_parts_template namespace name = simp append_assoc

-- A list that `validate_payload_root` accepts is that of the parts of a payload root.
data Accepted (ps : List Text) : Type 0 where
  repo_root :
      (namespace name : Text)
      → ps ≡ root_parts namespace (bytes "repos") name
      → validate_id namespace_id namespace ≡ none
      → validate_id repo_id name ≡ none
      → Accepted ps
  template_root :
      (namespace name : Text)
      → ps ≡ root_parts namespace (bytes "templates") name
      → validate_id namespace_id namespace ≡ none
      → validate_id template_id name ≡ none
      → Accepted ps

wrap_id-none : (o : Option IdError) → wrap_id o ≡ none → o ≡ none
wrap_id-none none h = refl
wrap_id-none (some e) h = cc

-- The conditions that the three texts which a root always has pass.
fixed_parts :
    (a b last : Text)
    → text_eq a (bytes "afscp") && text_eq b (bytes "namespaces") && text_eq last (bytes "payload")
      ≡ true
    → (a ≡ bytes "afscp") × (b ≡ bytes "namespaces") × (last ≡ bytes "payload")
fixed_parts a b last h = (
  (text_eq_iff a (bytes "afscp")).0 (ground arith),
  (text_eq_iff b (bytes "namespaces")).0 (ground arith),
  (text_eq_iff last (bytes "payload")).0 (ground arith),
)

resource_cases :
    (collection name : Text)
    → validate_resource collection name ≡ none
    → ((collection ≡ bytes "repos") × (validate_id repo_id name ≡ none))
      ⊎ ((collection ≡ bytes "templates") × (validate_id template_id name ≡ none))
unfolding validate_resource
resource_cases collection name h = elim (Bool-cases (text_eq collection (bytes "repos"))) [
  | inl e ↦ inl ((text_eq_iff collection (bytes "repos")).0 e, wrap_id-none _ (ground arith))
  | inr n ↦ elim (Bool-cases (text_eq collection (bytes "templates"))) [
    | inl e ↦ inr ((text_eq_iff collection (bytes "templates")).0 e, wrap_id-none _ (ground arith))
    | inr m ↦ absurd (ground arith)
  ]
]

validate_payload_root-Accepted : (ps : List Text) → validate_payload_root ps ≡ none → Accepted ps
unfolding validate_payload_root
validate_payload_root-Accepted [] h = cc
validate_payload_root-Accepted (a ∷ []) h = cc
validate_payload_root-Accepted (a ∷ b ∷ []) h = cc
validate_payload_root-Accepted (a ∷ b ∷ c ∷ []) h = cc
validate_payload_root-Accepted (a ∷ b ∷ c ∷ d ∷ []) h = cc
validate_payload_root-Accepted (a ∷ b ∷ c ∷ d ∷ e ∷ []) h = cc
validate_payload_root-Accepted (a ∷ b ∷ c ∷ d ∷ e ∷ f ∷ g ∷ s) h = cc
validate_payload_root-Accepted (a ∷ b ∷ namespace ∷ collection ∷ name ∷ last ∷ []) h =
    let (ea, eb, el) = fixed_parts a b last (ground arith) in
    let valid : validate_id namespace_id namespace ≡ none = wrap_id-none _ (ground arith) in
    elim (resource_cases collection name (ground arith)) [
      | inl (ec, v) ↦ repo_root namespace name (cc) valid v
      | inr (ec, v) ↦ template_root namespace name (cc) valid v
    ]

validate_managed_subdir-root :
    (s : Text) → validate_managed_subdir s ≡ none → validate_payload_root (split s) ≡ none
unfolding validate_managed_subdir
validate_managed_subdir-root s h = ground arith

-- The storage roots that a traversal may start at are exactly the payload roots which the resolver
-- gives to a repository or a template of some namespace.
pub validate_managed_subdir_iff : (s : Text) → (validate_managed_subdir s ≡ none) ↔ IsPayloadRoot s
unfolding resolve_repo_paths resolve_template_paths
validate_managed_subdir_iff s = (sound, complete)
  where
    from_parts : Accepted (split s) → IsPayloadRoot s
    from_parts (repo_root namespace name e n m) = inl (
      namespace,
      name,
      paths_under (repo_container namespace name),
      rw (n, m) refl,
      sym (join-split s) ∙ ap join e ∙ join-root_parts_repo namespace name,
    )
    from_parts (template_root namespace name e n m) = inr (
      namespace,
      name,
      paths_under (template_container namespace name),
      rw (n, m) refl,
      sym (join-split s) ∙ ap join e ∙ join-root_parts_template namespace name,
    )

    sound : validate_managed_subdir s ≡ none → IsPayloadRoot s
    sound h =
        from_parts (validate_payload_root-Accepted (split s) (validate_managed_subdir-root s h))

    complete : IsPayloadRoot s → validate_managed_subdir s ≡ none
    complete (inl (namespace, name, paths, h, e)) =
        let (n, m, made) = resolve_repo_paths-inv namespace name paths h in
        ap validate_managed_subdir
          (e ∙ ap (λ p. p.payload_volume_subdir) made ∙ sym (join-root_parts_repo namespace name))
        ∙ accepts_repo_root namespace name n m
    complete (inr (namespace, name, paths, h, e)) =
        let (n, m, made) = resolve_template_paths-inv namespace name paths h in
        ap validate_managed_subdir (
          e
          ∙ ap (λ p. p.payload_volume_subdir) made
          ∙ sym (join-root_parts_template namespace name))
        ∙ accepts_template_root namespace name n m
