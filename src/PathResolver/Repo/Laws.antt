-- ===== src/PathResolver/Repo/Laws.antt =====
-- Storage roots of different repositories do not meet (internal/pathresolver/pathresolver.go).
use mathlib.Core.List.{append-nil, append_assoc}
use agentsmith_fs_control_pl.PathResolver.Id.{
  namespace_id, repo_id, template_id, validate_id, is_id_char,
}
use agentsmith_fs_control_pl.PathResolver.Id.Laws.{validate_id-safe}
use agentsmith_fs_control_pl.PathResolver.Repo.{
  RepoPaths, paths_under, repo_container, resolve_repo_paths, resolve_template_paths,
  template_container,
}
use agentsmith_fs_control_pl.Prelude.{
  [], arith, inl, inr, none, ok, refl, sym, ◌++◌, ◌∙◌, ◌∷◌, ◌≡◌, ◌⊎◌, ap, true,
}
use agentsmith_fs_control_pl.Text.{
  Text, bytes, append-left_cancel, cut_at_separator, every, head_eq,
}

-- A resolved pair of identifiers: both are valid, and the paths are those of the container.
pub resolve_repo_paths-inv :
    (n r : Text) (p : RepoPaths)
    → resolve_repo_paths n r ≡ ok p
    → (validate_id namespace_id n ≡ none)
      × (validate_id repo_id r ≡ none)
      × (p ≡ paths_under (repo_container n r))
unfolding resolve_repo_paths
resolve_repo_paths-inv n r p h = ground arith

pub resolve_template_paths-inv :
    (n r : Text) (p : RepoPaths)
    → resolve_template_paths n r ≡ ok p
    → (validate_id namespace_id n ≡ none)
      × (validate_id template_id r ≡ none)
      × (p ≡ paths_under (template_container n r))
unfolding resolve_template_paths
resolve_template_paths-inv n r p h = ground arith

-- `q` is the directory `p` or lies under it.
abbrev pub Within : Text → Text → Type 0
Within p q = (q ≡ p) ⊎ ((rest : Text) × (q ≡ p ++ (b'/' ∷ rest)))

-- What follows a directory in a path within it: nothing, or a slash and more.
tail_of_Within :
    (p q : Text)
    → Within p q
    → (t : Text) × (q ≡ p ++ t) × ((t ≡ []) ⊎ ((r : Text) × (t ≡ b'/' ∷ r)))
tail_of_Within p q (inl e) = ([], e ∙ sym (append-nil p), inl refl)
tail_of_Within p q (inr (r, e)) = (b'/' ∷ r, e, inr (r, refl))

pub data Root : Type 0 where
  control payload : Root

-- The last part of a storage root.
root_name : Root → Text
root_name control = bytes "control"
root_name payload = bytes "payload"

abbrev pub root_of : Root → RepoPaths → Text
root_of control p = p.control_volume_subdir
root_of payload p = p.payload_volume_subdir

same_root : (x y : Root) (t : Text) → root_name y ≡ root_name x ++ t → x ≡ y
unfolding root_name
same_root control control t e = refl
same_root payload payload t e = refl
same_root control payload t e = absurd (omega (arith, head_eq e))
same_root payload control t e = absurd (omega (arith, head_eq e))

regroup :
    (a n b r c t : Text) → (a ++ (n ++ (b ++ r)) ++ c) ++ t ≡ a ++ (n ++ (b ++ (r ++ (c ++ t))))
regroup a n b r c t = simp append_assoc

-- The paths of a storage root, whatever the directory in the middle.
abbrev long_path : Text → Text → Text → Root → Text → Text
long_path n middle r x t =
    bytes "afscp/namespaces/" ++ (n ++ (b'/' ∷ (middle ++ (r ++ (b'/' ∷ (root_name x ++ t))))))

long_path-injective :
    (middle n m r s t : Text) (x y : Root)
    → every is_id_char n ≡ true
    → every is_id_char m ≡ true
    → every is_id_char r ≡ true
    → every is_id_char s ≡ true
    → long_path m middle s y [] ≡ long_path n middle r x t
    → (n ≡ m) × (r ≡ s) × (x ≡ y)
long_path-injective middle n m r s t x y hn hm hr hs e =
    let (same_n, rest) =
      cut_at_separator is_id_char b'/' m n _ _ refl hm hn
        (append-left_cancel (bytes "afscp/namespaces/") _ _ e) in
    let (same_r, names) =
      cut_at_separator is_id_char b'/' s r _ _ refl hs hr (append-left_cancel middle _ _ rest) in
    (sym same_n, sym same_r, same_root x y t (sym (append-nil (root_name y)) ∙ names))

long_path-repo :
    (n r t : Text) (x : Root)
    → root_of x (paths_under (repo_container n r)) ++ t ≡ long_path n (bytes "repos/") r x t
unfolding root_name
long_path-repo n r t control =
    regroup (bytes "afscp/namespaces/") n (bytes "/repos/") r (bytes "/control") t
long_path-repo n r t payload =
    regroup (bytes "afscp/namespaces/") n (bytes "/repos/") r (bytes "/payload") t

-- The control and payload roots of resolved repositories are apart: where one is or lies within
-- another, it is the same root of the same repository of the same namespace.
pub resolve_repo_paths-disjoint :
    (n m r s : Text) (p q : RepoPaths) (x y : Root)
    → resolve_repo_paths n r ≡ ok p
    → resolve_repo_paths m s ≡ ok q
    → Within (root_of x p) (root_of y q)
    → (n ≡ m) × (r ≡ s) × (x ≡ y)
resolve_repo_paths-disjoint n m r s p q x y hp hq w =
    let (vn, vr, ep) = resolve_repo_paths-inv n r p hp in
    let (vm, vs, eq) = resolve_repo_paths-inv m s q hq in
    let (t, e, _) = tail_of_Within (root_of x p) (root_of y q) w in
    long_path-injective (bytes "repos/") n m r s t x y (validate_id-safe namespace_id n vn)
      (validate_id-safe namespace_id m vm) (validate_id-safe repo_id r vr)
      (validate_id-safe repo_id s vs)
      (sym (long_path-repo m s [] y)
        ∙ append-nil _
        ∙ ap (root_of y) (sym eq)
        ∙ e
        ∙ ap (λ z. root_of x z ++ t) ep
        ∙ long_path-repo n r t x)
