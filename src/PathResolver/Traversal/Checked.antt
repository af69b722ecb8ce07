-- ===== src/PathResolver/Traversal/Checked.antt =====
-- What `ValidateTraversalPlan` checks of the plans of `ResolvePayloadTraversal`
-- (internal/pathresolver/pathresolver.go).
use mathlib.Core.List.{append_assoc}
use agentsmith_fs_control_pl.PathResolver.Path.{
  CallerPath, check_segments, has_slash_like_or_control, resolve_caller_path,
}
use agentsmith_fs_control_pl.PathResolver.Path.Segments.{
  IsResolved-segments, resolve_caller_path-inv,
}
use agentsmith_fs_control_pl.PathResolver.Traversal.{
  Inspector, TraversalEntry, TraversalPlan, check_entry, inspect_from, is_file,
  resolve_payload_traversal, validate_caller_segment, validate_each, validate_managed_subdir,
  validate_caller_segments, validate_traversal_plan,
}
use agentsmith_fs_control_pl.Prelude.{
  All, List, Result, [], arith, err, false, map, none, ok, refl, true, ◌++◌, ◌↔◌, ◌∷◌, ◌≡◌, ◌≤◌,
  ◌⊎◌, Option, inl, inr, some, subst, sym, ◌then_check◌, Result-cases, ap, ◌∙◌,
}
use agentsmith_fs_control_pl.Text.{Text}

-- The nonempty prefixes of a list.
abbrev pub prefixes {ℓ} : {A : Type ℓ} → List A → List (List A)
prefixes [] = []
prefixes (x ∷ xs) = (x ∷ []) ∷ map (λ p. x ∷ p) (prefixes xs)

-- A file system shows this at a prefix: nothing, or what is neither a symbolic link nor a file with
-- a second name.
abbrev pub IsPlain : Result Text TraversalEntry → Type 0
IsPlain (err e) = ⊥
IsPlain (ok entry) =
    (entry.exists ≡ false)
    ⊎ ((entry.symlink ≡ false) × ((is_file entry.type ≡ false) ⊎ (entry.link_count ≤ 1)))

check_entry_iff :
    (plan : TraversalPlan) (prefix : List Text) (answer : Result Text TraversalEntry)
    → plan.no_follow ≡ true
    → plan.reject_hardlinks ≡ true
    → (check_entry plan prefix answer ≡ none) ↔ IsPlain answer
unfolding check_entry
check_entry_iff plan prefix (err e) f h = ground arith
check_entry_iff plan prefix (ok entry) f h = ground arith

-- What holds at each extended prefix holds at the prefix of the longer list.
extend-All :
    (P : List Text → Type 0) (done : List Text) (s : Text) (ps : List (List Text))
    → All (λ p. P ((done ++ s ∷ []) ++ p)) ps ↔ All (λ p. P (done ++ p)) (map (λ p. s ∷ p) ps)
extend-All P done s [] = ((λ h. h), λ h. h)
extend-All P done s (p ∷ ps) =
    let rest = extend-All P done s ps in
    let same = append_assoc done (s ∷ []) p in
    ((λ (h, hs). (subst P same h, rest.0 hs)), λ (h, hs). (subst P (sym same) h, rest.1 hs))

none_then_check :
    {E : Type 0} (a b : Option E) → ((a then_check b) ≡ none) ↔ ((a ≡ none) × (b ≡ none))
none_then_check none b = ground arith
none_then_check (some e) b = ground arith

inspect_from_iff :
    (plan : TraversalPlan) (inspect : Inspector) (done segments : List Text)
    → plan.no_follow ≡ true
    → plan.reject_hardlinks ≡ true
    → (inspect_from plan inspect done segments ≡ none)
      ↔ All (λ p. IsPlain (inspect (done ++ p))) (prefixes segments)
unfolding inspect_from
inspect_from_iff plan inspect done [] f h = ((λ _. tt), λ _. refl)
inspect_from_iff plan inspect done (s ∷ segments) f h =
    let at = done ++ s ∷ [] in
    let first = check_entry_iff plan at (inspect at) f h in
    let rest = inspect_from_iff plan inspect at segments f h in
    let both =
      none_then_check (check_entry plan at (inspect at)) (inspect_from plan inspect at segments) in
    let extend = extend-All (λ p. IsPlain (inspect p)) done s (prefixes segments) in
    (
      (λ e. (first.0 (both.0 e).0, extend.0 (rest.0 (both.0 e).1))),
      λ (a, b). both.1 (first.1 a, rest.1 (extend.1 b)),
    )

-- A plan is made only for a managed root and an accepted path, and asks for both checks.
resolve_payload_traversal-inv :
    (root raw : Text) (plan : TraversalPlan)
    → resolve_payload_traversal root raw ≡ ok plan
    → (path : CallerPath) × (resolve_caller_path raw ≡ ok path)
      × (validate_managed_subdir root ≡ none)
      × (plan ≡ record {
        root_subdir = root;
        segments = path.segments;
        no_follow = true;
        reject_hardlinks = true;
      })
unfolding resolve_payload_traversal
resolve_payload_traversal-inv root raw plan h = elim (Result-cases (resolve_caller_path raw)) [
  | inl (e, bad) ↦ absurd (ground arith)
  | inr (path, resolved) ↦ (path, resolved, ground arith, ground arith)
]

validate_each_accepts :
    (ps : List Text)
    → check_segments ps ≡ none
    → All (λ q. has_slash_like_or_control q ≡ false) ps
    → validate_each ps ≡ none
unfolding validate_each validate_caller_segment check_segments
validate_each_accepts [] h c = refl
validate_each_accepts (p ∷ ps) h (c, cs) = ground (arith, validate_each_accepts ps)

resolved-validate_caller_segments :
    (raw : Text) (path : CallerPath)
    → resolve_caller_path raw ≡ ok path
    → validate_caller_segments path.segments ≡ none
unfolding validate_caller_segments
resolved-validate_caller_segments raw path h =
    let (d, _, r) = resolve_caller_path-inv raw path h in
    let (part, parts, e, checked, plain, _) = IsResolved-segments d path r in
    ap validate_caller_segments e ∙ validate_each_accepts (part ∷ parts) checked plain

-- The plan that is made for a managed root and a caller's path passes the check exactly if the file
-- system shows, at every nonempty prefix of the path, nothing, or an entry that is no symbolic link
-- and no file with more than one link; an error of the inspector fails it.
pub validate_traversal_plan_iff :
    (root raw : Text) (plan : TraversalPlan) (inspect : Inspector)
    → resolve_payload_traversal root raw ≡ ok plan
    → (validate_traversal_plan plan (some inspect) ≡ none)
      ↔ All (λ p. IsPlain (inspect p)) (prefixes plan.segments)
unfolding validate_traversal_plan
validate_traversal_plan_iff root raw plan inspect h =
    let (path, resolved, managed, made) = resolve_payload_traversal-inv root raw plan h in
    let segments : validate_caller_segments plan.segments ≡ none =
      ap (λ q. validate_caller_segments q.segments) made
      ∙ resolved-validate_caller_segments raw path resolved in
    let root_valid : validate_managed_subdir plan.root_subdir ≡ none =
      ap (λ q. validate_managed_subdir q.root_subdir) made ∙ managed in
    let f : plan.no_follow ≡ true = ap (λ q. q.no_follow) made in
    let r : plan.reject_hardlinks ≡ true = ap (λ q. q.reject_hardlinks) made in
    let loop = inspect_from_iff plan inspect [] plan.segments f r in
    ((λ e. loop.0 (ground arith)), λ a. let l = loop.1 a in ground arith)
