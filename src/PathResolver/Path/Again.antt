-- ===== src/PathResolver/Path/Again.antt =====
-- A resolved path is resolved to itself (internal/pathresolver/pathresolver.go).
use agentsmith_fs_control_pl.PathResolver.Path.{
  CallerPath, check_segment, check_segments, contains_encoded, contains_encoded_separator,
  is_separator, path_unescape, resolve_caller_path, resolve_decoded, resolve_unescaped,
}
use agentsmith_fs_control_pl.PathResolver.Path.Segments.{IsResolved, resolve_caller_path-inv}
use agentsmith_fs_control_pl.Prelude.{
  Bool, [], arith, false, none, not, ok, refl, some, subst, true, ℕ, ◌==◌, ◌∙◌, ◌∷◌, ◌≡◌, ap,
}
use agentsmith_fs_control_pl.Text.{Text, every, is_empty}
use agentsmith_fs_control_pl.Text.Split.{join-split, split}

-- No escape begins in the text.
abbrev pub NoPercent : Text → Type 0
NoPercent s = every (λ b. not (b == b'%')) s ≡ true

path_unescape_plain : (s : Text) → NoPercent s → path_unescape s ≡ some s
unfolding path_unescape every
path_unescape_plain [] h = refl
path_unescape_plain (b ∷ []) h = ground arith
path_unescape_plain (b ∷ c ∷ []) h = ground (arith, path_unescape_plain (c ∷ []))
path_unescape_plain (b ∷ c ∷ d ∷ s) h = ground (arith, path_unescape_plain (c ∷ d ∷ s))

contains_encoded_plain :
    (meta : ℕ → Bool) (s : Text) → NoPercent s → contains_encoded meta s ≡ false
unfolding contains_encoded every
contains_encoded_plain meta [] h = refl
contains_encoded_plain meta (b ∷ []) h = refl
contains_encoded_plain meta (b ∷ c ∷ []) h = refl
contains_encoded_plain meta (b ∷ c ∷ d ∷ s) h =
    ground (arith, contains_encoded_plain meta (c ∷ d ∷ s))

resolve_decoded_complete : (d : Text) (p : CallerPath) → IsResolved d p → resolve_decoded d ≡ ok p
unfolding resolve_decoded
resolve_decoded_complete d p r =
    rw (r.utf8, r.single_encoded, r.relative, r.plain, r.checked)
      (ground (arith, r.clean_eq, r.segments_eq))

is_empty-false : (d : Text) → check_segments (split d) ≡ none → is_empty d ≡ false
unfolding split check_segments check_segment
is_empty-false [] h = cc
is_empty-false (b ∷ d) h = refl

resolve_plain :
    (d : Text) (p : CallerPath) → IsResolved d p → NoPercent d → resolve_caller_path d ≡ ok p
unfolding resolve_caller_path contains_encoded_separator resolve_unescaped
resolve_plain d p r n =
    let unescaped = path_unescape_plain d n in
    let separators = contains_encoded_plain is_separator d n in
    rw (is_empty-false d r.checked, r.utf8, r.relative, r.plain, separators, unescaped)
      (resolve_decoded_complete d p r)

-- An accepted path whose clean form has no `%` is accepted again and gives the same path.
pub resolve_caller_path_again :
    (raw : Text) (p : CallerPath)
    → resolve_caller_path raw ≡ ok p
    → NoPercent p.clean
    → resolve_caller_path p.clean ≡ ok p
resolve_caller_path_again raw p h n =
    let (d, _, r) = resolve_caller_path-inv raw p h in
    let same : p.clean ≡ d = r.clean_eq ∙ join-split d in
    ap resolve_caller_path same ∙ resolve_plain d p r (subst NoPercent same n)
