-- ===== src/PathResolver/Path/Segments.antt =====
-- What `ResolveCallerPath` accepts (internal/pathresolver/pathresolver.go).
use agentsmith_fs_control_pl.PathResolver.Path.{
  check_segment, check_segments, equal_fold_jvs, has_slash_like_or_control, is_slash_like_rune,
  CallerPath, contains_encoded_path_meta, is_absolute_like, path_unescape, resolve_caller_path,
  resolve_decoded, resolve_unescaped,
}
use agentsmith_fs_control_pl.Prelude.{
  All, Bool, List, [], ap, arith, false, none, not, refl, subst, true, ℕ, ◌++◌, ◌==◌, ◌||◌, ◌∷◌,
  ◌≡◌, ◌≢◌, Option-cases, inl, inr, ok, some, sym, ◌∙◌,
}
use agentsmith_fs_control_pl.Text.{Text, bytes, every, is_empty, text_eq_iff}
use agentsmith_fs_control_pl.Text.Runes.{any, is_control, runes, valid_string}
use agentsmith_fs_control_pl.Text.Runes.Laws.{any-append, every-runes, is_ascii_of, runes-append}
use agentsmith_fs_control_pl.Text.Split.{
  join, NoSlash, join-split, split, split-NoSlash, split_shape,
}

-- A segment of a path that is safe below any directory: it names an entry of the directory other
-- than `.jvs` in any case, and holds no separator, look-alike of one, or control character.
pub record IsSafe (s : Text) : Type 0 where
  pub nonempty : s ≢ []
  pub other_than_dot : s ≢ bytes "."
  pub other_than_parent : s ≢ bytes ".."
  pub other_than_jvs : equal_fold_jvs s ≡ false
  pub no_slash : every (λ b. not (b == b'/')) s ≡ true
  pub no_backslash : every (λ b. not (b == 0x5c)) s ≡ true
  pub no_look_alike : any is_slash_like_rune (runes s) ≡ false
  pub no_control : any is_control (runes s) ≡ false

any_or :
    (p q : ℕ → Bool) (rs : List ℕ)
    → any (λ r. p r || q r) rs ≡ false
    → (any p rs ≡ false) × (any q rs ≡ false)
unfolding any
any_or p q [] h = (refl, refl)
any_or p q (r ∷ rs) h = let rest = any_or p q rs in ground arith

every_imp :
    (p q : ℕ → Bool) (s : Text)
    → ((b : ℕ) → p b ≡ true → q b ≡ true)
    → every p s ≡ true
    → every q s ≡ true
unfolding every
every_imp p q [] f h = refl
every_imp p q (b ∷ s) f h = ground (arith, every_imp p q s f, f b)

no_backslash_of :
    (s : Text) → any is_slash_like_rune (runes s) ≡ false → every (λ b. not (b == 0x5c)) s ≡ true
unfolding is_slash_like_rune
no_backslash_of s h =
    every_imp (λ b. not (is_ascii_of is_slash_like_rune b)) (λ b. not (b == 0x5c)) s
      (λ b k. ground arith) (every-runes is_slash_like_rune s h)

-- The test of `hasSlashLikeOrControl` on a rune.
abbrev unsafe : ℕ → Bool
unsafe r = is_control r || is_slash_like_rune r

any_append_false :
    (p : ℕ → Bool) (r s : List ℕ) → any p (r ++ s) ≡ false → (any p r ≡ false) × (any p s ≡ false)
any_append_false p r s h = let e = any-append p r s in ground arith

-- The runes of a text that joins parts are those of each part, so what none of them is, none of
-- the parts' is.
has_slash_like_or_control-join :
    (p : Text) (ps : List Text)
    → has_slash_like_or_control (join (p ∷ ps)) ≡ false
    → All (λ q. has_slash_like_or_control q ≡ false) (p ∷ ps)
unfolding has_slash_like_or_control join any is_control is_slash_like_rune
has_slash_like_or_control-join p [] h = (h, tt)
has_slash_like_or_control-join p (q ∷ ps) h =
    let cut = subst (λ rs. any unsafe rs ≡ false) (runes-append p (join (q ∷ ps))) h in
    let (first, rest) = any_append_false unsafe (runes p) (b'/' ∷ runes (join (q ∷ ps))) cut in
    (first, has_slash_like_or_control-join q ps rest)

check_segment-IsSafe :
    (p : Text) → check_segment p ≡ none → has_slash_like_or_control p ≡ false → NoSlash p → IsSafe p
unfolding check_segment has_slash_like_or_control
check_segment-IsSafe p h c n =
    let (control, like) = any_or is_control is_slash_like_rune (runes p) c in
    record {
      nonempty = λ e. ground (arith, ap is_empty e);
      other_than_dot = λ e. ground (arith, text_eq_iff p (bytes "."));
      other_than_parent = λ e. ground (arith, text_eq_iff p (bytes ".."));
      other_than_jvs = ground arith;
      no_slash = n;
      no_backslash = no_backslash_of p like;
      no_look_alike = like;
      no_control = control;
    }

check_segments-inv :
    (p : Text) (ps : List Text)
    → check_segments (p ∷ ps) ≡ none
    → (check_segment p ≡ none) × (check_segments ps ≡ none)
unfolding check_segments
check_segments-inv p ps h = ground arith

check_segments-IsSafe :
    (ps : List Text)
    → check_segments ps ≡ none
    → All (λ q. has_slash_like_or_control q ≡ false) ps
    → All NoSlash ps
    → All IsSafe ps
check_segments-IsSafe [] h c n = tt
check_segments-IsSafe (p ∷ ps) h (c, cs) (n, ns) =
    let (one, rest) = check_segments-inv p ps h in
    (check_segment-IsSafe p one c n, check_segments-IsSafe ps rest cs ns)

-- An accepted text is the decoded one, which passed each test.
pub record IsResolved (decoded : Text) (p : CallerPath) : Type 0 where
  pub clean_eq : p.clean ≡ join (split decoded)
  pub segments_eq : p.segments ≡ split decoded
  pub utf8 : valid_string decoded ≡ true
  pub single_encoded : contains_encoded_path_meta decoded ≡ false
  pub relative : is_absolute_like decoded ≡ false
  pub plain : has_slash_like_or_control decoded ≡ false
  pub checked : check_segments (split decoded) ≡ none

pub resolve_decoded-IsResolved :
    (decoded : Text) (p : CallerPath) → resolve_decoded decoded ≡ ok p → IsResolved decoded p
unfolding resolve_decoded
resolve_decoded-IsResolved decoded p h = ground arith

pub resolve_caller_path-inv :
    (raw : Text) (p : CallerPath)
    → resolve_caller_path raw ≡ ok p
    → (decoded : Text) × (path_unescape raw ≡ some decoded) × IsResolved decoded p
unfolding resolve_caller_path resolve_unescaped
resolve_caller_path-inv raw p h = elim (Option-cases (path_unescape raw)) [
  | inl e ↦ absurd (ground arith)
  | inr (d, e) ↦ (d, e, resolve_decoded-IsResolved d p (ground arith))
]

-- The segments of a resolved path: there is one, and each passed the tests.
pub IsResolved-segments :
    (decoded : Text) (p : CallerPath)
    → IsResolved decoded p
    → (part : Text) × (parts : List Text) × (p.segments ≡ part ∷ parts)
      × (check_segments (part ∷ parts) ≡ none)
      × All (λ q. has_slash_like_or_control q ≡ false) (part ∷ parts)
      × All NoSlash (part ∷ parts)
IsResolved-segments decoded p r =
    let (part, parts, e) = split_shape decoded in
    let whole = ap has_slash_like_or_control (ap join (sym e) ∙ join-split decoded) ∙ r.plain in
    (
      part,
      parts,
      r.segments_eq ∙ e,
      ap check_segments (sym e) ∙ r.checked,
      has_slash_like_or_control-join part parts whole,
      subst (All NoSlash) e (split-NoSlash decoded),
    )

-- Whatever a caller sends, every segment of an accepted path is safe, and the segments joined by
-- slashes are the clean path.
pub resolve_caller_path-IsSafe :
    (raw : Text) (p : CallerPath)
    → resolve_caller_path raw ≡ ok p
    → All IsSafe p.segments × (p.segments ≢ []) × (p.clean ≡ join p.segments)
resolve_caller_path-IsSafe raw p h =
    let (d, _, r) = resolve_caller_path-inv raw p h in
    let (part, parts, e, checked, plain, apart) = IsResolved-segments d p r in
    (
      subst (All IsSafe) (sym e) (check_segments-IsSafe (part ∷ parts) checked plain apart),
      λ n. cc,
      r.clean_eq ∙ ap join (sym r.segments_eq),
    )
