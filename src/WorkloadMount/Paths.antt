-- ===== src/WorkloadMount/Paths.antt =====
-- The mount paths that `ValidateMountPath` of internal/workloadmount/workloadmount.go accepts.
use mathlib.Core.List.{append_assoc}
use agentsmith_fs_control_pl.PathResolver.Repo.Laws.{Within}
use agentsmith_fs_control_pl.Prelude.{
  All, Bool, Bool-cases, List, Option, Option-cases, [], ap, arith, check, false, inl, inr, is_some,
  none, not, refl, some, sym, true, ◌++◌, ◌==◌, ◌then_check◌, ◌||◌, ◌↔◌, ◌∙◌, ◌∷◌, ◌≡◌, ◌≢◌, ==_iff,
  subst, ℕ,
}
use agentsmith_fs_control_pl.Text.{
  Text, append_of_cut_prefix, bytes, cut_prefix, cut_prefix-append, every, is_empty, text_eq,
  text_eq_iff, trim_space,
}
use agentsmith_fs_control_pl.Text.Runes.{any, is_control, runes}
use agentsmith_fs_control_pl.Text.Split.{
  NoSlash, join, join-split, split, split-NoSlash, split-join, split_shape,
}
use agentsmith_fs_control_pl.WorkloadMount.{
  check_parts, check_reserved, path_reserved, path_unclean, reserved_paths, unclean_part,
  after_first, is_absolute, validate_mount_path,
}

-- A part that names an entry of the directory before it.
abbrev pub IsCleanPart : Text → Type 0
IsCleanPart p = (p ≢ []) × (p ≢ bytes ".") × (p ≢ bytes "..")

-- A clean absolute path below the root, without white space round it, backslashes and control
-- characters, and outside the directories that the runtime reserves.
pub record IsMountPath (s : Text) : Type 0 where
  pub form :
      (part : Text) × (parts : List Text) × (s ≡ b'/' ∷ join (part ∷ parts))
      × All IsCleanPart (part ∷ parts)
      × All NoSlash (part ∷ parts)
  pub trimmed : trim_space s ≡ s
  pub no_backslash : every (λ b. not (b == 0x5c)) s ≡ true
  pub no_control : any is_control (runes s) ≡ false
  pub outside : All (λ r. ¬ Within r s) reserved_paths

none_then : {E : Type 0} (a b : Option E) → ((a then_check b) ≡ none) ↔ ((a ≡ none) × (b ≡ none))
none_then none b = ground arith
none_then (some e) b = ground arith

unclean_part_iff : (p : Text) → (unclean_part p ≡ false) ↔ IsCleanPart p
unclean_part_iff p =
    let dot = text_eq_iff p (bytes ".") in
    let parent = text_eq_iff p (bytes "..") in
    (
      (λ h. (
        (λ e. ground (arith, ap is_empty e)),
        (λ e. ground (arith, dot.1 e)),
        λ e. ground (arith, parent.1 e),
      )),
      λ (a, b, c). clean p a b c dot parent,
    )
  where
    clean :
        (p : Text)
        → p ≢ []
        → p ≢ bytes "."
        → p ≢ bytes ".."
        → (text_eq p (bytes ".") ≡ true) ↔ (p ≡ bytes ".")
        → (text_eq p (bytes "..") ≡ true) ↔ (p ≡ bytes "..")
        → unclean_part p ≡ false
    clean [] a b c dot parent = absurd (a refl)
    clean (x ∷ p) a b c dot parent = ground arith

check_parts_iff : (ps : List Text) → (check_parts ps ≡ none) ↔ All IsCleanPart ps
unfolding check_parts
check_parts_iff [] = ((λ h. tt), λ h. refl)
check_parts_iff (p ∷ ps) =
    let first = unclean_part_iff p in
    let rest = check_parts_iff ps in
    let both = none_then (check (unclean_part p) path_unclean) (check_parts ps) in
    (
      (λ h. (first.0 (ground (arith, (both.0 h).0)), rest.0 (both.0 h).1)),
      λ (c, cs). both.1 (ground (arith, first.1 c), rest.1 cs),
    )

prefix_iff :
    (r s : Text) → (text_eq s r || is_some (cut_prefix (r ++ b'/' ∷ []) s) ≡ true) ↔ Within r s
prefix_iff r s =
    let same = text_eq_iff s r in
    (
      (λ h. elim (Bool-cases (text_eq s r)) [
        | inl e ↦ inl (same.0 e)
        | inr n ↦ elim (Option-cases (cut_prefix (r ++ b'/' ∷ []) s)) [
          | inl e ↦ absurd (ground arith)
          | inr (t, e) ↦ inr (t, append_of_cut_prefix _ s t e ∙ append_assoc r (b'/' ∷ []) t)
        ]
      ]),
      λ w. elim w [
        | inl e ↦ rw (same.1 e) refl
        | inr (t, e) ↦
            let cut : cut_prefix (r ++ b'/' ∷ []) s ≡ some t =
              ap (cut_prefix (r ++ b'/' ∷ [])) (e ∙ sym (append_assoc r (b'/' ∷ []) t))
              ∙ cut_prefix-append _ t in
            ground arith
      ],
    )

check_not : (t : Bool) → check t path_reserved ≡ none → t ≢ true
check_not true h e = cc
check_not false h e = cc

check_absent : (t : Bool) → t ≢ true → check t path_reserved ≡ none
check_absent true n = absurd (n refl)
check_absent false n = refl

check_reserved_iff :
    (s : Text) (rs : List Text) → (check_reserved s rs ≡ none) ↔ All (λ r. ¬ Within r s) rs
unfolding check_reserved
check_reserved_iff s [] = ((λ h. tt), λ h. refl)
check_reserved_iff s (r ∷ rs) =
    let first = prefix_iff r s in
    let rest = check_reserved_iff s rs in
    let hit = text_eq s r || is_some (cut_prefix (r ++ b'/' ∷ []) s) in
    let both = none_then (check hit path_reserved) (check_reserved s rs) in
    (
      (λ h. ((λ w. check_not hit (both.0 h).0 (first.1 w)), rest.0 (both.0 h).1)),
      λ (n, ns). both.1 (check_absent hit (λ t. n (first.0 t)), rest.1 ns),
    )

IsCleanPart-head :
    (p : Text) (ps : List Text) → IsCleanPart p → (b : ℕ) × (t : Text) × (join (p ∷ ps) ≡ b ∷ t)
unfolding join
IsCleanPart-head [] ps (n, _, _) = absurd (n refl)
IsCleanPart-head (b ∷ p) [] c = (b, p, refl)
IsCleanPart-head (b ∷ p) (q ∷ ps) c = (b, p ++ (b'/' ∷ join (q ∷ ps)), refl)

split-absolute : (t : Text) → split (b'/' ∷ t) ≡ [] ∷ split t
unfolding split
split-absolute t = refl

validate_absolute-IsMountPath :
    (t : Text) → validate_mount_path (b'/' ∷ t) ≡ none → IsMountPath (b'/' ∷ t)
unfolding validate_mount_path
validate_absolute-IsMountPath t h =
    let (part, parts, e) = split_shape t in
    let checked : check_parts (split t) ≡ none =
      ground (arith, ap after_first (split-absolute t)) in
    record {
      form = (
        part,
        parts,
        ap (λ s. b'/' ∷ s) (sym (join-split t) ∙ ap join e),
        subst (All IsCleanPart) e ((check_parts_iff (split t)).0 checked),
        subst (All NoSlash) e (split-NoSlash t),
      );
      trimmed = (text_eq_iff (trim_space (b'/' ∷ t)) (b'/' ∷ t)).0 (ground arith);
      no_backslash = ground arith;
      no_control = ground arith;
      outside = (check_reserved_iff (b'/' ∷ t) reserved_paths).0 (ground arith);
    }

IsMountPath-validate_mount_path : (s : Text) → IsMountPath s → validate_mount_path s ≡ none
unfolding validate_mount_path
IsMountPath-validate_mount_path s m =
    let (part, parts, e, clean, apart) = m.form in
    let (b, t, head) = IsCleanPart-head part parts clean.0 in
    let parted : after_first (split s) ≡ part ∷ parts =
      ap (λ r. after_first (split r)) e
      ∙ ap after_first (split-absolute (join (part ∷ parts)))
      ∙ split-join part parts apart in
    let trimmed = (text_eq_iff (trim_space s) s).1 m.trimmed in
    let whole = (text_eq_iff (b'/' ∷ join (part ∷ parts)) s).1 (sym e) in
    let reserved = (check_reserved_iff s reserved_paths).1 m.outside in
    let shape : s ≡ b'/' ∷ b ∷ t = e ∙ ap (λ r. b'/' ∷ r) head in
    let some_byte : is_empty s ≡ false = ap is_empty shape in
    let absolute : is_absolute s ≡ true = ap is_absolute shape in
    let below : text_eq s (bytes "/") ≡ false =
      ap (λ r. text_eq r (bytes "/")) shape ∙ (unfold text_eq in refl) in
    rw
      (
        trimmed,
        some_byte,
        absolute,
        below,
        m.no_backslash,
        m.no_control,
        parted,
        (check_parts_iff (part ∷ parts)).1 clean,
        whole,
        reserved,
      )
      refl

relative_rejected : (s : Text) → is_absolute s ≡ false → validate_mount_path s ≢ none
unfolding validate_mount_path
relative_rejected s r h = ground arith

-- `ValidateMountPath` accepts exactly the clean absolute paths below the root that have no white
-- space at their ends, no backslash and no control character, and that lie outside `/proc`, `/sys`,
-- `/dev`, `/run/secrets` and `/var/run/secrets`.
pub validate_mount_path_iff : (s : Text) → (validate_mount_path s ≡ none) ↔ IsMountPath s
validate_mount_path_iff s = (sound s, IsMountPath-validate_mount_path s)
  where
    sound : (s : Text) → validate_mount_path s ≡ none → IsMountPath s
    sound [] h = absurd (relative_rejected [] refl h)
    sound (b ∷ t) h = elim (Bool-cases (b == b'/')) [
      | inl e ↦
          subst (λ c. IsMountPath (c ∷ t)) (sym ((==_iff b b'/').0 e))
            (validate_absolute-IsMountPath t
              (subst (λ c. validate_mount_path (c ∷ t) ≡ none) ((==_iff b b'/').0 e) h))
      | inr n ↦ absurd (relative_rejected (b ∷ t) n h)
    ]
