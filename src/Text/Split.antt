-- ===== src/Text/Split.antt =====
-- `strings.Split(s, "/")` and `strings.Join(parts, "/")`.
use agentsmith_fs_control_pl.Prelude.{
  not, ℕ, List, [], ◌∷◌, ◌++◌, ◌==◌, if◌then◌else◌, ==_iff, All, Bool-cases, ap, arith, inl, inr,
  refl, sym, true, ◌∙◌, ◌≡◌, false,
}
use agentsmith_fs_control_pl.Text.{every}

-- A byte put before the first part.
abbrev pub before_first : ℕ → List (List ℕ) → List (List ℕ)
before_first b [] = (b ∷ []) ∷ []
before_first b (part ∷ parts) = (b ∷ part) ∷ parts

unfoldable pub split : List ℕ → List (List ℕ)
split [] = [] ∷ []
split (b ∷ s) = let parts = split s in if b == b'/' then [] ∷ parts else before_first b parts

unfoldable pub join : List (List ℕ) → List ℕ
join [] = []
join (part ∷ []) = part
join (part ∷ next ∷ parts) = part ++ (b'/' ∷ join (next ∷ parts))

-- A text without the separator.
abbrev pub NoSlash : List ℕ → Type 0
NoSlash s = every (λ b. not (b == b'/')) s ≡ true

join-before_first : (b : ℕ) (ps : List (List ℕ)) → join (before_first b ps) ≡ b ∷ join ps
unfolding join
join-before_first b [] = refl
join-before_first b (p ∷ []) = refl
join-before_first b (p ∷ q ∷ ps) = refl

pub split_shape : (s : List ℕ) → (p : List ℕ) × (ps : List (List ℕ)) × (split s ≡ p ∷ ps)
unfolding split
split_shape [] = ([], [], refl)
split_shape (b ∷ s) =
    let (p, ps, e) = split_shape s in
    elim (Bool-cases (b == b'/')) [
      | inl slash ↦ ([], split s, rw slash)
      | inr other ↦ (b ∷ p, ps, rw (other, e))
    ]

join-slash :
    (ps : List (List ℕ)) (p : List ℕ) (r : List (List ℕ))
    → ps ≡ p ∷ r
    → join ([] ∷ ps) ≡ b'/' ∷ join ps
unfolding join
join-slash [] p r e = cc
join-slash (q ∷ qs) p r e = refl

-- Joining the parts of a text gives it back.
pub join-split : (s : List ℕ) → join (split s) ≡ s
unfolding split
join-split [] = unfold join in refl
join-split (b ∷ s) =
    let (p, ps, e) = split_shape s in
    elim (Bool-cases (b == b'/')) [
      | inl slash ↦ rw slash (
          join-slash (split s) p ps e
          ∙ ap (λ t. b'/' ∷ t) (join-split s)
          ∙ ap (λ c. c ∷ s) (sym ((==_iff b b'/').0 slash)))
      | inr other ↦ rw other (join-before_first b (split s) ∙ ap (λ t. b ∷ t) (join-split s))
    ]

before_first-NoSlash :
    (b : ℕ) (ps : List (List ℕ))
    → (b == b'/') ≡ false
    → All NoSlash ps
    → All NoSlash (before_first b ps)
unfolding every
before_first-NoSlash b [] other h = (rw other, tt)
before_first-NoSlash b (p ∷ ps) other (h, hs) = (rw other h, hs)

-- No part holds the separator.
pub split-NoSlash : (s : List ℕ) → All NoSlash (split s)
unfolding split every
split-NoSlash [] = (refl, tt)
split-NoSlash (b ∷ s) = elim (Bool-cases (b == b'/')) [
  | inl slash ↦ rw slash (refl, split-NoSlash s)
  | inr other ↦ rw other (before_first-NoSlash b (split s) other (split-NoSlash s))
]

split_one : (p : List ℕ) → NoSlash p → split p ≡ p ∷ []
unfolding split every
split_one [] h = refl
split_one (b ∷ p) h = ground (arith, split_one p)

pub split-append : (p t : List ℕ) → NoSlash p → split (p ++ (b'/' ∷ t)) ≡ p ∷ split t
unfolding split every
split-append [] t h = refl
split-append (b ∷ p) t h = ground (arith, split-append p t)

-- Splitting a joined list of parts gives it back.
pub split-join :
    (p : List ℕ) (ps : List (List ℕ)) → All NoSlash (p ∷ ps) → split (join (p ∷ ps)) ≡ p ∷ ps
unfolding join
split-join p [] (h, tt) = split_one p h
split-join p (q ∷ ps) (h, hs) =
    split-append p (join (q ∷ ps)) h ∙ ap (λ r. p ∷ r) (split-join q ps hs)
