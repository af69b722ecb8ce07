-- ===== src/WorkloadMount/Labels.antt =====
-- The labels of secret references that internal/workloadmount/workloadmount.go accepts.
use agentsmith_fs_control_pl.Prelude.{
  Bool, List, [], ap, arith, false, leb, length, ltb, not, refl, subst, true, ℕ, ◌&&◌, ◌+◌, ◌-◌,
  ◌<◌, ◌==◌, ◌||◌, ◌↔◌, ◌∙◌, ◌∷◌, ◌≡◌, ◌≤◌,
}
use agentsmith_fs_control_pl.Text.{Text, every}
use agentsmith_fs_control_pl.Text.Runes.{runes}
use agentsmith_fs_control_pl.Text.Runes.Laws.{ascii_of_runes, runes_of_ascii}
use agentsmith_fs_control_pl.WorkloadMount.{label_from, valid_dns_label}

-- `a` to `z`, `0` to `9` and `-`
abbrev pub is_label_byte : ℕ → Bool
is_label_byte b = leb b'a' b && leb b b'z' || leb b'0' b && leb b b'9' || b == b'-'

abbrev pub starts_with_dash : Text → Bool
starts_with_dash [] = false
starts_with_dash (b ∷ s) = b == b'-'

abbrev pub ends_with_dash : Text → Bool
ends_with_dash [] = false
ends_with_dash (b ∷ []) = b == b'-'
ends_with_dash (b ∷ c ∷ s) = ends_with_dash (c ∷ s)

-- A DNS label of at most so many bytes.
pub record IsLabel (v : Text) (most : ℕ) : Type 0 where
  pub at_least : 1 ≤ length v
  pub at_most : length v ≤ most
  pub safe : every is_label_byte v ≡ true
  pub no_dash_first : starts_with_dash v ≡ false
  pub no_dash_last : ends_with_dash v ≡ false

label_from-ascii :
    (i last : ℕ) (rs : List ℕ)
    → label_from i last rs ≡ true
    → every (λ r. not (leb 0x80 r)) rs ≡ true
unfolding label_from every
label_from-ascii i last [] h = refl
label_from-ascii i last (r ∷ rs) h = ground (arith, label_from-ascii (i + 1) last rs)

-- The loop behind the first rune.
label_from-after :
    (i last : ℕ) (rs : Text)
    → 0 < i
    → i + length rs ≡ last + 1
    → (label_from i last rs ≡ true)
      ↔ ((every is_label_byte rs ≡ true) × (ends_with_dash rs ≡ false))
unfolding label_from every
label_from-after i last [] p e = ((λ h. (refl, refl)), λ h. refl)
label_from-after i last (r ∷ []) p e =
    let same : i ≡ last = omega arith in
    ((λ h. (ground arith, ground arith)), λ (a, b). ground arith)
label_from-after i last (r ∷ c ∷ s) p e =
    let rest = label_from-after (i + 1) last (c ∷ s) (omega arith) (omega arith) in
    let inside : i < last = omega arith in
    ((λ h. (ground (arith, rest.0), ground (arith, rest.0))), λ (a, b). ground (arith, rest.1))

first_byte :
    (b : ℕ) (v : Text) (most : ℕ)
    → label_from 0 (length (b ∷ v) - 1) (b ∷ v) ≡ true
    → length (b ∷ v) ≤ most
    → IsLabel (b ∷ v) most
unfolding label_from every
first_byte b [] most h le = record {
  at_least = omega arith;
  at_most = le;
  safe = ground arith;
  no_dash_first = ground arith;
  no_dash_last = ground arith;
}
first_byte b (c ∷ v) most h le =
    let rest = label_from-after 1 (length (b ∷ c ∷ v) - 1) (c ∷ v) (omega arith) (omega arith) in
    record {
      at_least = omega arith;
      at_most = le;
      safe = ground (arith, rest.0);
      no_dash_first = ground arith;
      no_dash_last = ground (arith, rest.0);
    }

last_byte :
    (b : ℕ) (v : Text)
    → every is_label_byte (b ∷ v) ≡ true
    → starts_with_dash (b ∷ v) ≡ false
    → ends_with_dash (b ∷ v) ≡ false
    → label_from 0 (length (b ∷ v) - 1) (b ∷ v) ≡ true
unfolding label_from every
last_byte b [] s f l = ground arith
last_byte b (c ∷ v) s f l =
    let rest = label_from-after 1 (length (b ∷ c ∷ v) - 1) (c ∷ v) (omega arith) (omega arith) in
    ground (arith, rest.1)

label_byte-ascii :
    (v : Text) → every is_label_byte v ≡ true → every (λ b. not (leb 0x80 b)) v ≡ true
unfolding every
label_byte-ascii [] h = refl
label_byte-ascii (b ∷ v) h = ground (arith, label_byte-ascii v)

valid_dns_label-IsLabel : (v : Text) (most : ℕ) → valid_dns_label v most ≡ true → IsLabel v most
unfolding valid_dns_label
valid_dns_label-IsLabel [] most h = cc
valid_dns_label-IsLabel (b ∷ v) most h =
    let looped : label_from 0 (length (b ∷ v) - 1) (runes (b ∷ v)) ≡ true = ground arith in
    let plain = runes_of_ascii (b ∷ v) (ascii_of_runes (b ∷ v) (label_from-ascii _ _ _ looped)) in
    let on_bytes = subst (λ rs. label_from 0 (length (b ∷ v) - 1) rs ≡ true) plain looped in
    first_byte b v most on_bytes (ground arith)

IsLabel-valid_dns_label : (v : Text) (most : ℕ) → IsLabel v most → valid_dns_label v most ≡ true
unfolding valid_dns_label
IsLabel-valid_dns_label [] most m = absurd (omega (arith, m.at_least))
IsLabel-valid_dns_label (b ∷ v) most m =
    let plain = runes_of_ascii (b ∷ v) (label_byte-ascii (b ∷ v) m.safe) in
    let on_bytes = last_byte b v m.safe m.no_dash_first m.no_dash_last in
    let looped : label_from 0 (length (b ∷ v) - 1) (runes (b ∷ v)) ≡ true =
      ap (label_from 0 (length (b ∷ v) - 1)) plain ∙ on_bytes in
    let short : ltb most (length (b ∷ v)) ≡ false = ground (arith, m.at_most) in rw short looped

-- The loop over the runes of a text accepts exactly the labels: 1 to `most` bytes, each a lower-case
-- letter, a digit or a dash, of which neither the first nor the last is a dash.
pub valid_dns_label_iff : (v : Text) (most : ℕ) → (valid_dns_label v most ≡ true) ↔ IsLabel v most
valid_dns_label_iff v most = (valid_dns_label-IsLabel v most, IsLabel-valid_dns_label v most)
