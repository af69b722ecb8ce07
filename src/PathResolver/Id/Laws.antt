-- ===== src/PathResolver/Id/Laws.antt =====
-- What `ValidateID` accepts (internal/pathresolver/pathresolver.go).
use agentsmith_fs_control_pl.PathResolver.Id.{
  IdKind, export_id, id_prefix, is_ascii_alnum, is_id_char, mount_binding_id, namespace_id,
  operation_id, other_kind, repo_id, template_id, validate_characters, validate_id,
  validate_prefixed, validate_suffix, validate_with, volume_id,
}
use agentsmith_fs_control_pl.Prelude.{
  Option, [], arith, length, none, refl, some, true, ℕ, ◌++◌, ◌↔◌, ◌∷◌, ◌≡◌, ◌≤◌, ap, sym, ◌∙◌,
}
use agentsmith_fs_control_pl.Text.{
  Text, append_of_cut_prefix, cut_prefix, cut_prefix-append, every, every-append,
}

-- The suffix of an identifier: 2 to 63 bytes, a letter or a digit first, then letters, digits,
-- `_` and `-`.
pub record IsSuffix (s : Text) : Type 0 where
  pub at_least : 2 ≤ length s
  pub at_most : length s ≤ 63
  pub start :
      (b : ℕ) × (t : Text) × (s ≡ b ∷ t) × (is_ascii_alnum b ≡ true) × (every is_id_char t ≡ true)

validate_suffix-IsSuffix : (s : Text) → validate_suffix s ≡ none → IsSuffix s
unfolding validate_suffix validate_characters
validate_suffix-IsSuffix [] h = cc
validate_suffix-IsSuffix (b ∷ t) h = record {
  at_least = ground arith;
  at_most = ground arith;
  start = (b, t, refl, ground arith, ground arith);
}

IsSuffix-validate_suffix : (s : Text) → IsSuffix s → validate_suffix s ≡ none
unfolding validate_suffix validate_characters
IsSuffix-validate_suffix [] h = absurd (omega (arith, h.at_least))
IsSuffix-validate_suffix (b ∷ t) h =
    let (c, u, e, first, rest) = h.start in ground (arith, h.at_least, h.at_most)

-- `ValidateID` accepts exactly the texts that consist of the prefix of a known kind and a suffix of
-- safe characters.
pub validate_id_iff :
    (k : IdKind) (id : Text)
    → (validate_id k id ≡ none)
      ↔ ((p : Text) × (s : Text) × (id_prefix k ≡ some p) × (id ≡ p ++ s) × IsSuffix s)
unfolding validate_id validate_with validate_prefixed
validate_id_iff k id = (sound (id_prefix k) refl, complete)
  where
    sound :
        (o : Option Text)
        → id_prefix k ≡ o
        → validate_with o id ≡ none
        → (p : Text) × (s : Text) × (id_prefix k ≡ some p) × (id ≡ p ++ s) × IsSuffix s
    sound none e h = cc
    sound (some p) e h = cut (cut_prefix p id) refl h
      where
        cut :
            (o : Option Text)
            → cut_prefix p id ≡ o
            → validate_prefixed o ≡ none
            → (p : Text) × (s : Text) × (id_prefix k ≡ some p) × (id ≡ p ++ s) × IsSuffix s
        cut none c h = cc
        cut (some s) c h = (p, s, e, append_of_cut_prefix p id s c, validate_suffix-IsSuffix s h)

    complete :
        (p : Text) × (s : Text) × (id_prefix k ≡ some p) × (id ≡ p ++ s) × IsSuffix s
        → validate_id k id ≡ none
    complete (p, s, e, w, suffix) = rw (e, w, cut_prefix-append) (IsSuffix-validate_suffix s suffix)

-- The first byte of an identifier tells its kind.
abbrev initial : IdKind → ℕ
initial namespace_id = b'n'
initial repo_id = b'r'
initial template_id = b't'
initial volume_id = b'v'
initial export_id = b'e'
initial mount_binding_id = b'w'
initial operation_id = b'o'
initial (other_kind k) = 0

first : Text → ℕ
first [] = 0
first (b ∷ s) = b

known_first : (k : IdKind) (p s : Text) → id_prefix k ≡ some p → first (p ++ s) ≡ initial k
unfolding first
known_first k p s e = ground arith

initial_injective :
    (k j : IdKind) (p q : Text)
    → id_prefix k ≡ some p
    → id_prefix j ≡ some q
    → initial k ≡ initial j
    → k ≡ j
initial_injective k j p q e f h = ground arith

-- No text is a valid identifier of two kinds.
pub validate_id-kind :
    (k j : IdKind) (id : Text) → validate_id k id ≡ none → validate_id j id ≡ none → k ≡ j
validate_id-kind k j id h g =
    let (p, s, e, w, _) = (validate_id_iff k id).0 h in
    let (q, t, f, v, _) = (validate_id_iff j id).0 g in
    initial_injective k j p q e f
      (sym (known_first k p s e) ∙ ap first (sym w ∙ v) ∙ known_first j q t f)

prefix_safe : (k : IdKind) (p : Text) → id_prefix k ≡ some p → every is_id_char p ≡ true
unfolding every
prefix_safe k p e = ground arith

-- A valid identifier consists of ASCII letters, digits, `_` and `-`, so it holds no separator, no
-- dot, no percent sign and no control character.
pub validate_id-safe :
    (k : IdKind) (id : Text) → validate_id k id ≡ none → every is_id_char id ≡ true
validate_id-safe k id h =
    let (p, s, e, w, suffix) = (validate_id_iff k id).0 h in
    let (b, t, x, alnum, rest) = suffix.start in
    rw (w, x)
      (every-append is_id_char p (b ∷ t) (prefix_safe k p e)
        (unfold every in ground (arith, alnum, rest)))
