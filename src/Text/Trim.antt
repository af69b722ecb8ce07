-- ===== src/Text/Trim.antt =====
-- `strings.TrimSpace`: the leading and then the trailing white space of Unicode is cut, in UTF-8.
-- A space is recognised by its bytes, from the front or, for the trailing ones, from the back.
use mathlib.Core.List.{reverse-append, reverse-reverse}
use agentsmith_fs_control_pl.Prelude.{
  ℕ, zero, suc, ◌≡◌, refl, sym, ap, ◌∙◌, ◌⊎◌, inl, inr, Bool, ◌&&◌, ◌||◌, List, [], ◌∷◌, ◌++◌,
  reverse, arith, ◌==◌, leb, if◌then◌else◌,
}

-- '\t', '\n', '\v', '\f', '\r' and ' '
is_ascii_space : ℕ → Bool
is_ascii_space b = (leb 9 b && leb b 13) || b == 32

-- U+0085 and U+00A0
is_space_2 : ℕ → ℕ → Bool
is_space_2 a b = a == 0xc2 && (b == 0x85 || b == 0xa0)

-- U+1680, U+2000 to U+200A, U+2028, U+2029, U+202F, U+205F and U+3000
is_space_3 : ℕ → ℕ → ℕ → Bool
is_space_3 a b c =
    a == 0xe1 && b == 0x9a && c == 0x80
    || a == 0xe2 && b == 0x80 && (leb 0x80 c && leb c 0x8a || c == 0xa8 || c == 0xa9 || c == 0xaf)
    || a == 0xe2 && b == 0x81 && c == 0x9f
    || a == 0xe3 && b == 0x80 && c == 0x80

-- The bytes of the white space that a text begins with, 0 where it begins with none.
leading : List ℕ → ℕ
leading [] = 0
leading (a ∷ []) = if is_ascii_space a then 1 else 0
leading (a ∷ b ∷ []) = if is_ascii_space a then 1 else if is_space_2 a b then 2 else 0
leading (a ∷ b ∷ c ∷ s) =
    if is_ascii_space a then 1 else if is_space_2 a b then 2 else if is_space_3 a b c then 3 else 0

-- The same for the end of a text that is given backwards.
trailing : List ℕ → ℕ
trailing [] = 0
trailing (a ∷ []) = if is_ascii_space a then 1 else 0
trailing (a ∷ b ∷ []) = if is_ascii_space a then 1 else if is_space_2 b a then 2 else 0
trailing (a ∷ b ∷ c ∷ s) =
    if is_ascii_space a then 1 else if is_space_2 b a then 2 else if is_space_3 c b a then 3 else 0

-- Cuts `k` bytes, and then white space for as long as `spaces` finds some.
strip : (List ℕ → ℕ) → ℕ → List ℕ → List ℕ
strip spaces k [] = []
strip spaces (suc k) (b ∷ s) = strip spaces k s
strip spaces zero (b ∷ s) = elim (spaces (b ∷ s)) [ zero ↦ b ∷ s | suc k ↦ strip spaces k s ]

unfoldable pub trim_space : List ℕ → List ℕ
unfolding strip leading trailing is_ascii_space is_space_2 is_space_3
trim_space s = reverse (strip trailing 0 (reverse (strip leading 0 s)))

-- Nothing is left to cut after `strip`.
strip-IsStripped :
    (spaces : List ℕ → ℕ) (k : ℕ) (s : List ℕ)
    → (strip spaces k s ≡ []) ⊎ (spaces (strip spaces k s) ≡ 0)
unfolding strip
strip-IsStripped spaces k [] = inl refl
strip-IsStripped spaces (suc k) (b ∷ s) = strip-IsStripped spaces k s
strip-IsStripped spaces zero (b ∷ s) = at (spaces (b ∷ s)) refl (λ k. strip-IsStripped spaces k s)
  where
    at :
        (n : ℕ)
        → spaces (b ∷ s) ≡ n
        → ((k : ℕ) → (strip spaces k s ≡ []) ⊎ (spaces (strip spaces k s) ≡ 0))
        → (strip spaces zero (b ∷ s) ≡ []) ⊎ (spaces (strip spaces zero (b ∷ s)) ≡ 0)
    at zero e ih = rw (e, strip) (inr e)
    at (suc k) e ih = rw (e, strip) (ih k)

strip_self : (spaces : List ℕ → ℕ) (s : List ℕ) → spaces s ≡ 0 → strip spaces 0 s ≡ s
unfolding strip
strip_self spaces [] e = refl
strip_self spaces (b ∷ s) e = rw (e, strip)

strip-nil : (spaces : List ℕ → ℕ) → strip spaces 0 [] ≡ []
unfolding strip
strip-nil spaces = refl

strip-strip :
    (spaces : List ℕ → ℕ) (s : List ℕ) → strip spaces 0 (strip spaces 0 s) ≡ strip spaces 0 s
strip-strip spaces s = elim (strip-IsStripped spaces 0 s) [
  | inl e ↦ rw e (strip-nil spaces)
  | inr e ↦ strip_self spaces (strip spaces 0 s) e
]

-- What `strip` leaves is an end of the text.
strip-suffix :
    (spaces : List ℕ → ℕ) (k : ℕ) (s : List ℕ) → (t : List ℕ) × (s ≡ t ++ strip spaces k s)
unfolding strip
strip-suffix spaces k [] = ([], refl)
strip-suffix spaces (suc k) (b ∷ s) =
    let (t, e) = strip-suffix spaces k s in (b ∷ t, ap (λ r. b ∷ r) e)
strip-suffix spaces zero (b ∷ s) = at (spaces (b ∷ s)) refl (λ k. strip-suffix spaces k s)
  where
    at :
        (n : ℕ)
        → spaces (b ∷ s) ≡ n
        → ((k : ℕ) → (t : List ℕ) × (s ≡ t ++ strip spaces k s))
        → (t : List ℕ) × (b ∷ s ≡ t ++ strip spaces zero (b ∷ s))
    at zero e ih = ([], rw (e, strip))
    at (suc k) e ih = (b ∷ (ih k).0, rw (e, strip) (ap (λ r. b ∷ r) (ih k).1))

-- A beginning of a text that begins with no white space begins with none.
leading-prefix : (s t : List ℕ) → leading (s ++ t) ≡ 0 → leading s ≡ 0
unfolding leading
leading-prefix [] t e = refl
leading-prefix (a ∷ []) [] e = e
leading-prefix (a ∷ []) (b ∷ []) e = ground arith
leading-prefix (a ∷ []) (b ∷ c ∷ t) e = ground arith
leading-prefix (a ∷ b ∷ []) [] e = e
leading-prefix (a ∷ b ∷ []) (c ∷ t) e = ground arith
leading-prefix (a ∷ b ∷ c ∷ s) t e = e

leading-prefix_strip :
    (s t : List ℕ) → (s ++ t ≡ []) ⊎ (leading (s ++ t) ≡ 0) → strip leading 0 s ≡ s
leading-prefix_strip [] t h = strip-nil leading
leading-prefix_strip (b ∷ s) t (inl e) = cc
leading-prefix_strip (b ∷ s) t (inr e) = strip_self leading (b ∷ s) (leading-prefix (b ∷ s) t e)

-- Trimming twice is trimming once.
pub trim_space_idem : (s : List ℕ) → trim_space (trim_space s) ≡ trim_space s
unfolding trim_space
trim_space_idem s =
    let y = strip leading 0 s in
    let z = strip trailing 0 (reverse y) in
    let (w, e) = strip-suffix trailing 0 (reverse y) in
    let whole : y ≡ reverse z ++ reverse w =
      sym (reverse-reverse y) ∙ ap reverse e ∙ reverse-append w z in
    let front : strip leading 0 (reverse z) ≡ reverse z =
      leading-prefix_strip (reverse z) (reverse w) (rw whole at (strip-IsStripped leading 0 s)) in
    rw (front, reverse-reverse, strip-strip)

pub trim_space-nil : trim_space [] ≡ []
unfolding trim_space
trim_space-nil = refl
