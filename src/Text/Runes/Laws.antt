-- ===== src/Text/Runes/Laws.antt =====
-- The runes of a text that is cut at a slash, and the bytes below 0x80, which are runes themselves.
use agentsmith_fs_control_pl.Prelude.{
  ℕ, zero, suc, ◌≡◌, refl, ap, Bool, true, false, ◌&&◌, List, [], ◌∷◌, ◌++◌, arith, leb, Bool-cases,
  inl, inr, not, some, ◌||◌, subst,
}
use agentsmith_fs_control_pl.Text.{every}
use agentsmith_fs_control_pl.Text.Runes.{
  decode, decode_2, decode_3, decode_4, decoded, runes, runes_after, second_of_3, second_of_4, any,
  valid_after, valid_string,
}

-- The first `k` bytes are there, and are no ASCII characters.
high : ℕ → List ℕ → Bool
high zero s = true
high (suc k) [] = false
high (suc k) (b ∷ s) = leb 0x80 b && high k s

-- A slash ends a rune as the end of the text does.
decode_2-append : (a : ℕ) (s t : List ℕ) → decode_2 a (s ++ (b'/' ∷ t)) ≡ decode_2 a s
unfolding decode_2
decode_2-append a [] t = refl
decode_2-append a (b ∷ s) t = refl

decode_3-append : (a : ℕ) (s t : List ℕ) → decode_3 a (s ++ (b'/' ∷ t)) ≡ decode_3 a s
unfolding decode_3 second_of_3
decode_3-append a [] [] = refl
decode_3-append a [] (c ∷ t) = ground arith
decode_3-append a (b ∷ []) t = ground arith
decode_3-append a (b ∷ c ∷ s) t = refl

decode_4-append : (a : ℕ) (s t : List ℕ) → decode_4 a (s ++ (b'/' ∷ t)) ≡ decode_4 a s
unfolding decode_4 second_of_4
decode_4-append a [] [] = refl
decode_4-append a [] (c ∷ []) = refl
decode_4-append a [] (c ∷ d ∷ t) = ground arith
decode_4-append a (b ∷ []) [] = refl
decode_4-append a (b ∷ []) (d ∷ t) = ground arith
decode_4-append a (b ∷ c ∷ []) t = ground arith
decode_4-append a (b ∷ c ∷ d ∷ s) t = refl

decode-append : (a : ℕ) (s t : List ℕ) → decode a (s ++ (b'/' ∷ t)) ≡ decode a s
unfolding decode
decode-append a s t = rw (decode_2-append, decode_3-append, decode_4-append)

decode_2-high : (a : ℕ) (s : List ℕ) → high (decoded (decode_2 a s)).1 s ≡ true
unfolding decode_2 decoded high
decode_2-high a [] = refl
decode_2-high a (b ∷ s) = ground arith

decode_3-high : (a : ℕ) (s : List ℕ) → high (decoded (decode_3 a s)).1 s ≡ true
unfolding decode_3 decoded high second_of_3
decode_3-high a [] = refl
decode_3-high a (b ∷ []) = refl
decode_3-high a (b ∷ c ∷ s) = ground arith

decode_4-high : (a : ℕ) (s : List ℕ) → high (decoded (decode_4 a s)).1 s ≡ true
unfolding decode_4 decoded high second_of_4
decode_4-high a [] = refl
decode_4-high a (b ∷ []) = refl
decode_4-high a (b ∷ c ∷ []) = refl
decode_4-high a (b ∷ c ∷ d ∷ s) = ground arith

decode-high : (a : ℕ) (s : List ℕ) → high (decoded (decode a s)).1 s ≡ true
unfolding decode decoded high
decode-high a s = ground (arith, decode_2-high a s, decode_3-high a s, decode_4-high a s)

runes_after-append :
    (k : ℕ) (s t : List ℕ)
    → high k s ≡ true
    → runes_after k (s ++ (b'/' ∷ t)) ≡ runes_after k s ++ (b'/' ∷ runes_after 0 t)
unfolding runes_after high
runes_after-append zero [] t h = unfold decode decoded in refl
runes_after-append (suc k) [] t h = cc
runes_after-append (suc k) (b ∷ s) t h = runes_after-append k s t (ground arith)
runes_after-append zero (b ∷ s) t h = rw (decode-append b s t) (
    ap (λ rs. (decoded (decode b s)).0 ∷ rs)
      (runes_after-append (decoded (decode b s)).1 s t (decode-high b s)))

-- A slash separates the runes of what stands before it and after it.
pub runes-append : (s t : List ℕ) → runes (s ++ (b'/' ∷ t)) ≡ runes s ++ (b'/' ∷ runes t)
unfolding runes high
runes-append s t = runes_after-append 0 s t refl

-- A byte that is an ASCII character which passes the test.
abbrev pub is_ascii_of : (ℕ → Bool) → ℕ → Bool
is_ascii_of test b = not (leb 0x80 b) && test b

decode-ascii : (b : ℕ) (s : List ℕ) → leb 0x80 b ≡ false → decode b s ≡ some (b, 0)
unfolding decode
decode-ascii b s h = ground arith

first_false : (a b : Bool) → a || b ≡ false → a ≡ false
first_false true b h = h
first_false false b h = refl

second_false : (a b : Bool) → a || b ≡ false → b ≡ false
second_false true b h = cc
second_false false b h = h

every_after :
    (test : ℕ → Bool) (k : ℕ) (s : List ℕ)
    → high k s ≡ true
    → any test (runes_after k s) ≡ false
    → every (λ b. not (is_ascii_of test b)) s ≡ true
unfolding runes_after high any every decoded
every_after test k [] h n = refl
every_after test (suc k) (b ∷ s) h n = ground (arith, every_after test k s)
every_after test zero (b ∷ s) h n = elim (Bool-cases (leb 0x80 b)) [
  | inl large ↦
      let rest = every_after test (decoded (decode b s)).1 s (decode-high b s) in
      rw large (rest (second_false _ _ n))
  | inr small ↦
      let read =
        subst (λ o. any test ((decoded o).0 ∷ runes_after (decoded o).1 s) ≡ false)
          (decode-ascii b s small) n in
      let failed : test b ≡ false = first_false (test b) _ read in
      rw (small, failed) (every_after test zero s refl (second_false (test b) _ read))
]

-- Where no rune of a text passes a test, no ASCII byte of it does.
pub every-runes :
    (test : ℕ → Bool) (s : List ℕ)
    → any test (runes s) ≡ false
    → every (λ b. not (is_ascii_of test b)) s ≡ true
unfolding runes high
every-runes test s n = every_after test 0 s refl n

pub any-append : (test : ℕ → Bool) (r s : List ℕ) → any test (r ++ s) ≡ any test r || any test s
unfolding any
any-append test [] s = refl
any-append test (b ∷ r) s = ground (arith, any-append test r s)

-- A text of ASCII characters is valid, and is its own list of runes.
ascii_after :
    (s : List ℕ)
    → every (λ b. not (leb 0x80 b)) s ≡ true
    → (runes_after 0 s ≡ s) × (valid_after 0 s ≡ true)
unfolding runes_after every decode decoded valid_after
ascii_after [] h = (refl, refl)
ascii_after (b ∷ s) h =
    let (p, q) = ascii_after s (ground arith) in
    let read = decode-ascii b s (ground arith) in (ground arith, ground arith)

pub runes_of_ascii : (s : List ℕ) → every (λ b. not (leb 0x80 b)) s ≡ true → runes s ≡ s
unfolding runes
runes_of_ascii s h = (ascii_after s h).0

pub valid_of_ascii : (s : List ℕ) → every (λ b. not (leb 0x80 b)) s ≡ true → valid_string s ≡ true
unfolding valid_string
valid_of_ascii s h = (ascii_after s h).1

-- A rune that begins with a byte from 0x80 on is itself from 0x80 on.
decoded-large : (b : ℕ) (s : List ℕ) → leb 0x80 b ≡ true → leb 0x80 (decoded (decode b s)).0 ≡ true
unfolding decode decoded decode_2 decode_3 decode_4 second_of_3 second_of_4
decoded-large b [] h = ground arith
decoded-large b (c ∷ []) h = ground arith
decoded-large b (c ∷ d ∷ []) h = ground arith
decoded-large b (c ∷ d ∷ e ∷ s) h = ground arith

both_true : (a b : Bool) → a && b ≡ true → b ≡ true
both_true true b h = h
both_true false b h = cc

-- A text whose runes are ASCII characters consists of ASCII characters.
pub ascii_of_runes :
    (s : List ℕ)
    → every (λ r. not (leb 0x80 r)) (runes s) ≡ true
    → every (λ b. not (leb 0x80 b)) s ≡ true
unfolding runes runes_after every decoded
ascii_of_runes [] h = refl
ascii_of_runes (b ∷ s) h = elim (Bool-cases (leb 0x80 b)) [
  | inl large ↦ absurd (ground (arith, decoded-large b s large))
  | inr small ↦
      let read =
        subst
          (λ o. every (λ r. not (leb 0x80 r)) ((decoded o).0 ∷ runes_after (decoded o).1 s) ≡ true)
          (decode-ascii b s small) h in
      rw small (ascii_of_runes s (both_true (not (leb 0x80 b)) _ read))
]
