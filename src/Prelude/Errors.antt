-- ===== src/Prelude/Errors.antt =====
-- Go's `error` results. A check returns `none` where the source returns nil, and the first error
-- of a sequence of checks is the one that is returned.
use mathlib.Core.Bool.{Bool, true, false}
use mathlib.Core.Logic.{◌⊎◌, inl, inr}
use mathlib.Core.Option.{Option, none, some}
use mathlib.Core.Path.{◌≡◌, refl}

-- `if test { return e }`
abbrev pub check {ℓ} : {E : Type ℓ} → Bool → E → Option E
check true e = some e
check false e = none

-- `if err := a; err != nil { return err }`, then `b`
infixr 3 ◌then_check◌
abbrev pub ◌then_check◌ {ℓ} : {E : Type ℓ} → Option E → Option E → Option E
some e then_check b = some e
none then_check b = b

-- `if err := a; err != nil { return k(err) }`, then `rest`
abbrev pub on_error {ℓ κ} : {E : Type ℓ} {A : Type κ} → Option E → (E → A) → A → A
on_error (some e) k rest = k e
on_error none k rest = rest

-- A pair `(value, error)` of which one is meant.
pub data Result {ℓ κ} (E : Type ℓ) (A : Type κ) : Type (ℓ ⊔ κ) where
  ok : A → Result E A
  err : E → Result E A

infixl 5 ◌and_then◌
abbrev pub ◌and_then◌ {ℓ κ μ} :
    {Failure : Type ℓ} {Old : Type κ} {New : Type μ}
    → Result Failure Old
    → (Old → Result Failure New)
    → Result Failure New
err failure and_then next = err failure
ok old and_then next = next old

-- `if err := check; err != nil { return zero, err }`
infixr 3 ◌then_return◌
abbrev pub ◌then_return◌ {ℓ κ} : {E : Type ℓ} {A : Type κ} → Option E → Result E A → Result E A
some e then_return r = err e
none then_return r = r

-- A sequence that succeeds has a first part that does.
pub and_then-ok {ℓ κ μ} :
    {Failure : Type ℓ} {Old : Type κ} {New : Type μ} (first : Result Failure Old)
    (next : Old → Result Failure New) {new : New}
    → (first and_then next) ≡ ok new
    → (old : Old) × (first ≡ ok old) × (next old ≡ ok new)
and_then-ok (err failure) next both = cc
and_then-ok (ok old) next both = (old, refl, both)

pub Result-cases {ℓ κ} :
    {Failure : Type ℓ} {Value : Type κ} (r : Result Failure Value)
    → ((failure : Failure) × (r ≡ err failure)) ⊎ ((value : Value) × (r ≡ ok value))
Result-cases (err failure) = inl (failure, refl)
Result-cases (ok value) = inr (value, refl)
