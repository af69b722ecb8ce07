-- ===== src/Worker/Kept.antt =====
-- What a stage of a round leaves as it was (internal/worker/run_once.go).
use agentsmith_fs_control_pl.Prelude.{
  Bool, Bool-cases, List, Option, [], arith, false, inl, inr, none, refl, some, true, ◌++◌, ◌||◌,
  ◌∙◌, ◌∷◌, ◌≡◌,
}
use agentsmith_fs_control_pl.RestoreReconcile.Loop.{RunResult}
use agentsmith_fs_control_pl.Worker.{
  exports, mounts, restores, operations, stale_audit, delivery, ErrorPart, Failure, Progress,
  Result, Runner, Stage, from_context, from_stage, is_context_error,
}
use agentsmith_fs_control_pl.Worker.Stages.{
  after_runner, call, halt, heed, run_stage, unless_stopped, enter,
}

abbrev pub stage_eq : Stage → Stage → Bool
stage_eq exports exports = true
stage_eq mounts mounts = true
stage_eq restores restores = true
stage_eq operations operations = true
stage_eq stale_audit stale_audit = true
stage_eq delivery delivery = true
stage_eq s t = false

abbrev pub was_called : Stage → List Stage → Bool
was_called s [] = false
was_called s (t ∷ ts) = stage_eq t s || was_called s ts

-- An error of one of the stages whose results the recovery of operations rests on.
abbrev pub is_evidence_error : ErrorPart → Bool
is_evidence_error (from_stage exports e) = true
is_evidence_error (from_stage mounts e) = true
is_evidence_error (from_stage restores e) = true
is_evidence_error part = false

abbrev pub has_error : (ErrorPart → Bool) → List ErrorPart → Bool
has_error bad [] = false
has_error bad (e ∷ es) = bad e || has_error bad es

was_called-append :
    (s t : Stage) (ts : List Stage) → was_called s (ts ++ t ∷ []) ≡ was_called s ts || stage_eq t s
was_called-append s t [] = ground arith
was_called-append s t (u ∷ ts) = ground (arith, was_called-append s t ts)

has_error-append :
    (bad : ErrorPart → Bool) (e : ErrorPart) (es : List ErrorPart)
    → has_error bad (es ++ e ∷ []) ≡ has_error bad es || bad e
has_error-append bad e [] = ground arith
has_error-append bad e (x ∷ es) = ground (arith, has_error-append bad e es)

or_false : (a b : Bool) → b ≡ false → a || b ≡ a
or_false a b h = ground arith

-- What a stage leaves as it was: whether `s` was called, whether there is an error of a kind, and a
-- view of the result.
abbrev pub Same :
    {W : Type 0}
    → Stage
    → (ErrorPart → Bool)
    → (Result → RunResult)
    → Progress W
    → Progress W
    → Type 0
Same s bad view p q =
    (was_called s q.called ≡ was_called s p.called)
    × (has_error bad q.errors ≡ has_error bad p.errors)
    × (view q.result ≡ view p.result)

-- A stage other than `s`, whose errors are not of the kind, and which keeps the view.
module _ {W : Type 0} {R : Type 0} (context : W → Option Failure) (stage : Stage) (strict : Bool)
    (save : R → Result → Result) (s : Stage) (bad : ErrorPart → Bool) (view : Result → RunResult)
    (other : stage_eq stage s ≡ false) (no_context : (e : Failure) → bad (from_context e) ≡ false)
    (no_stage : (e : Failure) → bad (from_stage stage e) ≡ false)
    (keeps : (r : R) (t : Result) → view (save r t) ≡ view t) where
  halt-Same :
      (part : ErrorPart) (p : Progress W) → bad part ≡ false → Same s bad view p (halt part p)
  halt-Same part p n = (refl, has_error-append bad part p.errors ∙ or_false _ _ n, refl)

  heed-Same : (o : Option Failure) (p : Progress W) → Same s bad view p (heed o p)
  heed-Same none p = (refl, refl, refl)
  heed-Same (some e) p = halt-Same (from_context e) p (no_context e)

  noted-Same :
      (e : Failure) (o : Option Failure) (p : Progress W)
      → Same s bad view p (heed o (record p { errors = p.errors ++ from_stage stage e ∷ [] }))
  noted-Same e o p =
      let q = record p { errors = p.errors ++ from_stage stage e ∷ [] } in
      let (a, b, d) = heed-Same o q in
      (a, b ∙ has_error-append bad (from_stage stage e) p.errors ∙ or_false _ _ (no_stage e), d)

  after_runner-Same :
      (o : Option Failure) (p : Progress W)
      → Same s bad view p (after_runner context stage strict o p)
  after_runner-Same none p = heed-Same (context p.world) p
  after_runner-Same (some e) p = elim (Bool-cases (strict || is_context_error e)) [
    | inl y ↦ rw y (halt-Same (from_stage stage e) p (no_stage e))
    | inr n ↦ rw n (noted-Same e (context p.world) p)
  ]

  call-Same :
      (a : R × Option Failure × W) (p : Progress W)
      → Same s bad view p (call context stage strict save a p)
  call-Same (r, e, w) p =
      let q = record p { result = save r p.result; called = p.called ++ stage ∷ []; world = w } in
      let (a, b, d) = after_runner-Same e q in
      (a ∙ was_called-append s stage p.called ∙ or_false _ _ other, b, d ∙ keeps r p.result)

  enter-Same :
      (runner : Runner W R) (o : Option Failure) (p : Progress W)
      → Same s bad view p (enter context stage strict save runner o p)
  enter-Same runner (some e) p = halt-Same (from_context e) p (no_context e)
  enter-Same runner none p = call-Same (runner p.world) p

  unless_stopped-Same :
      (runner : Option (Runner W R)) (b : Bool) (p : Progress W)
      → Same s bad view p (unless_stopped context stage strict save runner b p)
  unless_stopped-Same runner true p = (refl, refl, refl)
  unless_stopped-Same none false p = (refl, refl, refl)
  unless_stopped-Same (some runner) false p = enter-Same runner (context p.world) p

  pub run_stage-Same :
      (runner : Option (Runner W R)) (p : Progress W)
      → Same s bad view p (run_stage context stage strict save runner p)
  unfolding run_stage
  run_stage-Same runner p = unless_stopped-Same runner p.stopped p
