-- ===== src/AuditDelivery/Account.antt =====
-- What one round of audit delivery amounts to (internal/auditdelivery/delivery.go), and that the
-- calls it makes are ones that the outbox accepts (internal/audit/outbox.go).
use agentsmith_fs_control_pl.AuditDelivery.{
  Config, Mark, Attempt, Round, deliver_record, DeliveryError, RecordResult, count_failed, finish,
  BatchResult, deliver_records, first_round, no_result, run_once, validated_config,
}
use agentsmith_fs_control_pl.Clock.{Time}
use agentsmith_fs_control_pl.Prelude.{
  if◌then◌else◌, is_some, length, none, suc, ◌+◌, ◌≡◌, List, Option-cases, [], arith, inl, inr,
  length-append, refl, some, ◌++◌, ◌∷◌, ℕ, ◌∙◌, ◌≤◌, ap, false, ok, true,
}
use agentsmith_fs_control_pl.Text.{Text}

-- The counts of a round and its results agree.
abbrev Counted : Round → Type 0
Counted x =
    (length x.result.results
      ≡ x.result.delivered_count + x.result.delivery_failures_recorded + x.result.failed_count)
    × (x.result.failed_count ≡ (if is_some x.error then 1 else 0))

length-snoc {ℓ} : {A : Type ℓ} (xs : List A) (y : A) → length (xs ++ (y ∷ [])) ≡ suc (length xs)
length-snoc xs y = omega (arith, length-append xs (y ∷ []))

-- One record adds one result and one mark, and to one of the counts.
record Progress (x : Round) (y : Round) : Type 0 where
  pub counted : Counted y
  pub longer : length y.result.results ≡ suc (length x.result.results)
  pub marked : length y.marks ≡ suc (length x.marks)
  pub claims : y.result.claimed ≡ x.result.claimed

Progress-failed :
    (x : Round) (m : Mark) (r : RecordResult) (e : DeliveryError)
    → x.error ≡ none
    → Counted x
    → Progress x (finish x m (count_failed x.result) r (some e))
Progress-failed x m r e h (k, f) =
    let g : x.result.failed_count ≡ 0 = rw h at f in
    let l = length-snoc x.result.results r in
    record {
      counted = (omega (arith), omega arith);
      longer = l;
      marked = length-snoc x.marks m;
      claims = refl;
    }

Progress-done :
    (x : Round) (m : Mark) (b : BatchResult) (r : RecordResult)
    → x.error ≡ none
    → Counted x
    → b.results ≡ x.result.results
    → b.claimed ≡ x.result.claimed
    → b.failed_count ≡ x.result.failed_count
    → b.delivered_count + b.delivery_failures_recorded
      ≡ suc (x.result.delivered_count + x.result.delivery_failures_recorded)
    → Progress x (finish x m b r none)
Progress-done x m b r h (k, f) same claims failures more =
    let g : x.result.failed_count ≡ 0 = rw h at f in
    let l : length (b.results ++ (r ∷ [])) ≡ suc (length x.result.results) =
      rw same (length-snoc x.result.results r) in
    record {
      counted = (omega arith, omega arith);
      longer = l;
      marked = length-snoc x.marks m;
      claims = claims;
    }

deliver_record-Progress :
    (redact : Text → Text) (c : Config) (t : Time) (a : Attempt) (x : Round)
    → x.error ≡ none
    → Counted x
    → Progress x (deliver_record redact c t a x)
unfolding deliver_record
deliver_record-Progress redact c t a x h k = elim (Option-cases a.delivery_error) [
  | inl n ↦ elim (Option-cases a.mark_error) [
    | inl m ↦ rw (n, m) (Progress-done x _ _ _ h k refl refl refl (omega arith))
    | inr (e, m) ↦ rw (n, m) (Progress-failed x _ _ _ h k)
  ]
  | inr (d, n) ↦ elim (Option-cases a.mark_error) [
    | inl m ↦ rw (n, m) (Progress-done x _ _ _ h k refl refl refl (omega arith))
    | inr (e, m) ↦ rw (n, m) (Progress-failed x _ _ _ h k)
  ]
]

-- A finished round: as many results and marks as records, unless it stopped at an error.
record IsAccount (x : Round) (n : ℕ) (y : Round) : Type 0 where
  pub counted : Counted y
  pub results : length y.result.results ≤ length x.result.results + n
  pub all : y.error ≡ none → length y.result.results ≡ length x.result.results + n
  pub marked : length y.marks + length x.result.results ≡ length y.result.results + length x.marks
  pub claims : y.result.claimed ≡ x.result.claimed

deliver_records-IsAccount :
    (redact : Text → Text) (c : Config) (t : Time) (as' : List Attempt) (x : Round)
    → x.error ≡ none
    → Counted x
    → IsAccount x (length as') (deliver_records redact c t as' x)
unfolding deliver_records
deliver_records-IsAccount redact c t [] x h k = record {
  counted = k;
  results = omega arith;
  all = λ e. omega arith;
  marked = omega arith;
  claims = refl;
}
deliver_records-IsAccount redact c t (a ∷ rest) x h k =
    let y = deliver_record redact c t a x in
    let p = deliver_record-Progress redact c t a x h k in
    elim (Option-cases y.error) [
      | inr (e, n) ↦
          let s : is_some y.error ≡ true = ap is_some n in
          rw s (record {
            counted = p.counted;
            results = omega (arith, p.longer);
            all = λ m. absurd (cc (n, m));
            marked = omega (arith, p.longer, p.marked);
            claims = p.claims;
          })
      | inl n ↦
          let q = deliver_records-IsAccount redact c t rest y n p.counted in
          let s : is_some y.error ≡ false = ap is_some n in
          rw s (record {
            counted = q.counted;
            results = omega (arith, p.longer, q.results);
            all = λ m. omega (arith, p.longer, q.all m);
            marked = omega (arith, p.longer, p.marked, q.marked);
            claims = q.claims ∙ p.claims;
          })
    ]

run_once-run :
    (redact : Text → Text) (c : Config) (due : List Attempt) (o : Text) (t : Time)
    → validated_config c ≡ ok (o, t)
    → run_once redact c (ok due)
      ≡ deliver_records redact c t due
          (first_round (record no_result { claimed = length due }) none)
unfolding run_once
run_once-run redact c due o t v = rw v refl

at_most_one : (x : Round) → Counted x → x.result.failed_count ≤ 1
at_most_one x (k, f) = ground arith

-- A round of delivery keeps its books: every result counts once as delivered, as a recorded failure
-- or as failed, and there is one call to mark a record for each; it claims as many records as the
-- store hands out; there are no more results than records, and as many where the round returns no
-- error; and it fails on one record at most.
pub run_once_accounts :
    (redact : Text → Text) (c : Config) (due : List Attempt) (o : Text) (t : Time)
    → validated_config c ≡ ok (o, t)
    → let x = run_once redact c (ok due) in
      (length x.result.results
        ≡ x.result.delivered_count + x.result.delivery_failures_recorded + x.result.failed_count)
      × (length x.marks ≡ length x.result.results)
      × (x.result.claimed ≡ length due)
      × (length x.result.results ≤ length due)
      × (x.error ≡ none → length x.result.results ≡ length due)
      × (x.result.failed_count ≤ 1)
run_once_accounts redact c due o t v =
    let start : Round = first_round (record no_result { claimed = length due }) none in
    let a = deliver_records-IsAccount redact c t due start refl (refl, refl) in
    rw (run_once-run redact c due o t v) (
      a.counted.0,
      omega (arith, a.marked),
      a.claims,
      omega (arith, a.results),
      λ e. omega (arith, a.all e),
      at_most_one (deliver_records redact c t due start) a.counted,
    )
