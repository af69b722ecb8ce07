-- ===== src/AuditDelivery/Marks.antt =====
-- The calls by which a round of delivery marks records (internal/auditdelivery/delivery.go), and that
-- the outbox accepts them (internal/audit/outbox.go).
use agentsmith_fs_control_pl.AuditDelivery.{
  Config, Mark, as_delivered, as_failed, run_once, Attempt, Round, deliver_record, deliver_records,
  failure_of, validated_config, first_round, no_result, run_with,
}
use agentsmith_fs_control_pl.Clock.{Time, is_zero}
use agentsmith_fs_control_pl.Outbox.{
  delivering, Decoded, OutboxRecord, mark_delivered, mark_delivery_failed, validate_outbox_record,
}
use agentsmith_fs_control_pl.Prelude.{
  List, Option-cases, [], ap, arith, false, inl, inr, is_some, leb_ℤ, length, ltb_ℤ, none, ok, pos,
  refl, some, subst, sym, true, ◌++◌, ◌∙◌, ◌∷◌, ◌≡◌,
}
use agentsmith_fs_control_pl.Text.{Text, is_blank}

-- The mark tells the outcome of the delivery of the record that was claimed: it names the event of
-- the record, which is not blank if the record is valid, and the outbox carries it out if the record
-- is valid and in delivery.
abbrev pub IsMarkOf : (Text → Decoded) → (Text → Text) → Attempt → Mark → Type 0
IsMarkOf decode redact a (as_delivered id t) =
    (a.delivery_error ≡ none)
    × (id ≡ a.record_of.event_id)
    × (validate_outbox_record decode a.record_of ≡ none → is_blank id ≡ false)
    × (validate_outbox_record decode a.record_of ≡ none
        → a.record_of.status ≡ delivering
        → (mark_delivered decode a.record_of t).1 ≡ none)
IsMarkOf decode redact a (as_failed id f) =
    (is_some a.delivery_error ≡ true)
    × (id ≡ a.record_of.event_id)
    × (validate_outbox_record decode a.record_of ≡ none → is_blank id ≡ false)
    × (validate_outbox_record decode a.record_of ≡ none
        → a.record_of.status ≡ delivering
        → (mark_delivery_failed decode redact a.record_of f).1 ≡ none)

-- The marks of a round: one for each claimed record, in order, up to the first whose call fails.
pub data AreMarksOf (decode : Text → Decoded) (redact : Text → Text)
    : List Attempt → List Mark → Type 0 where
  all_marked : AreMarksOf decode redact [] []
  marked :
      {a : Attempt} {m : Mark} {as' : List Attempt} {ms : List Mark}
      → IsMarkOf decode redact a m
      → a.mark_error ≡ none
      → AreMarksOf decode redact as' ms
      → AreMarksOf decode redact (a ∷ as') (m ∷ ms)
  stopped :
      {a : Attempt} {m : Mark} {as' : List Attempt} {e : Text}
      → IsMarkOf decode redact a m
      → a.mark_error ≡ some e
      → AreMarksOf decode redact (a ∷ as') (m ∷ [])

config-facts :
    (c : Config) {o : Text} {t : Time}
    → validated_config c ≡ ok (o, t)
    → (is_zero t ≡ false)
      × (leb_ℤ c.max_attempts (pos 0) ≡ false)
      × (ltb_ℤ c.retry_backoff (pos 0) ≡ false)
unfolding validated_config
config-facts c h = (ground arith, ground arith, ground arith)

event_named :
    (decode : Text → Decoded) (r : OutboxRecord)
    → validate_outbox_record decode r ≡ none
    → is_blank r.event_id ≡ false
unfolding validate_outbox_record
event_named decode r h = ground arith

append-nil : (ms : List Mark) → ms ≡ ms ++ []
append-nil [] = refl
append-nil (m ∷ ms) = ap (λ x. m ∷ x) (append-nil ms)

append_assoc : (xs ys zs : List Mark) → (xs ++ ys) ++ zs ≡ xs ++ (ys ++ zs)
append_assoc [] ys zs = refl
append_assoc (x ∷ xs) ys zs = ap (λ l. x ∷ l) (append_assoc xs ys zs)

module _ (decode : Text → Decoded) (redact : Text → Text) (c : Config) (o : Text) (t : Time)
    (v : validated_config c ≡ ok (o, t)) where
  delivered-IsMarkOf :
      (a : Attempt)
      → a.delivery_error ≡ none
      → IsMarkOf decode redact a (as_delivered a.record_of.event_id t)
  unfolding mark_delivered
  delivered-IsMarkOf a n =
      let (z, _, _) = config-facts c v in
      (n, refl, (λ w. event_named decode a.record_of w), (λ w s. ground arith))

  failed-IsMarkOf :
      (a : Attempt) (message : Text)
      → is_some a.delivery_error ≡ true
      → IsMarkOf decode redact a (as_failed a.record_of.event_id (failure_of c message t))
  unfolding mark_delivery_failed
  failed-IsMarkOf a message d =
      let (z, m, b) = config-facts c v in
      (d, refl, (λ w. event_named decode a.record_of w), (λ w s. ground arith))

  -- One record adds its mark, and the loop stops if the call fails.
  deliver_record-IsMarkOf :
      (a : Attempt) (x : Round)
      → (m : Mark) × ((deliver_record redact c t a x).marks ≡ x.marks ++ (m ∷ []))
        × IsMarkOf decode redact a m
        × (is_some (deliver_record redact c t a x).error ≡ is_some a.mark_error)
  unfolding deliver_record
  deliver_record-IsMarkOf a x = elim (Option-cases a.delivery_error) [
    | inl n ↦ elim (Option-cases a.mark_error) [
      | inl m ↦ (
        as_delivered a.record_of.event_id t,
        rw (n, m) refl,
        delivered-IsMarkOf a n,
        rw (n, m) refl,
      )
      | inr (e, m) ↦ (
        as_delivered a.record_of.event_id t,
        rw (n, m) refl,
        delivered-IsMarkOf a n,
        rw (n, m) refl,
      )
    ]
    | inr (d, n) ↦ elim (Option-cases a.mark_error) [
      | inl m ↦ (
        as_failed a.record_of.event_id (failure_of c (redact d) t),
        rw (n, m) refl,
        failed-IsMarkOf a (redact d) (rw n refl),
        rw (n, m) refl,
      )
      | inr (e, m) ↦ (
        as_failed a.record_of.event_id (failure_of c (redact d) t),
        rw (n, m) refl,
        failed-IsMarkOf a (redact d) (rw n refl),
        rw (n, m) refl,
      )
    ]
  ]

  deliver_records-AreMarksOf :
      (due : List Attempt) (x : Round)
      → (ms : List Mark) × ((deliver_records redact c t due x).marks ≡ x.marks ++ ms)
        × AreMarksOf decode redact due ms
  unfolding deliver_records
  deliver_records-AreMarksOf [] x = ([], append-nil x.marks, all_marked)
  deliver_records-AreMarksOf (a ∷ rest) x =
      let y = deliver_record redact c t a x in
      let (m, e, i, k) = deliver_record-IsMarkOf a x in
      elim (Option-cases a.mark_error) [
        | inl n ↦
            let on : is_some y.error ≡ false = k ∙ ap is_some n in
            let (ms, f, s) = deliver_records-AreMarksOf rest y in
            (
              m ∷ ms,
              rw on (f ∙ ap (λ l. l ++ ms) e ∙ append_assoc x.marks (m ∷ []) ms),
              marked i n s,
            )
        | inr (w, n) ↦
            let off : is_some y.error ≡ true = k ∙ ap is_some n in (m ∷ [], rw off e, stopped i n)
      ]

-- A round with a valid configuration marks each claimed record, in order, as its delivery went, up to
-- the first whose call fails. Each call names the event of its record, which is not blank if the
-- record is valid, and is one that the outbox carries out if the record is valid and in delivery.
pub run_once-AreMarksOf :
    (decode : Text → Decoded) (redact : Text → Text) (c : Config) (o : Text) (t : Time)
    (claimed : List Attempt)
    → validated_config c ≡ ok (o, t)
    → AreMarksOf decode redact claimed (run_once redact c (ok claimed)).marks
unfolding run_once
run_once-AreMarksOf decode redact c o t claimed v =
    let (ms, e, s) =
      deliver_records-AreMarksOf decode redact c o t v claimed
        (first_round (record no_result { claimed = length claimed }) none) in
    subst (AreMarksOf decode redact claimed)
      (sym (ap (λ d. (run_with redact c d (ok claimed)).marks) v ∙ e)) s
