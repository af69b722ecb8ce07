-- ===== src/RestoreReconcile/Verdicts.antt =====
-- When an observation is clean (internal/restorereconcile/reconcile.go).
use agentsmith_fs_control_pl.Prelude.{Bool, arith, false, refl, true, ◌&&◌, ◌↔◌, ◌≡◌, ◌≢◌, ◌⊎◌}
use agentsmith_fs_control_pl.RestoreReconcile.{
  Observation, ObservationResult, Target, clean, decide_filled, decide_observation,
  decide_observation_for_target, differs_from, is_mismatch, is_purged, lacks_evidence, mismatch,
  other_result, status_or,
}
use agentsmith_fs_control_pl.Text.{is_blank, is_empty, text_eq_iff}

-- What storage shows of a repository agrees with its target: complete evidence, nothing left of a
-- purged repository, no mismatch seen by the observer, and the expected marks.
pub record IsMatch (t : Target) (o : Observation) : Type 0 where
  pub run_named : is_empty o.run_id ≡ false
  pub repo_named : is_empty o.repo_id ≡ false
  pub purged_gone :
      (is_purged (status_or o.expected_repo_status t.expected_repo_status) ≡ false)
      ⊎ (o.observed_storage_present ≡ false)
  pub seen_equal : o.result ≢ mismatch
  pub evidence : is_blank o.evidence_ref ≡ false
  pub generation : o.observed_generation ≡ t.expected_storage_generation
  pub generation_set : is_blank o.observed_generation ≡ false
  pub snapshot : o.observed_snapshot_id ≡ t.expected_snapshot_id
  pub snapshot_set : is_blank o.observed_snapshot_id ≡ false
  pub tombstone : o.observed_tombstone_marker ≡ t.expected_tombstone_marker
  pub tombstone_set : is_blank o.observed_tombstone_marker ≡ false
  pub purge : o.observed_purge_marker ≡ t.expected_purge_marker
  pub purge_set : is_blank o.observed_purge_marker ≡ false

is_mismatch_iff : (r : ObservationResult) → (is_mismatch r ≡ false) ↔ (r ≢ mismatch)
is_mismatch_iff clean = ((λ h e. cc), λ h. refl)
is_mismatch_iff mismatch = ((λ h. cc), λ h. absurd (h refl))
is_mismatch_iff (other_result s) = ((λ h e. cc), λ h. refl)

-- A decision of the source is one of these two.
decide_observation-mismatch :
    (o : Observation)
    → is_mismatch o.result ≡ true
    → is_mismatch (decide_observation o).result ≡ true
unfolding decide_observation
decide_observation-mismatch o h = ground arith

abbrev purged_present : Target → Observation → Bool
purged_present t o =
    is_purged (status_or o.expected_repo_status t.expected_repo_status)
    && o.observed_storage_present

-- The tests of the decision, in their order.
decide-tests :
    (t : Target) (o : Observation)
    → (is_mismatch (decide_observation_for_target t o).result ≡ false) ↔ (
        (is_empty o.run_id ≡ false)
        × (is_empty o.repo_id ≡ false)
        × (purged_present t o ≡ false)
        × (is_mismatch o.result ≡ false)
        × (lacks_evidence o ≡ false)
        × (differs_from t o ≡ false))
unfolding decide_observation_for_target decide_filled lacks_evidence differs_from decide_observation
decide-tests t o = (
  (λ h. (ground arith, ground arith, ground arith, ground arith, ground arith, ground arith)),
  λ (a, b, c, d, e, f). ground arith,
)

differs_from_iff :
    (t : Target) (o : Observation)
    → (differs_from t o ≡ false) ↔ (
        (o.observed_generation ≡ t.expected_storage_generation)
        × (o.observed_snapshot_id ≡ t.expected_snapshot_id)
        × (o.observed_tombstone_marker ≡ t.expected_tombstone_marker)
        × (o.observed_purge_marker ≡ t.expected_purge_marker))
unfolding differs_from
differs_from_iff t o =
    let g = text_eq_iff o.observed_generation t.expected_storage_generation in
    let s = text_eq_iff o.observed_snapshot_id t.expected_snapshot_id in
    let m = text_eq_iff o.observed_tombstone_marker t.expected_tombstone_marker in
    let p = text_eq_iff o.observed_purge_marker t.expected_purge_marker in
    (
      (λ h. (g.0 (ground arith), s.0 (ground arith), m.0 (ground arith), p.0 (ground arith))),
      λ (a, b, c, d).
          let a' = g.1 a in let b' = s.1 b in let c' = m.1 c in let d' = p.1 d in ground arith,
    )

-- The decision is clean exactly if the observation matches its target.
pub decide_observation_for_target_iff :
    (t : Target) (o : Observation)
    → (is_mismatch (decide_observation_for_target t o).result ≡ false) ↔ IsMatch t o
unfolding lacks_evidence
decide_observation_for_target_iff t o =
    let tests = decide-tests t o in
    let marks = differs_from_iff t o in
    let seen = is_mismatch_iff o.result in
    (
      (λ h.
          let (a, b, c, d, e, f) = tests.0 h in
          let (g, s, m, p) = marks.0 f in
          record {
            run_named = a;
            repo_named = b;
            purged_gone = ground arith;
            seen_equal = seen.0 d;
            evidence = ground arith;
            generation = g;
            generation_set = ground arith;
            snapshot = s;
            snapshot_set = ground arith;
            tombstone = m;
            tombstone_set = ground arith;
            purge = p;
            purge_set = ground arith;
          }),
      λ i. tests.1 (
        i.run_named,
        i.repo_named,
        ground (arith, i.purged_gone),
        seen.1 i.seen_equal,
        ground (arith, i.evidence, i.generation_set, i.snapshot_set, i.tombstone_set, i.purge_set),
        marks.1 (i.generation, i.snapshot, i.tombstone, i.purge),
      ),
    )
