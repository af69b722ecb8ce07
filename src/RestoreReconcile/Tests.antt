-- ===== src/RestoreReconcile/Tests.antt =====
-- Runs over concrete stores, whose states are of no matter.
use agentsmith_fs_control_pl.Prelude.{[], false, inl, none, ok, refl, some, true, ◌++◌, ◌∷◌, ◌≡◌}
use agentsmith_fs_control_pl.RestoreReconcile.{
  active, purged, Observation, Run, Target, clean, decide_filled, decide_observation,
  decide_observation_for_target, differs_from, is_mismatch, lacks_evidence,
  purged_repo_storage_present, reconciling, unset,
}
use agentsmith_fs_control_pl.RestoreReconcile.Completes.{IsDone, run_once_completes}
use agentsmith_fs_control_pl.RestoreReconcile.Loop.{
  Store, observed, run_completed, run_once, scan_targets,
}
use agentsmith_fs_control_pl.RestoreReconcile.Redaction.{
  contains, contains_any, contains_sensitive_material, redact, redacted_evidence, replace_after,
  some_sensitive,
}
use agentsmith_fs_control_pl.RestoreReconcile.Runs.{IsCompletion, run_once-IsCompletion}
use agentsmith_fs_control_pl.RestoreReconcile.Verdicts.{IsMatch}
use agentsmith_fs_control_pl.Text.{bytes, cut_prefix, text_eq, trim_space}
use agentsmith_fs_control_pl.Text.Runes.{runes}

abbrev target : Target
target = record {
  run_id = bytes "run_1";
  repo_id = bytes "repo_b2";
  namespace_id = bytes "ns_a1";
  expected_repo_status = active;
  expected_storage_generation = bytes "g7";
  expected_snapshot_id = bytes "s1";
  expected_tombstone_marker = bytes "none";
  expected_purge_marker = bytes "none";
}

abbrev seen : Observation
seen = record {
  run_id = bytes "run_1";
  repo_id = bytes "repo_b2";
  namespace_id = bytes "ns_a1";
  expected_repo_status = unset;
  observed_storage_present = true;
  observed_generation = bytes "g7";
  observed_snapshot_id = bytes "s1";
  observed_tombstone_marker = bytes "none";
  observed_purge_marker = bytes "none";
  result = clean;
  reason = [];
  evidence_ref = bytes "ev-1";
}

abbrev run : Run
run = record { id = bytes "run_1"; mode = reconciling }

-- A store that shows an observation for every target.
abbrev showing : Observation → Store (Unit {0})
showing o = record {
  active_run = λ w. (ok run, w);
  list_targets = λ name w. (ok (target ∷ []), w);
  observe_target = λ t w. (ok o, w);
  complete_run = λ name now w. (none, w);
  commit_mismatch = λ c w. (none, w);
}

completes :
    (run_once true (some (showing seen)) 9 tt).log
    ≡ observed target seen ∷ run_completed (bytes "run_1") 9 ∷ []
unfolding decide_observation_for_target decide_filled decide_observation lacks_evidence differs_from
    text_eq trim_space scan_targets run_once
completes = refl

-- Storage of a purged repository is a mismatch, whatever the marks.
remains :
    (decide_observation_for_target (record target { expected_repo_status = purged }) seen).reason
    ≡ purged_repo_storage_present
unfolding decide_observation_for_target decide_filled
remains = refl

-- The status that the observation carries is used before that of the target.
own_status :
    is_mismatch
      (decide_observation_for_target
        (record target { expected_repo_status = purged })
        (record seen { expected_repo_status = active })).result
    ≡ false
unfolding decide_observation_for_target decide_filled lacks_evidence differs_from text_eq trim_space
own_status = refl

blocks :
    (run_once true (some (showing (record seen { observed_generation = bytes "g8" }))) 9 tt).result
    ≡ record { scanned = 1; completed_runs = 0; blocked = 1; skipped = 0; failed_count = 0 }
unfolding decide_observation_for_target decide_filled decide_observation lacks_evidence differs_from
    text_eq trim_space redacted_evidence some_sensitive contains_sensitive_material contains_any
    contains cut_prefix runes redact replace_after scan_targets run_once
blocks = refl

-- The Kelvin sign is a K.
kelvin : contains_sensitive_material (bytes "to" ++ (0xe2 ∷ 0x84 ∷ 0xaa ∷ bytes "EN")) ≡ true
unfolding contains_sensitive_material contains_any contains cut_prefix runes
kelvin = refl

redacted : redact (bytes "a/.jvs/x") ≡ bytes "a/[REDACTED]/x"
unfolding redact replace_after cut_prefix
redacted = refl

matched_seen : IsMatch target seen
unfolding text_eq trim_space
matched_seen = record {
  run_named = refl;
  repo_named = refl;
  purged_gone = inl refl;
  seen_equal = λ e. cc;
  evidence = refl;
  generation = refl;
  generation_set = refl;
  snapshot = refl;
  snapshot_set = refl;
  tombstone = refl;
  tombstone_set = refl;
  purge = refl;
  purge_set = refl;
}

run_once-IsCompletion_example :
    IsCompletion (showing seen) 9 tt (run_once true (some (showing seen)) 9 tt)
unfolding decide_observation_for_target decide_filled decide_observation lacks_evidence differs_from
    text_eq trim_space scan_targets run_once
run_once-IsCompletion_example = run_once-IsCompletion (showing seen) 9 tt refl

run_once_completes_example :
    IsDone (showing seen) run 9 (target ∷ []) tt (run_once true (some (showing seen)) 9 tt)
run_once_completes_example =
    run_once_completes (showing seen) 9 tt tt tt run target [] refl refl refl (λ v. refl)
      ((λ v. (seen, tt, refl, matched_seen)), tt)
