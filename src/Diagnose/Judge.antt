-- ===== src/Diagnose/Judge.antt =====
-- The rules that read the error of a cluster, and the order in which all of them are asked.
use alluredeck.Prelude.{
  Bool, false, not, ◌&&◌, ◌||◌, Option, none, some, List, [], ◌∷◌, ◌++◌, Text, text_eq, ltb,
  if◌then◌else◌, any, is_some,
}
use alluredeck.Prelude.Texts.{to_lower, trim_space, contains}
use alluredeck.Triage.{test_body}
use alluredeck.Diagnose.{
  product_regression, test_bug, insufficient_evidence, high, medium, low, CommitRelation,
  DiagnoseTest, DiagnoseCluster, phase_is, commit_unchanged, commit_changed, assertion_class,
  locator_class, since_pass, members, unchanged_unconfirmed, change_unconfirmed, no_error_message,
  no_error_class, no_status_pattern, no_last_good, ClusterVerdict,
}
use alluredeck.Diagnose.Rules.{
  is_test_body, is_different, is_same, is_unknown, last_good_commit_relation, eval_infra_env,
  eval_known_issue, worst_since_pass, assertion_class_markers, locator_class_markers, eval_flaky,
  when_gap, gaps_or_no_rule,
}

module _ (normalize : Text → Text) where
  unfoldable pub matches_any_marker : Text → List Text → Bool
  matches_any_marker msg markers =
      let norm = to_lower (normalize msg) in
      if text_eq (trim_space msg) [] then false else any (contains norm) markers

  abbrev pub is_assertion_class : Text → Bool
  is_assertion_class msg = matches_any_marker msg assertion_class_markers

  abbrev pub is_locator_class : Text → Bool
  is_locator_class msg = matches_any_marker msg locator_class_markers

  unfoldable pub eval_product_regression :
      DiagnoseCluster → List DiagnoseTest → CommitRelation → Text → Option ClusterVerdict
  eval_product_regression c ts rel sha =
      let worst = worst_since_pass ts in
      let found = phase_is test_body ∷ assertion_class ∷ since_pass worst ∷ [] in
      if not (is_test_body c.failure_phase) || not (is_assertion_class c.shared_error)
      then none
      else (if ltb 1 worst
          then none
          else (if is_same rel
              then none
              else some (
                  if is_different rel
                  then record {
                    verdict = product_regression;
                    confidence = high;
                    evidence = found ++ commit_changed sha ∷ [];
                    gaps = [];
                  }
                  else record {
                    verdict = product_regression;
                    confidence = medium;
                    evidence = found;
                    gaps = change_unconfirmed ∷ [];
                  })))

  unfoldable pub eval_test_bug : DiagnoseCluster → CommitRelation → Text → Option ClusterVerdict
  eval_test_bug c rel sha =
      let found = phase_is test_body ∷ locator_class ∷ [] in
      if not (is_test_body c.failure_phase) || not (is_locator_class c.shared_error)
      then none
      else (if is_different rel
          then none
          else some (
              if is_same rel
              then record {
                verdict = test_bug;
                confidence = medium;
                evidence = found ++ commit_unchanged sha ∷ [];
                gaps = [];
              }
              else record {
                verdict = test_bug;
                confidence = medium;
                evidence = found;
                gaps = unchanged_unconfirmed ∷ [];
              }))

  unfoldable pub eval_insufficient_evidence : DiagnoseCluster → CommitRelation → ClusterVerdict
  eval_insufficient_evidence c rel =
      let blank = text_eq (trim_space c.shared_error) [] in
      let classless =
        not (is_assertion_class c.shared_error) && not (is_locator_class c.shared_error) in
      let message_gap =
        if blank then no_error_message ∷ [] else when_gap classless no_error_class in
      record {
        verdict = insufficient_evidence;
        confidence = low;
        evidence = phase_is c.failure_phase ∷ members c.member_count ∷ [];
        gaps = gaps_or_no_rule (
            message_gap
            ++ (when_gap (not (is_some c.shared_status_pattern)) no_status_pattern
                ++ when_gap (is_unknown rel) no_last_good));
      }

  abbrev pub or_verdict : Option ClusterVerdict → ClusterVerdict → ClusterVerdict
  or_verdict (some v) other = v
  or_verdict none other = other

  -- The rules in their order; the first that matches gives the verdict.
  unfoldable pub evaluate_cluster : DiagnoseCluster → List DiagnoseTest → Text → ClusterVerdict
  evaluate_cluster c ts build_sha =
      let (rel, sha) = last_good_commit_relation ts build_sha in
      or_verdict (eval_infra_env c.shared_status_pattern ts rel sha) (
        or_verdict (eval_known_issue c ts) (
          or_verdict (eval_product_regression c ts rel sha) (
            or_verdict (eval_test_bug c rel sha)
              (or_verdict (eval_flaky ts) (eval_insufficient_evidence c rel)))))
