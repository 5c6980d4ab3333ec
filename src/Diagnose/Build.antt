-- ===== src/Diagnose/Build.antt =====
-- The verdict of a build, rolled up from those of its clusters.
use alluredeck.Prelude.{
  ℕ, ◌+◌, Bool, true, false, Option, none, some, List, [], ◌∷◌, ◌++◌, Text, if◌then◌else◌,
  get_elem?, is_yes,
}
use alluredeck.Diagnose.{
  VerdictValue, VerdictValue-discrete, product_regression, test_bug, infra_env, known_issue,
  insufficient_evidence, Confidence, high, medium, low, Action, file_bug, fix_test, rerun,
  link_known_issue, human_needed, DiagnoseTest, DiagnoseCluster, verdict_split, no_failing_tests,
  truncated_diagnosis, BuildVerdict, ClusterVerdict,
}
use alluredeck.Diagnose.Judge.{evaluate_cluster}

abbrev pub cons_found {ℓ} : {A : Type ℓ} → Option A → Option (List A) → Option (List A)
cons_found none xs = none
cons_found (some x) none = none
cons_found (some x) (some xs) = some (x ∷ xs)

unfoldable pub member_tests : List DiagnoseTest → List ℕ → Option (List DiagnoseTest)
member_tests tests [] = some []
member_tests tests (i ∷ idx) = cons_found (get_elem? tests i) (member_tests tests idx)

-- The counts in the order of first appearance.
unfoldable pub bump : VerdictValue → List (VerdictValue × ℕ) → List (VerdictValue × ℕ)
bump v [] = (v, 1) ∷ []
bump v ((w, n) ∷ rest) =
    let bumped = bump v rest in
    if is_yes (VerdictValue-discrete v w) then (w, n + 1) ∷ rest else (w, n) ∷ bumped

unfoldable pub tally : List (VerdictValue × ℕ) → List ClusterVerdict → List (VerdictValue × ℕ)
tally counts [] = counts
tally counts (v ∷ vs) = tally (bump v.verdict counts) vs

abbrev pub when_two : List (VerdictValue × ℕ) → Option (List (VerdictValue × ℕ))
when_two [] = none
when_two (p ∷ []) = none
when_two (p ∷ q ∷ rest) = some (p ∷ q ∷ rest)

unfoldable pub split_of : List ClusterVerdict → Option (List (VerdictValue × ℕ))
split_of [] = none
split_of (v ∷ []) = none
split_of (v ∷ w ∷ vs) = when_two (tally [] (v ∷ w ∷ vs))

abbrev pub cap_confidence : Confidence → Confidence
cap_confidence high = medium
cap_confidence c = c

unfoldable pub recommended_action : VerdictValue → Action
recommended_action infra_env = rerun
recommended_action known_issue = link_known_issue
recommended_action product_regression = file_bug
recommended_action test_bug = fix_test
recommended_action _ = human_needed

abbrev nothing_examined : BuildVerdict
nothing_examined = record {
  verdict = insufficient_evidence;
  confidence = low;
  evidence = [];
  evidence_gaps = no_failing_tests ∷ [];
  recommended_action = human_needed;
  affected_test_count = 0;
}

abbrev pub note_split : Option (List (VerdictValue × ℕ)) → BuildVerdict → BuildVerdict
note_split none b = b
note_split (some counts) b = record b {
  evidence = b.evidence ++ verdict_split counts ∷ [];
  confidence = cap_confidence b.confidence;
}

abbrev pub note_truncated : Bool → BuildVerdict → BuildVerdict
note_truncated false b = b
note_truncated true b = record b {
  confidence = cap_confidence b.confidence;
  evidence_gaps = b.evidence_gaps ++ truncated_diagnosis ∷ [];
}

unfoldable pub roll_up :
    DiagnoseCluster → ClusterVerdict → List ClusterVerdict → Bool → BuildVerdict
roll_up c v vs truncated = note_truncated truncated (
    note_split (split_of (v ∷ vs)) (record {
      verdict = v.verdict;
      confidence = v.confidence;
      evidence = v.evidence;
      evidence_gaps = v.gaps;
      recommended_action = recommended_action v.verdict;
      affected_test_count = c.member_count;
    }))

abbrev pub roll_up_found :
    List DiagnoseCluster → Bool → Option (List ClusterVerdict) → Option BuildVerdict
roll_up_found (c ∷ cs) truncated (some (v ∷ vs)) = some (roll_up c v vs truncated)
roll_up_found _ truncated _ = none

module _ (normalize : Text → Text) where
  abbrev pub judge : DiagnoseCluster → Text → Option (List DiagnoseTest) → Option ClusterVerdict
  judge c sha none = none
  judge c sha (some ts) = some (evaluate_cluster normalize c ts sha)

  unfoldable pub cluster_verdicts :
      List DiagnoseTest → List DiagnoseCluster → List (List ℕ) → Text → Option (List ClusterVerdict)
  cluster_verdicts tests [] members sha = some []
  cluster_verdicts tests (c ∷ cs) [] sha = none
  cluster_verdicts tests (c ∷ cs) (m ∷ ms) sha =
      cons_found (judge c sha (member_tests tests m)) (cluster_verdicts tests cs ms sha)

  unfoldable pub evaluate_build_verdict :
      List DiagnoseTest → List DiagnoseCluster → List (List ℕ) → Text → Bool → Option BuildVerdict
  evaluate_build_verdict tests [] members sha truncated = some nothing_examined
  evaluate_build_verdict tests (c ∷ cs) members sha truncated =
      roll_up_found (c ∷ cs) truncated (cluster_verdicts tests (c ∷ cs) members sha)
