-- ===== src/Diagnose/Rules.antt =====
-- The rules that judge one cluster.
use alluredeck.Prelude.{
  ℕ, ◌+◌, Bool, true, false, ◌&&◌, Option, none, some, List, [], ◌∷◌, ◌++◌, map, Text, text_eq,
  codes, ltb, ◌==◌, if◌then◌else◌, length, take, all, max,
}
use alluredeck.Triage.{Phase, before_hooks, test_body, status_passed}
use alluredeck.Triage.Analyze.{is_before_hooks}
use alluredeck.Diagnose.{
  infra_env, known_issue, flaky, high, medium, CommitRelation, unknown_commit, same_commit,
  different_commit, ClusterStatusPattern, DiagnoseTest, DiagnoseCluster, VerdictEvidence,
  phase_times, shared_status, commit_unchanged, known_issue_link, known_issue_regex, flaky_flag,
  history_alternation, EvidenceGap, unchanged_unconfirmed, no_rule_matched, ClusterVerdict,
}

abbrev pub is_test_body : Phase → Bool
is_test_body test_body = true
is_test_body _ = false

abbrev pub is_different : CommitRelation → Bool
is_different different_commit = true
is_different _ = false

abbrev pub is_same : CommitRelation → Bool
is_same same_commit = true
is_same _ = false

abbrev pub is_unknown : CommitRelation → Bool
is_unknown unknown_commit = true
is_unknown _ = false

abbrev compare_commit : Text → Text → CommitRelation × Text
compare_commit sha build_sha =
    if text_eq sha build_sha then (same_commit, sha) else (different_commit, sha)

abbrev pub commit_or_empty : Option Text → Text
commit_or_empty none = []
commit_or_empty (some sha) = sha

-- The first member with a recorded commit decides.
unfoldable pub relation_of : List DiagnoseTest → Text → CommitRelation × Text
relation_of [] build_sha = (unknown_commit, [])
relation_of (t ∷ ts) build_sha =
    let sha = commit_or_empty t.last_good in
    let rest = relation_of ts build_sha in
    if text_eq sha [] then rest else compare_commit sha build_sha

unfoldable pub last_good_commit_relation : List DiagnoseTest → Text → CommitRelation × Text
last_good_commit_relation ts build_sha =
    if text_eq build_sha [] then (unknown_commit, []) else relation_of ts build_sha

unfoldable pub count_hooks : List DiagnoseTest → ℕ
count_hooks [] = 0
count_hooks (t ∷ ts) =
    let n = count_hooks ts in if is_before_hooks t.signals.failure_phase then n + 1 else n

-- `infra_env`, once the status pattern is there.
unfoldable pub infra_env_with :
    ClusterStatusPattern → ℕ → CommitRelation → Text → Option ClusterVerdict
infra_env_with p hooks rel sha =
    let found = phase_times before_hooks hooks ∷ shared_status p ∷ [] in
    if ltb p.status_code 500
    then none
    else (if ltb hooks 2
        then none
        else (if is_different rel
            then none
            else some (
                if is_same rel
                then record {
                  verdict = infra_env;
                  confidence = high;
                  evidence = found ++ commit_unchanged sha ∷ [];
                  gaps = [];
                }
                else record {
                  verdict = infra_env;
                  confidence = medium;
                  evidence = found;
                  gaps = unchanged_unconfirmed ∷ [];
                })))

unfoldable pub eval_infra_env :
    Option ClusterStatusPattern → List DiagnoseTest → CommitRelation → Text → Option ClusterVerdict
unfolding infra_env_with
eval_infra_env none ts rel sha = none
eval_infra_env (some p) ts rel sha = infra_env_with p (count_hooks ts) rel sha

unfoldable pub link_evidence : List DiagnoseTest → List VerdictEvidence
link_evidence [] = []
link_evidence (t ∷ ts) = elim t.known_issue [
  | some ki ↦ known_issue_link ki t.full_name ∷ []
  | none ↦ link_evidence ts
]

abbrev pub known_issue_verdict : List VerdictEvidence → Option ClusterVerdict
known_issue_verdict [] = none
known_issue_verdict (e ∷ es) =
    some (record { verdict = known_issue; confidence = high; evidence = e ∷ es; gaps = [] })

-- Three matches are quoted at most.
unfoldable pub eval_known_issue : DiagnoseCluster → List DiagnoseTest → Option ClusterVerdict
eval_known_issue c ts =
    known_issue_verdict
      (link_evidence ts ++ map known_issue_regex (take 3 c.known_issue_regex_matches))

unfoldable pub worst_since_pass : List DiagnoseTest → ℕ
worst_since_pass [] = 0
worst_since_pass (t ∷ ts) = max t.signals.builds_since_pass (worst_since_pass ts)

abbrev pub assertion_class_markers : List Text
assertion_class_markers =
    codes "expect("
    ∷ codes "expected"
    ∷ codes "assert"
    ∷ codes "tobe"
    ∷ codes "tocontain"
    ∷ codes "toequal"
    ∷ codes "tohave"
    ∷ codes "tomatch"
    ∷ []

abbrev pub locator_class_markers : List Text
locator_class_markers =
    codes "locator"
    ∷ codes "selector"
    ∷ codes "getby"
    ∷ codes "queryselector"
    ∷ codes "element not found"
    ∷ codes "element is not visible"
    ∷ codes "element not interactable"
    ∷ codes "no element"
    ∷ codes "stale element"
    ∷ codes "nosuchelement"
    ∷ codes "waiting for element"
    ∷ codes "wait_for_selector"
    ∷ []

abbrev pub passed_last_build : DiagnoseTest → Bool
passed_last_build t =
    text_eq t.signals.last_status status_passed && t.signals.builds_since_pass == 0

unfoldable pub first_flaky : List DiagnoseTest → Option Text
first_flaky [] = none
first_flaky (t ∷ ts) = let rest = first_flaky ts in if t.flaky then some t.full_name else rest

unfoldable pub flaky_without_flag : List DiagnoseTest → Option ClusterVerdict
flaky_without_flag [] = none
flaky_without_flag (t ∷ ts) =
    if all passed_last_build (t ∷ ts)
    then some (record {
      verdict = flaky;
      confidence = medium;
      evidence = history_alternation (length (t ∷ ts)) ∷ [];
      gaps = [];
    })
    else none

abbrev pub flaky_by : Option Text → List DiagnoseTest → Option ClusterVerdict
flaky_by (some name) ts =
    some
      (record { verdict = flaky; confidence = medium; evidence = flaky_flag name ∷ []; gaps = [] })
flaky_by none ts = flaky_without_flag ts

unfoldable pub eval_flaky : List DiagnoseTest → Option ClusterVerdict
eval_flaky ts = flaky_by (first_flaky ts) ts

abbrev pub when_gap : Bool → EvidenceGap → List EvidenceGap
when_gap true g = g ∷ []
when_gap false g = []

abbrev pub gaps_or_no_rule : List EvidenceGap → List EvidenceGap
gaps_or_no_rule [] = no_rule_matched ∷ []
gaps_or_no_rule (g ∷ gs) = g ∷ gs
