-- ===== src/Diagnose.antt =====
-- The clusters and the build verdict of diagnose_failure: api/internal/mcp/tools/diagnose_cluster.go and
-- diagnose_verdict.go, with the key of api/internal/runner/cluster.go. A test has the fields that these
-- read or write. An evidence or gap text is kept as the data that it prints, a cluster id as its number
-- (0 for no id yet). A slice index out of range, which panics, is none, and a cluster whose first test
-- is none has empty fields. A normalised message is the parameter `normalize` below the handler, which
-- takes runner.NormalizeMessage for it; the digest of a key is `digest`.
pub mod Normalize
pub mod Rules
pub mod Judge
pub mod Cluster
pub mod Partition
pub mod Exact
pub mod Members
pub mod Whole
pub mod Build
pub mod Rollup
pub mod Basis
pub mod Support
mod Examples
use alluredeck.Prelude.{ℕ, Bool, true, false, Option, List, Text}
use alluredeck.Triage.{Phase, Signals}

pub data VerdictValue : Type 0 where
  product_regression test_bug infra_env known_issue flaky insufficient_evidence : VerdictValue

unfoldable pub VerdictValue-discrete : Discrete VerdictValue
VerdictValue-discrete = hlevel

pub data Confidence : Type 0 where
  high medium low : Confidence

pub data Action : Type 0 where
  file_bug fix_test rerun link_known_issue human_needed : Action

-- Whether the code changed since the last pass.
pub data CommitRelation : Type 0 where
  unknown_commit same_commit different_commit : CommitRelation

pub record KnownIssueRef : Type 0 where
  pub id : ℕ
  pub name : Text

pub record KnownIssueRegexMatch : Type 0 where
  pub known_issue_id : ℕ
  pub name : Text
  pub matched_substring : Text

pub record ClusterStatusPattern : Type 0 where
  pub status_code : ℕ
  pub endpoint : Text

-- `last_good` is the commit of the last-good build, if there is one; it may be empty.
pub record DiagnoseTest : Type 0 where
  pub full_name : Text
  pub signals : Signals
  pub known_issue : Option KnownIssueRef
  pub last_good : Option Text
  pub flaky : Bool
  pub error_message : Text
  pub failed_step_path : List Text
  pub cluster_id : ℕ

pub record DiagnoseCluster : Type 0 where
  pub id : ℕ
  pub member_count : ℕ
  pub member_full_names : List Text
  pub representative_full_name : Text
  pub shared_error : Text
  pub failure_phase : Phase
  pub shared_status_pattern : Option ClusterStatusPattern
  pub known_issue_regex_matches : List KnownIssueRegexMatch

pub data VerdictEvidence : Type 0 where
  phase_times : Phase → ℕ → VerdictEvidence
  phase_is : Phase → VerdictEvidence
  shared_status : ClusterStatusPattern → VerdictEvidence
  commit_unchanged : Text → VerdictEvidence
  commit_changed : Text → VerdictEvidence
  known_issue_link : KnownIssueRef → Text → VerdictEvidence
  known_issue_regex : KnownIssueRegexMatch → VerdictEvidence
  assertion_class : VerdictEvidence
  locator_class : VerdictEvidence
  since_pass : ℕ → VerdictEvidence
  flaky_flag : Text → VerdictEvidence
  history_alternation : ℕ → VerdictEvidence
  members : ℕ → VerdictEvidence
  verdict_split : List (VerdictValue × ℕ) → VerdictEvidence

pub data EvidenceGap : Type 0 where
  no_failing_tests unchanged_unconfirmed change_unconfirmed no_error_message : EvidenceGap
  no_error_class no_status_pattern no_last_good no_rule_matched truncated_diagnosis : EvidenceGap

pub record BuildVerdict : Type 0 where
  pub verdict : VerdictValue
  pub confidence : Confidence
  pub evidence : List VerdictEvidence
  pub evidence_gaps : List EvidenceGap
  pub recommended_action : Action
  pub affected_test_count : ℕ

pub record ClusterVerdict : Type 0 where
  pub verdict : VerdictValue
  pub confidence : Confidence
  pub evidence : List VerdictEvidence
  pub gaps : List EvidenceGap
