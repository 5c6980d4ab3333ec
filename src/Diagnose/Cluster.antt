-- ===== src/Diagnose/Cluster.antt =====
-- Grouping the failing tests: clusterFailingTests, clusterKey, sharedStatusPattern and the known-issue
-- matcher. The map of keys to slots and the slots are one association list, in the order of the
-- slots. The indices read here are the group's own, which are in range (Partition); a
-- group without a first test, at which the code would panic, has a cluster of empty fields.
use alluredeck.Prelude.{
  ℕ, zero, suc, ◌+◌, Bool, true, false, ◌&&◌, Option, none, some, List, [], ◌∷◌, ◌++◌, map, Text,
  text_eq, codes, text_discrete, ltb, ◌==◌, if◌then◌else◌, length, take, get_elem?,
}
use alluredeck.Prelude.Maps.{lookup, insert}
use alluredeck.Prelude.Texts.{trim_space}
use alluredeck.Triage.{
  Phase, before_hooks, setup_fixture, test_body, after_hooks, other_phase, StatusPattern,
}
use alluredeck.Diagnose.{
  DiagnoseTest, DiagnoseCluster, ClusterStatusPattern, KnownIssueRegexMatch, BuildVerdict,
}
use alluredeck.Diagnose.Normalize.{Replacements, normalize_message}
use alluredeck.Diagnose.Build.{evaluate_build_verdict}

abbrev pub phase_text : Phase → Text
phase_text before_hooks = codes "before_hooks"
phase_text setup_fixture = codes "setup_fixture"
phase_text test_body = codes "test_body"
phase_text after_hooks = codes "after_hooks"
phase_text other_phase = []

abbrev pub last_step : List Text → Text
last_step [] = []
last_step (s ∷ []) = s
last_step (s ∷ t ∷ path) = last_step (t ∷ path)

module _ (normalize digest : Text → Text) where
  unfoldable pub cluster_key : Text → Text → Text → Text
  cluster_key message phase step =
      let msg = normalize (trim_space message) in
      let shown = if text_eq (trim_space msg) [] then codes "(no error message)" else msg in
      digest (shown ++ 0 ∷ phase ++ 0 ∷ step)

  unfoldable pub test_key : DiagnoseTest → Text
  test_key t =
      cluster_key t.error_message (phase_text t.signals.failure_phase)
        (last_step t.failed_step_path)

abbrev pub Slots : Type 0
Slots = List (Text × List ℕ)

abbrev pub or_empty : Option (List ℕ) → List ℕ
or_empty none = []
or_empty (some group) = group

abbrev pub slot_at : Text → Slots → List ℕ
slot_at key slots = or_empty (lookup text_discrete key slots)

-- The test goes into the slot of its key, which is new at the end if the key is.
unfoldable pub add_to_slot : Text → ℕ → Slots → Slots
add_to_slot key i slots = insert text_discrete key (slot_at key slots ++ i ∷ []) slots

unfoldable pub group_from : (DiagnoseTest → Text) → Slots → ℕ → List DiagnoseTest → Slots
group_from key slots i [] = slots
group_from key slots i (t ∷ ts) = group_from key (add_to_slot (key t) i slots) (i + 1) ts

abbrev pub groups_of : Slots → List (List ℕ)
groups_of [] = []
groups_of ((k, group) ∷ slots) = group ∷ groups_of slots

-- The stable sort by length, longest first.
unfoldable pub insert_group : List ℕ → List (List ℕ) → List (List ℕ)
insert_group g [] = g ∷ []
insert_group g (h ∷ hs) =
    let rest = insert_group g hs in if ltb (length g) (length h) then h ∷ rest else g ∷ h ∷ hs

unfoldable pub sort_groups : List (List ℕ) → List (List ℕ)
sort_groups [] = []
sort_groups (g ∷ gs) = insert_group g (sort_groups gs)

abbrev pub same_pattern : StatusPattern → Option StatusPattern → Bool
same_pattern p none = false
same_pattern p (some q) = q.status_code == p.status_code && text_eq q.endpoint p.endpoint

abbrev pub pattern_at : List DiagnoseTest → ℕ → Option StatusPattern
pattern_at tests i = elim (get_elem? tests i) [
  | some t ↦ t.signals.repeated_status_pattern
  | none ↦ none
]

unfoldable pub all_agree : StatusPattern → List DiagnoseTest → List ℕ → Bool
all_agree p tests [] = true
all_agree p tests (i ∷ idx) = same_pattern p (pattern_at tests i) && all_agree p tests idx

agreed_pattern : Option StatusPattern → List DiagnoseTest → List ℕ → Option ClusterStatusPattern
agreed_pattern none tests others = none
agreed_pattern (some p) tests others =
    if all_agree p tests others
    then some (record { status_code = p.status_code; endpoint = p.endpoint })
    else none

-- A group is not empty.
unfoldable pub shared_status_pattern : List DiagnoseTest → List ℕ → Option ClusterStatusPattern
unfolding agreed_pattern
shared_status_pattern tests [] = none
shared_status_pattern tests (i ∷ others) = agreed_pattern (pattern_at tests i) tests others

abbrev pub full_names : List DiagnoseTest → List ℕ → List Text
full_names tests [] = []
full_names tests (i ∷ idx) = elim (get_elem? tests i) [
  | some t ↦ t.full_name ∷ full_names tests idx
  | none ↦ full_names tests idx
]

-- A member carries the id of its cluster, and all but the representative lose their text.
abbrev tagged : ℕ → DiagnoseTest → DiagnoseTest
tagged id t = record t { cluster_id = id }

abbrev stripped : ℕ → DiagnoseTest → DiagnoseTest
stripped id t = record t { cluster_id = id; error_message = []; failed_step_path = [] }

unfoldable pub modify_at : ℕ → (DiagnoseTest → DiagnoseTest) → List DiagnoseTest → List DiagnoseTest
modify_at i f [] = []
modify_at zero f (t ∷ ts) = f t ∷ ts
modify_at (suc i) f (t ∷ ts) = t ∷ modify_at i f ts

unfoldable pub strip_all : ℕ → List ℕ → List DiagnoseTest → List DiagnoseTest
strip_all id [] tests = tests
strip_all id (i ∷ idx) tests = strip_all id idx (modify_at i (stripped id) tests)

unfoldable pub tag_group : ℕ → List ℕ → List DiagnoseTest → List DiagnoseTest
tag_group id [] tests = tests
tag_group id (i ∷ others) tests = strip_all id others (modify_at i (tagged id) tests)

unfoldable pub cluster_of : ℕ → List ℕ → List DiagnoseTest → Option DiagnoseTest → DiagnoseCluster
cluster_of id group tests none = record {
  id = id;
  member_count = length group;
  member_full_names = [];
  representative_full_name = [];
  shared_error = [];
  failure_phase = other_phase;
  shared_status_pattern = none;
  known_issue_regex_matches = [];
}
cluster_of id group tests (some rep) = record {
  id = id;
  member_count = length group;
  member_full_names = full_names tests group;
  representative_full_name = rep.full_name;
  shared_error = rep.error_message;
  failure_phase = rep.signals.failure_phase;
  shared_status_pattern = shared_status_pattern tests group;
  known_issue_regex_matches = [];
}

abbrev pub first_test : List ℕ → List DiagnoseTest → Option DiagnoseTest
first_test [] tests = none
first_test (i ∷ others) tests = get_elem? tests i

-- The clusters numbered from `n` on, and the tests with the ids written.
unfoldable pub build_clusters :
    ℕ → List (List ℕ) → List DiagnoseTest → List DiagnoseCluster × List DiagnoseTest
build_clusters n [] tests = ([], tests)
build_clusters n (g ∷ gs) tests =
    let (clusters, written) = build_clusters (n + 1) gs (tag_group n g tests) in
    (cluster_of n g tests (first_test g tests) ∷ clusters, written)

abbrev pub sorted_groups : (DiagnoseTest → Text) → List DiagnoseTest → List (List ℕ)
sorted_groups key tests = sort_groups (groups_of (group_from key [] 0 tests))

-- An active known-issue rule whose pattern compiled: `find` is its first match in a text.
pub record KnownIssuePattern : Type 0 where
  pub issue_id : ℕ
  pub name : Text
  pub find : Text → Option Text

unfoldable pub matches_in : Text → List KnownIssuePattern → List KnownIssueRegexMatch
matches_in msg [] = []
matches_in msg (p ∷ ps) = elim (p.find msg) [
  | none ↦ matches_in msg ps
  | some found ↦
      record { known_issue_id = p.issue_id; name = p.name; matched_substring = found }
      ∷ matches_in msg ps
]

-- The scan ends at the fifth match.
unfoldable pub match_issues : List KnownIssuePattern → Text → List KnownIssueRegexMatch
match_issues patterns msg = if text_eq msg [] then [] else take 5 (matches_in msg patterns)

abbrev pub with_matches : List KnownIssuePattern → DiagnoseCluster → DiagnoseCluster
with_matches patterns c = record c {
  known_issue_regex_matches = match_issues patterns c.shared_error;
}

-- The end of the diagnose_failure handler: the clusters, the tests as they are then reported, and the
-- verdict.
unfoldable pub diagnose :
    Replacements
    → (Text → Text)
    → List KnownIssuePattern
    → List DiagnoseTest
    → Text
    → Bool
    → List DiagnoseCluster × List DiagnoseTest × Option BuildVerdict
diagnose r digest patterns tests sha truncated =
    let groups = sorted_groups (test_key (normalize_message r) digest) tests in
    let (clusters, written) = build_clusters 1 groups tests in
    let matched = map (with_matches patterns) clusters in
    (
      matched,
      written,
      evaluate_build_verdict (normalize_message r) written matched groups sha truncated,
    )
