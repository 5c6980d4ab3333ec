-- ===== src/Diagnose/Examples.antt =====
-- Diagnoses of small builds, with messages that need no normalising and keys that are not digested.
use alluredeck.Prelude.{◌≡◌, false, Option, none, some, List, [], ◌∷◌, Text, codes, All}
use alluredeck.Prelude.Ints.{pos}
use alluredeck.Triage.{StatusPattern, before_hooks, test_body, single, low, heuristic, Phase}
use alluredeck.Diagnose.{
  DiagnoseTest, DiagnoseCluster, ClusterVerdict, BuildVerdict, infra_env, test_bug, high, medium,
}
use alluredeck.Diagnose.Normalize.{Replacements, normalize_message}
use alluredeck.Diagnose.Rules.{last_good_commit_relation}
use alluredeck.Diagnose.Judge.{evaluate_cluster}
use alluredeck.Diagnose.Cluster.{sorted_groups, test_key, diagnose}
use alluredeck.Diagnose.Basis.{Basis}
use alluredeck.Diagnose.Support.{evaluate_cluster-Basis}
use alluredeck.Diagnose.Partition.{IsKeyGroup, sorted_groups-IsKeyGroup}
use alluredeck.Diagnose.Whole.{Answers, diagnose-Answers}

abbrev as_is : Text → Text
as_is msg = msg

abbrev failing : Text → Text → Phase → Option StatusPattern → DiagnoseTest
failing name message phase pattern = record {
  full_name = name;
  signals = record {
    fast_fail = record {
      fast_fail = false;
      duration_ms = pos 9;
      last_passing_duration_ms = none;
      duration_ratio = none;
    };
    failure_phase = phase;
    retry_consistency = single;
    repeated_status_pattern = pattern;
    last_status = codes "failed";
    builds_since_pass = 1;
    category_hint = record { value = []; confidence = low; source = heuristic };
  };
  known_issue = none;
  last_good = some (codes "abc");
  flaky = false;
  error_message = message;
  failed_step_path = [];
  cluster_id = 0;
}

abbrev gateway : Option StatusPattern
gateway =
    some (record { status_code = 502; endpoint = codes "/api"; same_status_across_retries = false })

abbrev login_test : DiagnoseTest
login_test = failing (codes "login") (codes "502") before_hooks gateway

abbrev cart_test : DiagnoseTest
cart_test = failing (codes "cart") (codes "locator") test_body none

abbrev order_test : DiagnoseTest
order_test = failing (codes "order") (codes "502") before_hooks gateway

abbrev build_tests : List DiagnoseTest
build_tests = cart_test ∷ login_test ∷ order_test ∷ []

abbrev gateway_cluster : DiagnoseCluster
gateway_cluster = record {
  id = 1;
  member_count = 2;
  member_full_names = codes "login" ∷ codes "order" ∷ [];
  representative_full_name = codes "login";
  shared_error = codes "502";
  failure_phase = before_hooks;
  shared_status_pattern = some (record { status_code = 502; endpoint = codes "/api" });
  known_issue_regex_matches = [];
}

abbrev environment : ClusterVerdict
environment = record { verdict = infra_env; confidence = high; evidence = []; gaps = [] }

abbrev broken_test : ClusterVerdict
broken_test = record { verdict = test_bug; confidence = medium; evidence = []; gaps = [] }

evaluate_cluster-Basis_example :
    Basis as_is gateway_cluster
      (login_test ∷ order_test ∷ [])
      (last_good_commit_relation (login_test ∷ order_test ∷ []) (codes "abc")).0
      (evaluate_cluster as_is gateway_cluster (login_test ∷ order_test ∷ []) (codes "abc")).verdict
      (evaluate_cluster as_is gateway_cluster (login_test ∷ order_test ∷ []) (codes "abc"))
evaluate_cluster-Basis_example =
    evaluate_cluster-Basis as_is gateway_cluster (login_test ∷ order_test ∷ []) (codes "abc")

sorted_groups-IsKeyGroup_example :
    All
      (IsKeyGroup (test_key as_is as_is) build_tests)
      (sorted_groups (test_key as_is as_is) build_tests)
sorted_groups-IsKeyGroup_example = sorted_groups-IsKeyGroup (test_key as_is as_is) build_tests

abbrev no_replacement : Replacements
no_replacement = record {
  ip = as_is;
  uuid = as_is;
  iso8601 = as_is;
  unix_ts = as_is;
  hex = as_is;
  abs_path = as_is;
  long_digit = as_is;
}

diagnose-Answers_example :
    (b : BuildVerdict) × ((diagnose no_replacement as_is [] build_tests (codes "abc") false).2
      ≡ some b)
    × Answers
        (normalize_message no_replacement)
        []
        build_tests
        (codes "abc")
        false
        (sorted_groups (test_key (normalize_message no_replacement) as_is) build_tests)
        b
diagnose-Answers_example =
    diagnose-Answers no_replacement as_is [] cart_test (login_test ∷ order_test ∷ []) (codes "abc")
      false
