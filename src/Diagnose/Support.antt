-- ===== src/Diagnose/Support.antt =====
-- Every verdict of a cluster has its basis.
use alluredeck.Prelude.{
  ◌≡◌, ◌≢◌, refl, inl, inr, subst, true, false, not, ◌||◌, Option, none, some, List, [], ◌∷◌, arith,
  Text, ltb, Bool-cases, Option-cases, all, any,
}
use alluredeck.Triage.{Phase, before_hooks, setup_fixture, test_body, after_hooks, other_phase}
use alluredeck.Diagnose.{
  insufficient_evidence, CommitRelation, unknown_commit, same_commit, different_commit,
  DiagnoseTest, DiagnoseCluster, EvidenceGap, ClusterVerdict,
}
use alluredeck.Diagnose.Rules.{
  gaps_or_no_rule, first_flaky, is_test_body, passed_last_build, last_good_commit_relation,
  eval_infra_env, eval_known_issue, worst_since_pass, eval_flaky, flaky_without_flag,
}
use alluredeck.Diagnose.Judge.{
  is_assertion_class, is_locator_class, eval_product_regression, eval_test_bug,
  eval_insufficient_evidence, evaluate_cluster, or_verdict,
}
use alluredeck.Diagnose.Basis.{
  HasNoIssue, Basis, Founded, eval_infra_env-Founded, eval_known_issue-Founded,
  eval_known_issue-none, worst_since_pass-recent,
}

is_test_body-true : (p : Phase) → not (is_test_body p) ≡ false → p ≡ test_body
is_test_body-true test_body h = refl
is_test_body-true before_hooks h = absurd (cc)
is_test_body-true setup_fixture h = absurd (cc)
is_test_body-true after_hooks h = absurd (cc)
is_test_body-true other_phase h = absurd (cc)

product_regression-Founded :
    (normalize : Text → Text) (c : DiagnoseCluster) (ts : List DiagnoseTest) (rel : CommitRelation)
    (sha : Text)
    → HasNoIssue normalize c ts rel
    → (not (is_test_body c.failure_phase) || not (is_assertion_class normalize c.shared_error))
      ≡ false
    → ltb 1 (worst_since_pass ts) ≡ false
    → Founded normalize c ts rel (eval_product_regression normalize c ts rel sha)
unfolding eval_product_regression
product_regression-Founded normalize c ts unknown_commit sha quiet asserts fresh =
    rw (asserts, fresh)
      (
        is_test_body-true c.failure_phase (ground arith),
        ground arith,
        worst_since_pass-recent ts (ground arith),
        λ d. absurd (cc),
        (λ h. absurd (cc), λ h. absurd (cc)),
        quiet,
      )
product_regression-Founded normalize c ts same_commit sha quiet asserts fresh =
    rw (asserts, fresh) tt
product_regression-Founded normalize c ts different_commit sha quiet asserts fresh =
    rw (asserts, fresh)
      (
        is_test_body-true c.failure_phase (ground arith),
        ground arith,
        worst_since_pass-recent ts (ground arith),
        λ d. absurd (cc),
        (λ h. refl, λ h. refl),
        quiet,
      )

eval_product_regression-Founded :
    (normalize : Text → Text) (c : DiagnoseCluster) (ts : List DiagnoseTest) (rel : CommitRelation)
    (sha : Text)
    → HasNoIssue normalize c ts rel
    → Founded normalize c ts rel (eval_product_regression normalize c ts rel sha)
unfolding eval_product_regression
eval_product_regression-Founded normalize c ts rel sha quiet =
    elim (Bool-cases
      (not (is_test_body c.failure_phase) || not (is_assertion_class normalize c.shared_error))) [
        | inl other ↦ rw other tt
        | inr asserts ↦ elim (Bool-cases (ltb 1 (worst_since_pass ts))) [
          | inl long ↦ rw (asserts, long) tt
          | inr fresh ↦ product_regression-Founded normalize c ts rel sha quiet asserts fresh
        ]
      ]

test_bug-Founded :
    (normalize : Text → Text) (c : DiagnoseCluster) (ts : List DiagnoseTest) (rel : CommitRelation)
    (sha : Text)
    → HasNoIssue normalize c ts rel
    → (not (is_test_body c.failure_phase) || not (is_locator_class normalize c.shared_error))
      ≡ false
    → Founded normalize c ts rel (eval_test_bug normalize c rel sha)
unfolding eval_test_bug
test_bug-Founded normalize c ts unknown_commit sha quiet locates =
    rw locates (
      is_test_body-true c.failure_phase (ground arith),
      ground arith,
      λ d. absurd (cc),
      refl,
      quiet,
    )
test_bug-Founded normalize c ts same_commit sha quiet locates =
    rw locates (
      is_test_body-true c.failure_phase (ground arith),
      ground arith,
      λ d. absurd (cc),
      refl,
      quiet,
    )
test_bug-Founded normalize c ts different_commit sha quiet locates = rw locates tt

eval_test_bug-Founded :
    (normalize : Text → Text) (c : DiagnoseCluster) (ts : List DiagnoseTest) (rel : CommitRelation)
    (sha : Text)
    → HasNoIssue normalize c ts rel
    → Founded normalize c ts rel (eval_test_bug normalize c rel sha)
unfolding eval_test_bug
eval_test_bug-Founded normalize c ts rel sha quiet =
    elim (Bool-cases
      (not (is_test_body c.failure_phase) || not (is_locator_class normalize c.shared_error))) [
        | inl other ↦ rw other tt
        | inr locates ↦ test_bug-Founded normalize c ts rel sha quiet locates
      ]

-- A member whose name the flaky rule reports is flaky.
first_flaky-some :
    (ts : List DiagnoseTest) (name : Text)
    → first_flaky ts ≡ some name
    → any (λ (t : DiagnoseTest). t.flaky) ts ≡ true
unfolding first_flaky
first_flaky-some [] name h = absurd (cc)
first_flaky-some (t ∷ ts) name h = elim (Bool-cases t.flaky) [
  | inl flagged ↦ rw flagged refl
  | inr steady ↦ ground (arith, first_flaky-some ts name)
]

flaky_without_flag-Founded :
    (normalize : Text → Text) (c : DiagnoseCluster) (ts : List DiagnoseTest) (rel : CommitRelation)
    → HasNoIssue normalize c ts rel
    → Founded normalize c ts rel (flaky_without_flag ts)
unfolding flaky_without_flag
flaky_without_flag-Founded normalize c [] rel quiet = tt
flaky_without_flag-Founded normalize c (t ∷ ts) rel quiet =
    elim (Bool-cases (all passed_last_build (t ∷ ts))) [
      | inl passed ↦ rw passed (inr passed, refl, quiet)
      | inr failed ↦ rw failed tt
    ]

eval_flaky-Founded :
    (normalize : Text → Text) (c : DiagnoseCluster) (ts : List DiagnoseTest) (rel : CommitRelation)
    → HasNoIssue normalize c ts rel
    → Founded normalize c ts rel (eval_flaky ts)
unfolding eval_flaky
eval_flaky-Founded normalize c ts rel quiet = elim (Option-cases (first_flaky ts)) [
  | inl unflagged ↦ rw unflagged (flaky_without_flag-Founded normalize c ts rel quiet)
  | inr (name, flagged) ↦ rw flagged (inl (first_flaky-some ts name flagged), refl, quiet)
]

gaps_or_no_rule-nonempty : (gs : List EvidenceGap) → gaps_or_no_rule gs ≢ []
gaps_or_no_rule-nonempty [] e = absurd (cc)
gaps_or_no_rule-nonempty (g ∷ gs) e = absurd (cc)

eval_insufficient_evidence-Founded :
    (normalize : Text → Text) (c : DiagnoseCluster) (ts : List DiagnoseTest) (rel : CommitRelation)
    → HasNoIssue normalize c ts rel
    → Basis normalize c ts rel insufficient_evidence (eval_insufficient_evidence normalize c rel)
unfolding eval_insufficient_evidence
eval_insufficient_evidence-Founded normalize c ts rel quiet =
    (gaps_or_no_rule-nonempty _, refl, quiet)

or_verdict-Basis :
    (normalize : Text → Text) (c : DiagnoseCluster) (ts : List DiagnoseTest) (rel : CommitRelation)
    (o : Option ClusterVerdict) (v : ClusterVerdict)
    → Founded normalize c ts rel o
    → Basis normalize c ts rel v.verdict v
    → Basis normalize c ts rel (or_verdict normalize o v).verdict (or_verdict normalize o v)
or_verdict-Basis normalize c ts rel none v first second = second
or_verdict-Basis normalize c ts rel (some w) v first second = first

-- The verdict of a cluster always rests on what its value claims, where the code has changed or not by
-- the last-good commit of the first member that has one: infra_env on a shared server error, two
-- members in their hooks and code not known to have changed; product_regression on a failing body, an
-- assertion, code not known unchanged, and no member with more than one build since its last pass, or
-- in its whole history where it never passed; and so for every value. These two have high confidence
-- exactly where the commit was compared, and test_bug and flaky never have it.
pub evaluate_cluster-Basis :
    (normalize : Text → Text) (c : DiagnoseCluster) (ts : List DiagnoseTest) (sha : Text)
    → Basis normalize c ts
        (last_good_commit_relation ts sha).0
        (evaluate_cluster normalize c ts sha).verdict
        (evaluate_cluster normalize c ts sha)
unfolding evaluate_cluster eval_insufficient_evidence
evaluate_cluster-Basis normalize c ts sha =
    let (rel, good) = last_good_commit_relation ts sha in
    elim (Option-cases (eval_infra_env c.shared_status_pattern ts rel good)) [
      | inr (v, infra) ↦ rw infra (
          subst (Founded normalize c ts rel) infra
            (eval_infra_env-Founded normalize c ts rel good _ refl))
      | inl no_infra ↦ elim (Option-cases (eval_known_issue c ts)) [
        | inr (v, issue) ↦
            rw (no_infra, issue)
              (subst (Founded normalize c ts rel) issue
                (eval_known_issue-Founded normalize c ts rel))
        | inl no_issue ↦
            rw (no_infra, no_issue)
              (or_verdict-Basis normalize c ts rel (eval_product_regression normalize c ts rel good)
                _
                (eval_product_regression-Founded normalize c ts rel good
                  (eval_known_issue-none normalize c ts rel no_issue))
                (or_verdict-Basis normalize c ts rel (eval_test_bug normalize c rel good) _
                  (eval_test_bug-Founded normalize c ts rel good
                    (eval_known_issue-none normalize c ts rel no_issue))
                  (or_verdict-Basis normalize c ts rel (eval_flaky ts) _
                    (eval_flaky-Founded normalize c ts rel
                      (eval_known_issue-none normalize c ts rel no_issue))
                    (eval_insufficient_evidence-Founded normalize c ts rel
                      (eval_known_issue-none normalize c ts rel no_issue)))))
      ]
    ]
