-- ===== src/Diagnose/Basis.antt =====
-- What a verdict of a cluster rests on, and the rules of the environment and of known issues.
use alluredeck.Prelude.{
  leb, Bool, ◌≤◌, ◌≡◌, ◌≢◌, refl, inl, inr, ◌⊎◌, ◌↔◌, true, false, Option, none, some, List, [],
  ◌∷◌, ◌++◌, map, arith, Text, ltb, take, Bool-cases, all, any,
}
use alluredeck.Triage.{test_body}
use alluredeck.Diagnose.{
  VerdictValue, product_regression, test_bug, infra_env, known_issue, flaky, insufficient_evidence,
  high, medium, low, CommitRelation, unknown_commit, same_commit, different_commit,
  ClusterStatusPattern, DiagnoseTest, DiagnoseCluster, VerdictEvidence, ClusterVerdict,
  KnownIssueRegexMatch, known_issue_regex,
}
use alluredeck.Diagnose.Rules.{
  passed_last_build, count_hooks, eval_infra_env, link_evidence, eval_known_issue, worst_since_pass,
  infra_env_with, known_issue_verdict,
}
use alluredeck.Diagnose.Judge.{is_assertion_class, is_locator_class}

-- At most one build since the last pass, or in the whole history if there is no pass in it.
abbrev pub is_recent : DiagnoseTest → Bool
is_recent t = leb t.signals.builds_since_pass 1

pub worst_since_pass-recent :
    (ts : List DiagnoseTest) → worst_since_pass ts ≤ 1 → all is_recent ts ≡ true
unfolding worst_since_pass
worst_since_pass-recent [] h = refl
worst_since_pass-recent (t ∷ ts) h = ground (arith, worst_since_pass-recent ts)

-- What each value of a verdict rests on; `rel` is how the commit relates to the last-good one.
module _ (normalize : Text → Text) (c : DiagnoseCluster) (ts : List DiagnoseTest)
    (rel : CommitRelation) where
  -- No member is linked to a known issue and no rule of one matches.
  abbrev pub HasNoIssue : Type 0
  HasNoIssue = (link_evidence ts ≡ []) × (c.known_issue_regex_matches ≡ [])

  abbrev pub Basis : VerdictValue → ClusterVerdict → Type 0
  Basis infra_env v =
      (p : ClusterStatusPattern) × (c.shared_status_pattern ≡ some p)
      × (500 ≤ p.status_code)
      × (2 ≤ count_hooks ts)
      × (rel ≢ different_commit)
      × ((v.confidence ≡ high) ↔ (rel ≡ same_commit))
  Basis known_issue v =
      (v.confidence ≡ high) × ((link_evidence ts ≢ []) ⊎ (c.known_issue_regex_matches ≢ []))
  Basis product_regression v =
      (c.failure_phase ≡ test_body)
      × (is_assertion_class normalize c.shared_error ≡ true)
      × (all is_recent ts ≡ true)
      × (rel ≢ same_commit)
      × ((v.confidence ≡ high) ↔ (rel ≡ different_commit))
      × HasNoIssue
  Basis test_bug v =
      (c.failure_phase ≡ test_body)
      × (is_locator_class normalize c.shared_error ≡ true)
      × (rel ≢ different_commit)
      × (v.confidence ≡ medium)
      × HasNoIssue
  Basis flaky v =
      ((any (λ (t : DiagnoseTest). t.flaky) ts ≡ true) ⊎ (all passed_last_build ts ≡ true))
      × (v.confidence ≡ medium)
      × HasNoIssue
  Basis insufficient_evidence v = (v.gaps ≢ []) × (v.confidence ≡ low) × HasNoIssue

  abbrev pub Founded : Option ClusterVerdict → Type 0
  Founded none = Unit
  Founded (some v) = Basis v.verdict v

-- A found server error with two members in their hooks, by what is known of the commit.
infra_env_with-Founded :
    (normalize : Text → Text) (c : DiagnoseCluster) (ts : List DiagnoseTest) (rel : CommitRelation)
    (sha : Text) (p : ClusterStatusPattern)
    → c.shared_status_pattern ≡ some p
    → ltb p.status_code 500 ≡ false
    → ltb (count_hooks ts) 2 ≡ false
    → Founded normalize c ts rel (infra_env_with p (count_hooks ts) rel sha)
unfolding infra_env_with
infra_env_with-Founded normalize c ts unknown_commit sha p e server many =
    rw (server, many)
      (p, e, ground arith, ground arith, λ d. absurd (cc), (λ h. absurd (cc), λ h. absurd (cc)))
infra_env_with-Founded normalize c ts same_commit sha p e server many =
    rw (server, many) (p, e, ground arith, ground arith, λ d. absurd (cc), (λ h. refl, λ h. refl))
infra_env_with-Founded normalize c ts different_commit sha p e server many = rw (server, many) tt

pub eval_infra_env-Founded :
    (normalize : Text → Text) (c : DiagnoseCluster) (ts : List DiagnoseTest) (rel : CommitRelation)
    (sha : Text) (o : Option ClusterStatusPattern)
    → c.shared_status_pattern ≡ o
    → Founded normalize c ts rel (eval_infra_env o ts rel sha)
unfolding eval_infra_env infra_env_with
eval_infra_env-Founded normalize c ts rel sha none e = tt
eval_infra_env-Founded normalize c ts rel sha (some p) e =
    elim (Bool-cases (ltb p.status_code 500)) [
      | inl under ↦ rw under tt
      | inr server ↦ elim (Bool-cases (ltb (count_hooks ts) 2)) [
        | inl few ↦ rw (server, few) tt
        | inr many ↦ infra_env_with-Founded normalize c ts rel sha p e server many
      ]
    ]

known_issue_verdict-Founded :
    (normalize : Text → Text) (c : DiagnoseCluster) (ts : List DiagnoseTest) (rel : CommitRelation)
    (links : List VerdictEvidence) (found : List KnownIssueRegexMatch)
    → link_evidence ts ≡ links
    → c.known_issue_regex_matches ≡ found
    → Founded normalize c ts rel
        (known_issue_verdict (links ++ map known_issue_regex (take 3 found)))
known_issue_verdict-Founded normalize c ts rel [] [] l r = tt
known_issue_verdict-Founded normalize c ts rel [] (m ∷ ms) l r = (refl, inr (λ e. absurd (cc)))
known_issue_verdict-Founded normalize c ts rel (k ∷ ks) ms l r = (refl, inl (λ e. absurd (cc)))

known_issue_verdict-none :
    (links : List VerdictEvidence) (found : List KnownIssueRegexMatch)
    → known_issue_verdict (links ++ map known_issue_regex (take 3 found)) ≡ none
    → (links ≡ []) × (found ≡ [])
known_issue_verdict-none [] [] h = (refl, refl)
known_issue_verdict-none [] (m ∷ ms) h = absurd (cc)
known_issue_verdict-none (k ∷ ks) ms h = absurd (cc)

pub eval_known_issue-Founded :
    (normalize : Text → Text) (c : DiagnoseCluster) (ts : List DiagnoseTest) (rel : CommitRelation)
    → Founded normalize c ts rel (eval_known_issue c ts)
unfolding eval_known_issue
eval_known_issue-Founded normalize c ts rel =
    known_issue_verdict-Founded normalize c ts rel _ _ refl refl

-- Where the known-issue rule does not match there is no issue.
pub eval_known_issue-none :
    (normalize : Text → Text) (c : DiagnoseCluster) (ts : List DiagnoseTest) (rel : CommitRelation)
    → eval_known_issue c ts ≡ none
    → HasNoIssue normalize c ts rel
unfolding eval_known_issue
eval_known_issue-none normalize c ts rel h =
    known_issue_verdict-none (link_evidence ts) c.known_issue_regex_matches h
