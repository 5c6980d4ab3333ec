-- ===== src/Diagnose/Whole.antt =====
-- The end of the handler as a whole: no index is out of range, so there is always a verdict.
use alluredeck.Prelude.{
  ℕ, ◌≡◌, ◌≢◌, refl, sym, ◌∙◌, ap, subst, Option, none, some, List, [], ◌∷◌, map, arith, Text,
  length, All, Bool, true, false,
}
use alluredeck.Diagnose.{
  DiagnoseTest, DiagnoseCluster, BuildVerdict, ClusterVerdict, high, VerdictValue,
}
use alluredeck.Diagnose.Normalize.{Replacements, normalize_message}
use alluredeck.Diagnose.Build.{
  evaluate_build_verdict, roll_up, split_of, note_split, note_truncated,
}
use alluredeck.Diagnose.Cluster.{
  tag_group, cluster_of, first_test, build_clusters, sorted_groups, with_matches, KnownIssuePattern,
  test_key, diagnose,
}
use alluredeck.Diagnose.Partition.{sorted_groups-IsKeyGroup}
use alluredeck.Diagnose.Exact.{occurs_in, sorted_groups-occurs_in}
use alluredeck.Diagnose.Rollup.{roll_up-high}
use alluredeck.Diagnose.Members.{
  IsBelow, IsFrom, evaluate_build_verdict-some, length-tag_group, length-build_clusters, length-map,
  groups-IsBelow, member_count-cluster_of,
}

sorted_groups-nonempty :
    (key : DiagnoseTest → Text) (t : DiagnoseTest) (ts : List DiagnoseTest)
    → sorted_groups key (t ∷ ts) ≢ []
unfolding occurs_in
sorted_groups-nonempty key t ts e =
    absurd (ground (arith, ap (occurs_in 0) e, (sorted_groups-occurs_in key (t ∷ ts) 0).0))

affected-note_split :
    (o : Option (List (VerdictValue × ℕ))) (b : BuildVerdict) (truncated : Bool)
    → (note_truncated truncated (note_split o b)).affected_test_count ≡ b.affected_test_count
affected-note_split none b true = refl
affected-note_split none b false = refl
affected-note_split (some counts) b true = refl
affected-note_split (some counts) b false = refl

-- What the handler answers for the groups, of which `g` is the first.
abbrev pub Answers :
    (Text → Text)
    → List KnownIssuePattern
    → List DiagnoseTest
    → Text
    → Bool
    → List (List ℕ)
    → BuildVerdict
    → Type 0
Answers normalize patterns tests sha truncated [] b = ⊥
Answers normalize patterns tests sha truncated (g ∷ gs) b =
    IsFrom normalize (build_clusters 1 (g ∷ gs) tests).1
      (with_matches patterns (cluster_of 1 g tests (first_test g tests))) g sha truncated b
    × (b.affected_test_count ≡ length g)
    × (b.confidence ≡ high → truncated ≡ false)

roll_up-affected :
    (c : DiagnoseCluster) (v : ClusterVerdict) (vs : List ClusterVerdict) (truncated : Bool)
    → (roll_up c v vs truncated).affected_test_count ≡ c.member_count
unfolding roll_up
roll_up-affected c v vs truncated = affected-note_split (split_of (v ∷ vs)) _ truncated

IsFrom-high :
    (normalize : Text → Text) (tests : List DiagnoseTest) (c : DiagnoseCluster) (m : List ℕ)
    (sha : Text) (truncated : Bool) (b : BuildVerdict)
    → IsFrom normalize tests c m sha truncated b
    → b.confidence ≡ high
    → truncated ≡ false
IsFrom-high normalize tests c m sha truncated b from h =
    ((roll_up-high c _ from.others truncated).0
      (ap (λ (x : BuildVerdict). x.confidence) (sym from.is_rolled_up) ∙ h)).0

answer :
    (normalize : Text → Text) (patterns : List KnownIssuePattern) (tests : List DiagnoseTest)
    (sha : Text) (truncated : Bool) (gs : List (List ℕ))
    → gs ≢ []
    → All (IsBelow (length tests)) gs
    → (b : BuildVerdict) × (evaluate_build_verdict normalize
          (build_clusters 1 gs tests).1
          (map (with_matches patterns) (build_clusters 1 gs tests).0)
          gs
          sha
          truncated
        ≡ some b)
      × Answers normalize patterns tests sha truncated gs b
unfolding build_clusters
answer normalize patterns tests sha truncated [] e h = absurd (e refl)
answer normalize patterns tests sha truncated (g ∷ gs) e h =
    let (clusters, written) = length-build_clusters 2 gs (tag_group 1 g tests) in
    let (b, made, from) =
      evaluate_build_verdict-some normalize (build_clusters 1 (g ∷ gs) tests).1
        (with_matches patterns (cluster_of 1 g tests (first_test g tests)))
        (map (with_matches patterns) (build_clusters 2 gs (tag_group 1 g tests)).0) g gs sha
        truncated (length-map (with_matches patterns) _ ∙ clusters)
        (subst (λ (n : ℕ). All (IsBelow n) (g ∷ gs)) (sym (written ∙ length-tag_group 1 g tests))
          h) in
    (
      b,
      made,
      (
        from,
        ap (λ (x : BuildVerdict). x.affected_test_count) from.is_rolled_up
            ∙ roll_up-affected _ _ from.others truncated
            ∙ member_count-cluster_of 1 g tests (first_test g tests),
        IsFrom-high normalize _ _ g sha truncated b from,
      ),
    )

-- With a failing test there is a verdict, whatever the tests, the commit and the rules are: no
-- index of a cluster is out of range. The verdict is rolled up from that of the first cluster,
-- speaks for as many tests as are in it, and is not of high confidence when the diagnosis was
-- truncated.
pub diagnose-Answers :
    (r : Replacements) (digest : Text → Text) (patterns : List KnownIssuePattern) (t : DiagnoseTest)
    (ts : List DiagnoseTest) (sha : Text) (truncated : Bool)
    → (b : BuildVerdict) × ((diagnose r digest patterns (t ∷ ts) sha truncated).2 ≡ some b)
      × Answers
          (normalize_message r)
          patterns
          (t ∷ ts)
          sha
          truncated
          (sorted_groups (test_key (normalize_message r) digest) (t ∷ ts))
          b
unfolding diagnose
diagnose-Answers r digest patterns t ts sha truncated =
    let key = test_key (normalize_message r) digest in
    answer (normalize_message r) patterns (t ∷ ts) sha truncated (sorted_groups key (t ∷ ts))
      (sorted_groups-nonempty key t ts)
      (groups-IsBelow key (t ∷ ts) _ (sorted_groups-IsKeyGroup key (t ∷ ts)))
