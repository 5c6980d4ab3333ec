-- ===== src/Diagnose/Members.antt =====
-- The members of the clusters are found: no index is out of range.
use alluredeck.Prelude.{
  ℕ, zero, suc, ◌+◌, ◌≤◌, ◌<◌, ◌≡◌, refl, sym, ◌∙◌, subst, Option, none, some, List, [], ◌∷◌, map,
  arith, Text, text_discrete, length, get_elem?, All, ite, Bool,
}
use alluredeck.Diagnose.{DiagnoseTest, DiagnoseCluster, BuildVerdict, ClusterVerdict}
use alluredeck.Diagnose.Build.{member_tests, cluster_verdicts, evaluate_build_verdict, roll_up}
use alluredeck.Diagnose.Judge.{evaluate_cluster}
use alluredeck.Diagnose.Cluster.{modify_at, strip_all, tag_group, cluster_of, build_clusters}
use alluredeck.Diagnose.Partition.{positions, IsKeyGroup}

abbrev pub IsBelow : ℕ → List ℕ → Type 0
IsBelow n is = All (λ (i : ℕ). i < n) is

get_elem?-some {ℓ} :
    {A : Type ℓ} (xs : List A) (i : ℕ) → i < length xs → (x : A) × (get_elem? xs i ≡ some x)
get_elem?-some [] i h = absurd (ground arith)
get_elem?-some (x ∷ xs) zero h = (x, refl)
get_elem?-some (x ∷ xs) (suc i) h = get_elem?-some xs i (omega (arith, h))

member_tests-some :
    (tests : List DiagnoseTest) (is : List ℕ)
    → IsBelow (length tests) is
    → (ts : List DiagnoseTest) × (member_tests tests is ≡ some ts)
unfolding member_tests
member_tests-some tests [] h = ([], refl)
member_tests-some tests (i ∷ is) h =
    let (t, found) = get_elem?-some tests i h.0 in
    let (ts, rest) = member_tests-some tests is h.1 in (t ∷ ts, rw (found, rest) refl)

cluster_verdicts-some :
    (normalize : Text → Text) (tests : List DiagnoseTest) (cs : List DiagnoseCluster)
    (ms : List (List ℕ)) (sha : Text)
    → length cs ≡ length ms
    → All (IsBelow (length tests)) ms
    → (vs : List ClusterVerdict) × (cluster_verdicts normalize tests cs ms sha ≡ some vs)
unfolding cluster_verdicts
cluster_verdicts-some normalize tests [] ms sha e h = ([], refl)
cluster_verdicts-some normalize tests (c ∷ cs) [] sha e h = absurd (omega (arith, e))
cluster_verdicts-some normalize tests (c ∷ cs) (m ∷ ms) sha e h =
    let (ts, found) = member_tests-some tests m h.0 in
    let (vs, rest) = cluster_verdicts-some normalize tests cs ms sha (omega (arith, e)) h.1 in
    (evaluate_cluster normalize c ts sha ∷ vs, rw (found, rest) refl)

-- A verdict that is rolled up from the cluster `c` with the members `m`.
pub record IsFrom (normalize : Text → Text) (tests : List DiagnoseTest) (c : DiagnoseCluster)
    (m : List ℕ) (sha : Text) (truncated : Bool) (b : BuildVerdict) : Type 0 where
  pub members : List DiagnoseTest
  pub others : List ClusterVerdict
  pub are_members : member_tests tests m ≡ some members
  pub is_rolled_up : b ≡ roll_up c (evaluate_cluster normalize c members sha) others truncated

pub evaluate_build_verdict-some :
    (normalize : Text → Text) (tests : List DiagnoseTest) (c : DiagnoseCluster)
    (cs : List DiagnoseCluster) (m : List ℕ) (ms : List (List ℕ)) (sha : Text) (truncated : Bool)
    → length cs ≡ length ms
    → All (IsBelow (length tests)) (m ∷ ms)
    → (b : BuildVerdict) × (evaluate_build_verdict normalize tests (c ∷ cs) (m ∷ ms) sha truncated
        ≡ some b)
      × IsFrom normalize tests c m sha truncated b
unfolding evaluate_build_verdict cluster_verdicts
evaluate_build_verdict-some normalize tests c cs m ms sha truncated e h =
    let (ts, found) = member_tests-some tests m h.0 in
    let (vs, rest) = cluster_verdicts-some normalize tests cs ms sha e h.1 in
    (
      roll_up c (evaluate_cluster normalize c ts sha) vs truncated,
      rw (found, rest) refl,
      record { members = ts; others = vs; are_members = found; is_rolled_up = refl },
    )

length-modify_at :
    (i : ℕ) (f : DiagnoseTest → DiagnoseTest) (ts : List DiagnoseTest)
    → length (modify_at i f ts) ≡ length ts
unfolding modify_at
length-modify_at i f [] = refl
length-modify_at zero f (t ∷ ts) = refl
length-modify_at (suc i) f (t ∷ ts) = omega (arith, length-modify_at i f ts)

length-strip_all :
    (id : ℕ) (is : List ℕ) (ts : List DiagnoseTest) → length (strip_all id is ts) ≡ length ts
unfolding strip_all
length-strip_all id [] ts = refl
length-strip_all id (i ∷ is) ts = length-strip_all id is _ ∙ length-modify_at i _ ts

pub length-tag_group :
    (id : ℕ) (is : List ℕ) (ts : List DiagnoseTest) → length (tag_group id is ts) ≡ length ts
unfolding tag_group
length-tag_group id [] ts = refl
length-tag_group id (i ∷ is) ts = length-strip_all id is _ ∙ length-modify_at i _ ts

pub length-build_clusters :
    (n : ℕ) (gs : List (List ℕ)) (ts : List DiagnoseTest)
    → (length (build_clusters n gs ts).0 ≡ length gs)
      × (length (build_clusters n gs ts).1 ≡ length ts)
unfolding build_clusters
length-build_clusters n [] ts = (refl, refl)
length-build_clusters n (g ∷ gs) ts =
    let (clusters, tests) = length-build_clusters (n + 1) gs (tag_group n g ts) in
    (omega (arith, clusters), tests ∙ length-tag_group n g ts)

pub length-map {ℓ κ} :
    {A : Type ℓ} {B : Type κ} (f : A → B) (xs : List A) → length (map f xs) ≡ length xs
length-map f [] = refl
length-map f (x ∷ xs) = omega (arith, length-map f xs)

IsBelow-larger : (m n : ℕ) (is : List ℕ) → m ≤ n → IsBelow m is → IsBelow n is
IsBelow-larger m n [] le h = tt
IsBelow-larger m n (i ∷ is) le h = (omega (arith, le, h.0), IsBelow-larger m n is le h.1)

positions-IsBelow :
    (key : DiagnoseTest → Text) (k : Text) (n : ℕ) (ts : List DiagnoseTest)
    → IsBelow (n + length ts) (positions key k n ts)
unfolding positions
positions-IsBelow key k n [] = tt
positions-IsBelow key k n (t ∷ ts) =
    elim (text_discrete (key t) k)
      as (λ (d : Dec (key t ≡ k)).
        IsBelow (n + suc (length ts))
          (ite d (n ∷ positions key k (n + 1) ts) (positions key k (n + 1) ts))) [
            | yes same ↦ (
              omega arith,
              IsBelow-larger (n + 1 + length ts) (n + suc (length ts)) (positions key k (n + 1) ts)
                  (omega arith) (positions-IsBelow key k (n + 1) ts),
            )
            | no other ↦
                IsBelow-larger (n + 1 + length ts) (n + suc (length ts))
                  (positions key k (n + 1) ts) (omega arith) (positions-IsBelow key k (n + 1) ts)
          ]

pub groups-IsBelow :
    (key : DiagnoseTest → Text) (tests : List DiagnoseTest) (gs : List (List ℕ))
    → All (IsKeyGroup key tests) gs
    → All (IsBelow (length tests)) gs
groups-IsBelow key tests [] h = tt
groups-IsBelow key tests (g ∷ gs) h = (
  subst (IsBelow (length tests)) (sym h.0.1) (
      IsBelow-larger (0 + length tests) (length tests) (positions key h.0.0 0 tests) (omega arith)
        (positions-IsBelow key h.0.0 0 tests)),
  groups-IsBelow key tests gs h.1,
)

pub member_count-cluster_of :
    (n : ℕ) (g : List ℕ) (ts : List DiagnoseTest) (o : Option DiagnoseTest)
    → (cluster_of n g ts o).member_count ≡ length g
unfolding cluster_of
member_count-cluster_of n g ts none = refl
member_count-cluster_of n g ts (some t) = refl
