-- ===== src/Diagnose/Exact.antt =====
-- Each failing test stands in one cluster.
use alluredeck.Prelude.{
  ℕ, ◌+◌, ◌≡◌, refl, some, List, [], ◌∷◌, ◌++◌, arith, Text, text_discrete, if◌then◌else◌, ltb, leb,
  ◌==◌, length, ite,
}
use alluredeck.Prelude.Maps.{lookup, insert}
use alluredeck.Diagnose.{DiagnoseTest}
use alluredeck.Diagnose.Cluster.{
  Slots, or_empty, slot_at, add_to_slot, group_from, groups_of, insert_group, sort_groups,
  sorted_groups,
}
use alluredeck.Diagnose.Partition.{Descends, sort_groups-Descends}

-- How often a position stands in the groups.
unfoldable pub occurs : ℕ → List ℕ → ℕ
occurs i [] = 0
occurs i (j ∷ js) = let rest = occurs i js in if i == j then rest + 1 else rest

unfoldable pub occurs_in : ℕ → List (List ℕ) → ℕ
occurs_in i [] = 0
occurs_in i (g ∷ gs) = occurs i g + occurs_in i gs

occurs-append : (i : ℕ) (xs ys : List ℕ) → occurs i (xs ++ ys) ≡ occurs i xs + occurs i ys
unfolding occurs
occurs-append i [] ys = omega arith
occurs-append i (x ∷ xs) ys = ground (arith, occurs-append i xs ys)

occurs_in-insert_group :
    (i : ℕ) (g : List ℕ) (gs : List (List ℕ))
    → occurs_in i (insert_group g gs) ≡ occurs i g + occurs_in i gs
unfolding insert_group occurs_in
occurs_in-insert_group i g [] = omega arith
occurs_in-insert_group i g (h ∷ hs) = ground (arith, occurs_in-insert_group i g hs)

occurs_in-sort_groups : (i : ℕ) (gs : List (List ℕ)) → occurs_in i (sort_groups gs) ≡ occurs_in i gs
unfolding sort_groups occurs_in
occurs_in-sort_groups i [] = refl
occurs_in-sort_groups i (g ∷ gs) =
    omega (arith, occurs_in-insert_group i g (sort_groups gs), occurs_in-sort_groups i gs)

abbrev one_at : ℕ → ℕ → ℕ
one_at i j = if i == j then 1 else 0

occurs_in-insert :
    (i j : ℕ) (k : Text) (slots : Slots)
    → occurs_in i (groups_of (insert text_discrete k (slot_at k slots ++ j ∷ []) slots))
      ≡ occurs_in i (groups_of slots) + one_at i j
unfolding occurs_in occurs insert lookup
occurs_in-insert i j k [] = ground arith
occurs_in-insert i j k ((q, g) ∷ slots) =
    elim (text_discrete q k)
      as (λ (d : Dec (q ≡ k)).
        occurs_in i (
          groups_of (
            ite d ((q, or_empty (ite d (some g) (lookup text_discrete k slots)) ++ j ∷ []) ∷ slots)
              ((q, g)
                ∷ insert text_discrete k
                    (or_empty (ite d (some g) (lookup text_discrete k slots)) ++ j ∷ []) slots)))
        ≡ occurs i g + occurs_in i (groups_of slots) + one_at i j) [
          | yes same ↦ ground (arith, occurs-append i g (j ∷ []))
          | no other ↦ omega (arith, occurs_in-insert i j k slots)
        ]

-- A position in the list.
abbrev pub within : ℕ → ℕ → ℕ → ℕ
within i n m = if leb n i then (if ltb i (n + m) then 1 else 0) else 0

occurs_in-group_from :
    (i : ℕ) (key : DiagnoseTest → Text) (slots : Slots) (n : ℕ) (ts : List DiagnoseTest)
    → occurs_in i (groups_of (group_from key slots n ts))
      ≡ occurs_in i (groups_of slots) + within i n (length ts)
unfolding group_from add_to_slot
occurs_in-group_from i key slots n [] = ground arith
occurs_in-group_from i key slots n (t ∷ ts) = ground (
  arith,
  occurs_in-group_from i key (add_to_slot (key t) n slots) (n + 1) ts,
  occurs_in-insert i n (key t) slots,
)

-- Every failing test is in exactly one cluster, and no position is out of range; the largest cluster
-- is first.
pub sorted_groups-occurs_in :
    (key : DiagnoseTest → Text) (tests : List DiagnoseTest) (i : ℕ)
    → (occurs_in i (sorted_groups key tests) ≡ (if ltb i (length tests) then 1 else 0))
      × Descends (sorted_groups key tests)
unfolding occurs_in
sorted_groups-occurs_in key tests i = (
  ground (
    arith,
    occurs_in-sort_groups i (groups_of (group_from key [] 0 tests)),
    occurs_in-group_from i key [] 0 tests,
  ),
  sort_groups-Descends (groups_of (group_from key [] 0 tests)),
)
