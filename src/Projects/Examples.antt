-- ===== src/Projects/Examples.antt =====
-- Changes of a table of two projects.
use alluredeck.Prelude.{◌≡◌, refl, false, [], ◌∷◌, arith, codes, text_discrete}
use alluredeck.Prelude.Maps.{lookup, insert}
use native.Mathlib.Decide.{ℕ_discrete}
use alluredeck.Projects.{
  Projects, project_exists, done, failed, new_top, new_child, violates_unique, put_row, insert_row,
  insert_child, Faults,
}
use alluredeck.Projects.Rows.{IsTwoLevel}
use alluredeck.Projects.Requests.{
  creates, inserts_child, sets_key, requests_parent, requests_no_parent, renames, run,
  run-IsTwoLevel,
}
use alluredeck.Projects.Creation.{insert_child-blocks, insert_child-own_parent}

abbrev shop : Projects
shop = (1, new_top (codes "shop")) ∷ []

-- The shop while its first child is created.
abbrev creating : Projects
creating = (1, new_top (codes "shop")) ∷ (2, new_child (codes "cart") 1) ∷ []

abbrev up : Faults
up = record { get_down = false; children_down = false; update_down = false }

empty-IsTwoLevel : IsTwoLevel []
unfolding lookup
empty-IsTwoLevel id p q found child = absurd (cc)

run-IsTwoLevel_example : IsTwoLevel (
    run
      (creates false 1 (codes "shop")
        ∷ inserts_child false 2 (codes "cart") 1
        ∷ requests_parent up 1 2
        ∷ sets_key false 2
        ∷ renames false 1 (codes "store")
        ∷ requests_no_parent up 2
        ∷ [])
      [])
run-IsTwoLevel_example =
    run-IsTwoLevel
      (creates false 1 (codes "shop")
        ∷ inserts_child false 2 (codes "cart") 1
        ∷ requests_parent up 1 2
        ∷ sets_key false 2
        ∷ renames false 1 (codes "store")
        ∷ requests_no_parent up 2
        ∷ [])
      [] (tt, ((λ e. absurd (omega (arith, e))), (tt, (tt, (tt, (tt, tt)))))) empty-IsTwoLevel

insert_child-blocks_example :
    insert_child false 3 (codes "login") 1 creating ≡ failed project_exists
unfolding insert_child insert_row put_row violates_unique lookup insert text_discrete ℕ_discrete
insert_child-blocks_example =
    insert_child-blocks false 2 (codes "cart") 1 shop creating 3 (codes "login") 1 refl
      (λ e. absurd (omega (arith, e))) refl

insert_child-own_parent_example :
    (insert_child false 2 (codes "cart") 2 shop
      ≡ done (insert ℕ_discrete 2 (new_child (codes "cart") 2) shop))
    × ¬ IsTwoLevel (insert ℕ_discrete 2 (new_child (codes "cart") 2) shop)
unfolding violates_unique lookup text_discrete ℕ_discrete
insert_child-own_parent_example = insert_child-own_parent 2 (codes "cart") shop refl refl
