-- ===== src/Projects/Creation.antt =====
-- What the creation of a child leaves open.
use alluredeck.Prelude.{
  ℕ, ◌≡◌, ◌≢◌, refl, sym, ◌∙◌, ap, subst, Bool, true, false, none, some, [], ◌∷◌, arith, Text, ◌==◌,
  if◌then◌else◌, is_some, Bool-cases, ite, inl, inr,
}
use alluredeck.Prelude.Maps.{lookup, insert, lookup-insert_self}
use native.Mathlib.Decide.{ℕ_discrete}
use alluredeck.Projects.{
  StorageKey, by_id, same_key, Project, Projects, ProjectError, project_exists, Outcome, done,
  failed, find, collides, violates_unique, nests, is_child, put_row, insert_row, new_child,
  insert_child,
}
use alluredeck.Projects.Rows.{IsTwoLevel}

same_key-zero : (k : StorageKey) → k ≡ by_id 0 → same_key (by_id 0) k ≡ true
same_key-zero k e = subst (λ (x : StorageKey). same_key (by_id 0) x ≡ true) (sym e) refl

violates_unique-find :
    (id j : ℕ) (p q : Project) (ps : Projects)
    → j ≢ id
    → collides p q ≡ true
    → find j ps ≡ some q
    → violates_unique id p ps ≡ true
unfolding violates_unique lookup
violates_unique-find id j p q [] apart clash found = absurd (cc)
violates_unique-find id j p q ((k, r) ∷ ps) apart clash found =
    elim (ℕ_discrete k j)
        as (λ (d : Dec (k ≡ j)).
          ite d (some r) (lookup ℕ_discrete j ps) ≡ some q
          → violates_unique id p ((k, r) ∷ ps) ≡ true) [
            | yes same ↦ λ here.
                let row : r ≡ q = ground (arith, here) in
                let also : collides p r ≡ true =
                  subst (λ (x : Project). collides p x ≡ true) (sym row) clash in
                let other : (k == id) ≡ false = ground (arith, apart, same) in rw (other, also) refl
            | no other ↦
                λ there. rw (violates_unique-find id j p q ps apart clash there) (ground arith)
          ]
      found

put_row-found :
    (clash : ProjectError) (id : ℕ) (p : Project) (ps ps' : Projects)
    → put_row clash id p ps ≡ done ps'
    → insert ℕ_discrete id p ps ≡ ps'
unfolding put_row
put_row-found clash id p ps ps' h = ground (arith, h)

unless-done :
    (taken : Bool) (e : ProjectError) (o : Outcome) (ps' : Projects)
    → (if taken then failed e else o) ≡ done ps'
    → o ≡ done ps'
unless-done true e o ps' h = absurd (cc)
unless-done false e o ps' h = h

insert_child-found :
    (down : Bool) (id : ℕ) (slug : Text) (parent : ℕ) (ps ps' : Projects)
    → insert_child down id slug parent ps ≡ done ps'
    → find id ps' ≡ some (new_child slug parent)
unfolding insert_child insert_row
insert_child-found true id slug parent ps ps' h = absurd (cc)
insert_child-found false id slug parent ps ps' h =
    subst (λ (t : Projects). find id t ≡ some (new_child slug parent))
      (put_row-found project_exists id (new_child slug parent) ps ps'
        (unless-done (is_some (find id ps)) project_exists _ ps' h))
      (lookup-insert_self ℕ_discrete id (new_child slug parent) ps)

collides-new_child :
    (slug slug' : Text) (parent parent' : ℕ)
    → collides (new_child slug parent) (new_child slug' parent') ≡ true
collides-new_child slug slug' parent parent' = ground arith

-- After the first statement of a child's creation and before its second one no other child can be
-- created: with any slug, below any parent that is not itself a child, the store answers that the
-- project exists already.
pub insert_child-blocks :
    (down : Bool) (id : ℕ) (slug : Text) (parent : ℕ) (ps ps' : Projects) (id' : ℕ) (slug' : Text)
    (parent' : ℕ)
    → insert_child down id slug parent ps ≡ done ps'
    → id ≢ id'
    → nests (some parent') ps' ≡ false
    → insert_child false id' slug' parent' ps' ≡ failed project_exists
unfolding insert_child insert_row put_row
insert_child-blocks down id slug parent ps ps' id' slug' parent' h apart flat =
    elim (Bool-cases (is_some (find id' ps'))) [
      | inl taken ↦ rw taken refl
      | inr fresh ↦
          rw
            (
              fresh,
              flat,
              violates_unique-find id' id (new_child slug' parent') (new_child slug parent) ps'
                  apart (collides-new_child slug' slug parent' parent)
                  (insert_child-found down id slug parent ps ps' h),
            )
            refl
    ]

-- A child whose given parent is the id that the sequence assigns next is created as its own parent,
-- and the projects no longer stand on two levels.
pub insert_child-own_parent :
    (id : ℕ) (slug : Text) (ps : Projects)
    → find id ps ≡ none
    → violates_unique id (new_child slug id) ps ≡ false
    → (insert_child false id slug id ps ≡ done (insert ℕ_discrete id (new_child slug id) ps))
      × ¬ IsTwoLevel (insert ℕ_discrete id (new_child slug id) ps)
unfolding insert_child insert_row put_row
insert_child-own_parent id slug ps fresh once =
    let own = lookup-insert_self ℕ_discrete id (new_child slug id) ps in
    (
      rw (fresh, once, own) refl,
      λ two.
          let (r, found, top) = two id (new_child slug id) id own refl in
          (let both : true ≡ false =
              sym (ap is_child own) ∙ ap is_child found ∙ ap (is_some {A = ℕ}) top in
            absurd (cc)),
    )
