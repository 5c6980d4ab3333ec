-- ===== src/Projects/Levels.antt =====
-- The statements keep projects on two levels.
use alluredeck.Prelude.{
  ℕ, ◌≡◌, ◌≢◌, refl, sym, ◌∙◌, ap, subst, inl, inr, Bool, true, false, Option, none, some, Text,
  is_some, Bool-cases, Option-cases,
}
use alluredeck.Prelude.Maps.{insert, lookup-insert_ne}
use native.Mathlib.Decide.{ℕ_discrete}
use alluredeck.Projects.{
  Project, Projects, ProjectError, project_exists, database, Outcome, done, failed, find,
  violates_unique, is_child, nests, refers, put_row, insert_row, create_project, insert_child,
  set_parent, clear_parent, has_children, update_parent, new_top, new_child,
}
use alluredeck.Projects.Rows.{IsTwoLevel, has_children-find, HasNoChild, insert-top, insert-child}

has_children-HasNoChild : (id : ℕ) (ps : Projects) → has_children id ps ≡ false → HasNoChild id ps
unfolding HasNoChild
has_children-HasNoChild id ps h x px found = has_children-find id x px ps h found

-- The outcome of a statement keeps the levels.
abbrev pub KeepsLevels : Outcome → Type 0
KeepsLevels (done ps) = IsTwoLevel ps
KeepsLevels (failed e) = Unit

put_row-done :
    (clash : ProjectError) (id : ℕ) (p : Project) (ps : Projects)
    → (nests p.parent ps ≡ false
        → refers p.parent (insert ℕ_discrete id p ps) ≡ true
        → IsTwoLevel (insert ℕ_discrete id p ps))
    → KeepsLevels (put_row clash id p ps)
unfolding put_row
put_row-done clash id p ps h = elim (Bool-cases (nests p.parent ps)) [
  | inl nested ↦ rw nested tt
  | inr flat ↦ elim (Bool-cases (violates_unique id p ps)) [
    | inl twice ↦ rw (flat, twice) tt
    | inr once ↦ elim (Bool-cases (refers p.parent (insert ℕ_discrete id p ps))) [
      | inl there ↦ rw (flat, once, there) (h flat there)
      | inr missing ↦ rw (flat, once, missing) tt
    ]
  ]
]

pub is_some-true {ℓ} : {A : Type ℓ} (o : Option A) → is_some o ≡ true → o ≢ none
is_some-true none h e = absurd (cc)
is_some-true (some a) h e = absurd (cc)

is_some-false {ℓ} : {A : Type ℓ} (o : Option A) → is_some o ≡ false → o ≡ none
is_some-false none h = refl
is_some-false (some a) h = absurd (cc)

-- A row is put below a parent that the statement finds.
put_row-below :
    (clash : ProjectError) (id : ℕ) (p : Project) (ps : Projects) (q : ℕ)
    → p.parent ≡ some q
    → q ≢ id
    → HasNoChild id ps
    → IsTwoLevel ps
    → KeepsLevels (put_row clash id p ps)
put_row-below clash id p ps q child apart childless two = put_row-done clash id p ps (λ flat there.
    elim (Option-cases (find q ps)) [
      | inl missing ↦ absurd (
          is_some-true (find q (insert ℕ_discrete id p ps))
            (subst (λ (o : Option ℕ). refers o (insert ℕ_discrete id p ps) ≡ true) child there)
            (lookup-insert_ne ℕ_discrete id q p ps (λ e. apart (sym e)) ∙ missing))
      | inr (r, found) ↦
          insert-child id p ps q r child apart found
            (is_some-false r.parent
              (sym (ap is_child found) ∙ subst (λ (o : Option ℕ). nests o ps ≡ false) child flat))
            childless two
    ])

-- A row that is not there has no children.
fresh-HasNoChild : (id : ℕ) (ps : Projects) → find id ps ≡ none → IsTwoLevel ps → HasNoChild id ps
unfolding HasNoChild
fresh-HasNoChild id ps fresh two x px found e =
    let (r, row, top) = two x px id found e in is_some-true (find id ps) (ap is_some row) fresh

abbrev KeepsWhereFresh : ℕ → Project → Projects → Type 0
KeepsWhereFresh id p ps = find id ps ≡ none → KeepsLevels (put_row project_exists id p ps)

insert_row-KeepsLevels :
    (down : Bool) (id : ℕ) (p : Project) (ps : Projects)
    → KeepsWhereFresh id p ps
    → KeepsLevels (insert_row down id p ps)
unfolding insert_row
insert_row-KeepsLevels true id p ps h = tt
insert_row-KeepsLevels false id p ps h = elim (Bool-cases (is_some (find id ps))) [
  | inl taken ↦ rw taken tt
  | inr fresh ↦ rw fresh (h (is_some-false (find id ps) fresh))
]

pub create_project-KeepsLevels :
    (down : Bool) (id : ℕ) (slug : Text) (ps : Projects)
    → IsTwoLevel ps
    → KeepsLevels (create_project down id slug ps)
unfolding create_project
create_project-KeepsLevels down id slug ps two =
    insert_row-KeepsLevels down id (new_top slug) ps (λ fresh.
      put_row-done project_exists id (new_top slug) ps
        (λ flat there. insert-top id (new_top slug) ps refl two))

pub insert_child-KeepsLevels :
    (down : Bool) (id : ℕ) (slug : Text) (parent : ℕ) (ps : Projects)
    → parent ≢ id
    → IsTwoLevel ps
    → KeepsLevels (insert_child down id slug parent ps)
unfolding insert_child
insert_child-KeepsLevels down id slug parent ps apart two =
    insert_row-KeepsLevels down id (new_child slug parent) ps (λ fresh.
      put_row-below project_exists id (new_child slug parent) ps parent refl apart
        (fresh-HasNoChild id ps fresh two) two)

pub set_parent-KeepsLevels :
    (down : Bool) (id parent : ℕ) (ps : Projects)
    → parent ≢ id
    → has_children id ps ≡ false
    → IsTwoLevel ps
    → KeepsLevels (set_parent down id parent ps)
unfolding set_parent update_parent
set_parent-KeepsLevels true id parent ps apart childless two = tt
set_parent-KeepsLevels false id parent ps apart childless two = elim (Option-cases (find id ps)) [
  | inl missing ↦ rw missing tt
  | inr (p, found) ↦ rw found (
      put_row-below database id _ ps parent refl apart (has_children-HasNoChild id ps childless)
        two)
]

pub clear_parent-KeepsLevels :
    (down : Bool) (id : ℕ) (ps : Projects) → IsTwoLevel ps → KeepsLevels (clear_parent down id ps)
unfolding clear_parent update_parent
clear_parent-KeepsLevels true id ps two = tt
clear_parent-KeepsLevels false id ps two = elim (Option-cases (find id ps)) [
  | inl missing ↦ rw missing tt
  | inr (p, found) ↦
      rw found (put_row-done database id _ ps (λ flat there. insert-top id _ ps refl two))
]
