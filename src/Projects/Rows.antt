-- ===== src/Projects/Rows.antt =====
-- Which rows may be written for projects to stay on two levels.
use alluredeck.Prelude.{
  ℕ, ◌≡◌, ◌≢◌, sym, ◌∙◌, ap, subst, inl, inr, ◌⊎◌, false, Option, none, some, [], ◌∷◌, arith,
  Option-cases, ite,
}
use alluredeck.Prelude.Maps.{lookup, insert, lookup-insert, lookup-insert_self, lookup-insert_ne}
use native.Mathlib.Decide.{ℕ_discrete}
use alluredeck.Projects.{Project, Projects, find, has_children}

-- The parent of a project is in the table and has no parent.
abbrev pub IsTwoLevel : Projects → Type 0
IsTwoLevel ps =
    (id : ℕ) (p : Project) (q : ℕ)
    → find id ps ≡ some p
    → p.parent ≡ some q
    → (r : Project) × (find q ps ≡ some r) × (r.parent ≡ none)

pub has_children-find :
    (id j : ℕ) (p : Project) (ps : Projects)
    → has_children id ps ≡ false
    → find j ps ≡ some p
    → p.parent ≢ some id
unfolding has_children lookup
has_children-find id j p [] none_has found = absurd (cc)
has_children-find id j p ((k, q) ∷ ps) none_has found =
    elim (ℕ_discrete k j)
        as (λ (d : Dec (k ≡ j)).
          ite d (some q) (lookup ℕ_discrete j ps) ≡ some p → p.parent ≢ some id) [
            | yes same ↦ λ here e. absurd (ground (arith, here, e))
            | no other ↦ λ there. has_children-find id j p ps (ground arith) there
          ]
      found

-- What is found after a row is written.
find-insert :
    (id x : ℕ) (p px : Project) (ps : Projects)
    → find x (insert ℕ_discrete id p ps) ≡ some px
    → ((id ≡ x) × (p ≡ px)) ⊎ ((id ≢ x) × (find x ps ≡ some px))
find-insert id x p px ps found =
    elim (ℕ_discrete id x)
        as (λ (d : Dec (id ≡ x)).
          ite d (some p) (find x ps) ≡ some px
          → ((id ≡ x) × (p ≡ px)) ⊎ ((id ≢ x) × (find x ps ≡ some px))) [
            | yes same ↦ λ e. inl (same, ground (arith, e))
            | no other ↦ λ e. inr (other, e)
          ]
      (sym (lookup-insert ℕ_discrete id x p ps) ∙ found)

-- What a written row must keep to: its parent is another row without a parent, and a row with a
-- parent has no children.
IsBelowTop : ℕ → Project → Projects → Type 0
IsBelowTop id p ps =
    (q : ℕ)
    → p.parent ≡ some q
    → (r : Project) × (q ≢ id) × (find q ps ≡ some r) × (r.parent ≡ none)

unfoldable pub HasNoChild : ℕ → Projects → Type 0
HasNoChild id ps = (x : ℕ) (px : Project) → find x ps ≡ some px → px.parent ≢ some id

parent_kept :
    (id : ℕ) (p : Project) (ps : Projects) (x : ℕ) (px : Project) (q : ℕ) (r : Project)
    → (p.parent ≡ none) ⊎ HasNoChild id ps
    → find x ps ≡ some px
    → px.parent ≡ some q
    → find q ps ≡ some r
    → r.parent ≡ none
    → (r' : Project) × (find q (insert ℕ_discrete id p ps) ≡ some r') × (r'.parent ≡ none)
unfolding HasNoChild
parent_kept id p ps x px q r alone here child found top = elim (ℕ_discrete id q) [
  | no other ↦ (r, lookup-insert_ne ℕ_discrete id q p ps other ∙ found, top)
  | yes same ↦ elim alone [
    | inl none_above ↦ (
      p,
      subst (λ (k : ℕ). find k (insert ℕ_discrete id p ps) ≡ some p) same
          (lookup-insert_self ℕ_discrete id p ps),
      none_above,
    )
    | inr childless ↦ absurd (childless x px here (child ∙ ap some (sym same)))
  ]
]

insert-IsTwoLevel :
    (id : ℕ) (p : Project) (ps : Projects)
    → IsBelowTop id p ps
    → (p.parent ≡ none) ⊎ HasNoChild id ps
    → IsTwoLevel ps
    → IsTwoLevel (insert ℕ_discrete id p ps)
unfolding IsBelowTop
insert-IsTwoLevel id p ps below alone two x px q found child =
    elim (find-insert id x p px ps found) [
      | inl (here, same) ↦
          let (r, apart, kept, top) = below q (ap (λ (y : Project). y.parent) same ∙ child) in
          (r, lookup-insert_ne ℕ_discrete id q p ps (λ e. apart (sym e)) ∙ kept, top)
      | inr (other, there) ↦
          let (r, kept, top) = two x px q there child in
          parent_kept id p ps x px q r alone there child kept top
    ]

-- A row without a parent may be written where it likes.
pub insert-top :
    (id : ℕ) (p : Project) (ps : Projects)
    → p.parent ≡ none
    → IsTwoLevel ps
    → IsTwoLevel (insert ℕ_discrete id p ps)
unfolding IsBelowTop
insert-top id p ps top two = insert-IsTwoLevel id p ps (λ q e. absurd (cc)) (inl top) two

some_q : (m n : ℕ) → some m ≡ some n → m ≡ n
some_q m n e = ground (arith, e)

same_row :
    (id : ℕ) (old r : Project) (ps : Projects)
    → find id ps ≡ some old
    → find id ps ≡ some r
    → r.parent ≡ none
    → old.parent ≡ none
same_row id old r ps a b top = ap row_parent (sym a ∙ b) ∙ top
  where
    row_parent : Option Project → Option ℕ
    row_parent none = none
    row_parent (some p) = p.parent

-- A row may be put below a row without a parent if it has no children.
pub insert-child :
    (id : ℕ) (p : Project) (ps : Projects) (q : ℕ) (r : Project)
    → p.parent ≡ some q
    → q ≢ id
    → find q ps ≡ some r
    → r.parent ≡ none
    → HasNoChild id ps
    → IsTwoLevel ps
    → IsTwoLevel (insert ℕ_discrete id p ps)
unfolding IsBelowTop
insert-child id p ps q r child apart found top childless two =
    insert-IsTwoLevel id p ps
      (λ k e.
        let same = some_q q k (sym child ∙ e) in
        (
          r,
          subst (λ (x : ℕ). x ≢ id) same apart,
          subst (λ (x : ℕ). find x ps ≡ some r) same found,
          top,
        ))
      (inr childless) two

-- A row may be changed in all but its parent.
pub insert-same :
    (id : ℕ) (p old : Project) (ps : Projects)
    → find id ps ≡ some old
    → p.parent ≡ old.parent
    → IsTwoLevel ps
    → IsTwoLevel (insert ℕ_discrete id p ps)
unfolding HasNoChild
insert-same id p old ps found kept two = elim (Option-cases p.parent) [
  | inl top ↦ insert-top id p ps top two
  | inr (q, child) ↦
      let (r, above, top) = two id old q found (sym kept ∙ child) in
      let clash : old.parent ≢ none = λ e. absurd (cc) in
      insert-child id p ps q r child
        (λ e.
          absurd (
            clash (same_row id old r ps found (subst (λ (k : ℕ). find k ps ≡ some r) e above) top)))
        above top
        (λ x px here e.
          let (r', row, none_above) = two x px id here e in
          absurd (clash (same_row id old r' ps found row none_above)))
        two
]
