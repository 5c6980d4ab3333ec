-- ===== src/Projects/Requests.antt =====
-- The handlers of project_parent.go, and sequences of the statements and requests that change projects.
use alluredeck.Prelude.{
  ℕ, ◌≢◌, refl, inl, inr, Bool, true, false, Option, none, some, List, [], ◌∷◌, arith, Text, ◌==◌,
  is_some, Bool-cases, Option-cases, All,
}
use alluredeck.Projects.{
  Project, Projects, ProjectError, Outcome, done, failed, by_id, find, violates_unique,
  create_project, insert_child, set_storage_key, set_parent, clear_parent, renamed, rename_project,
  has_children, reply, Faults, attach, handle_set_parent, detach, handle_clear_parent, update_slug,
  update_key,
}
use alluredeck.Projects.Rows.{IsTwoLevel, insert-same}
use alluredeck.Projects.Levels.{
  KeepsLevels, create_project-KeepsLevels, insert_child-KeepsLevels, set_parent-KeepsLevels,
  clear_parent-KeepsLevels,
}

-- What changes the table. The two statements of a child's creation are two changes, so that others
-- may come between them.
pub data Change : Type 0 where
  creates : Bool → ℕ → Text → Change
  inserts_child : Bool → ℕ → Text → ℕ → Change
  sets_key : Bool → ℕ → Change
  requests_parent : Faults → ℕ → ℕ → Change
  requests_no_parent : Faults → ℕ → Change
  renames : Bool → ℕ → Text → Change

abbrev pub settled : Projects → Outcome → Projects
settled ps (done ps') = ps'
settled ps (failed e) = ps

unfoldable pub change : Change → Projects → Projects
change (creates down id slug) ps = settled ps (create_project down id slug ps)
change (inserts_child down id slug parent) ps = settled ps (insert_child down id slug parent ps)
change (sets_key down id) ps = settled ps (set_storage_key down id ps)
change (requests_parent l id parent) ps = (handle_set_parent l id parent ps).0
change (requests_no_parent l id) ps = (handle_clear_parent l id ps).0
change (renames down id slug) ps = settled ps (rename_project down id slug ps)

unfoldable pub run : List Change → Projects → Projects
run [] ps = ps
run (c ∷ cs) ps = run cs (change c ps)

-- No child is created with its own id as the parent.
abbrev pub IsApart : Change → Type 0
IsApart (inserts_child down id slug parent) = parent ≢ id
IsApart _ = Unit

settled-IsTwoLevel :
    (ps : Projects) (o : Outcome) → IsTwoLevel ps → KeepsLevels o → IsTwoLevel (settled ps o)
settled-IsTwoLevel ps (done ps') two kept = kept
settled-IsTwoLevel ps (failed e) two kept = two

reply-IsTwoLevel :
    (missing : ℕ) (ps : Projects) (o : Outcome)
    → IsTwoLevel ps
    → KeepsLevels o
    → IsTwoLevel (reply missing ps o).0
reply-IsTwoLevel missing ps (done ps') two kept = kept
reply-IsTwoLevel missing ps (failed ProjectError.project_exists) two kept = two
reply-IsTwoLevel missing ps (failed ProjectError.project_not_found) two kept = two
reply-IsTwoLevel missing ps (failed ProjectError.database) two kept = two

rename_project-KeepsLevels :
    (down : Bool) (id : ℕ) (slug : Text) (ps : Projects)
    → IsTwoLevel ps
    → KeepsLevels (rename_project down id slug ps)
unfolding rename_project update_slug
rename_project-KeepsLevels true id slug ps two = tt
rename_project-KeepsLevels false id slug ps two = elim (Option-cases (find id ps)) [
  | inl missing ↦ rw missing tt
  | inr (p, found) ↦ elim (Bool-cases (violates_unique id (renamed slug p) ps)) [
    | inl twice ↦ rw (found, twice) tt
    | inr once ↦ rw (found, once) (insert-same id (renamed slug p) p ps found refl two)
  ]
]

abbrev keyed : ℕ → Project → Project
keyed id p = record p { storage_key = by_id id }

set_storage_key-KeepsLevels :
    (down : Bool) (id : ℕ) (ps : Projects)
    → IsTwoLevel ps
    → KeepsLevels (set_storage_key down id ps)
unfolding set_storage_key update_key
set_storage_key-KeepsLevels true id ps two = tt
set_storage_key-KeepsLevels false id ps two = elim (Option-cases (find id ps)) [
  | inl missing ↦ rw missing two
  | inr (p, found) ↦ elim (Bool-cases (violates_unique id (keyed id p) ps)) [
    | inl twice ↦ rw (found, twice) tt
    | inr once ↦ rw (found, once) (insert-same id (keyed id p) p ps found refl two)
  ]
]

attach-IsTwoLevel :
    (l : Faults) (id parent : ℕ) (ps : Projects) (o : Option Project)
    → parent ≢ id
    → IsTwoLevel ps
    → IsTwoLevel (attach l id parent ps o).0
unfolding attach
attach-IsTwoLevel l id parent ps none apart two = two
attach-IsTwoLevel l id parent ps (some row) apart two = elim (Bool-cases (is_some row.parent)) [
  | inl below ↦ rw below two
  | inr top ↦ elim (Bool-cases l.children_down) [
    | inl down ↦ rw (top, down) two
    | inr up ↦ elim (Bool-cases (has_children id ps)) [
      | inl some_child ↦ rw (top, up, some_child) two
      | inr childless ↦
          rw (top, up, childless)
            (reply-IsTwoLevel 404 ps (set_parent l.update_down id parent ps) two
              (set_parent-KeepsLevels l.update_down id parent ps apart childless two))
    ]
  ]
]

handle_set_parent-IsTwoLevel :
    (l : Faults) (id parent : ℕ) (ps : Projects)
    → IsTwoLevel ps
    → IsTwoLevel (handle_set_parent l id parent ps).0
unfolding handle_set_parent
handle_set_parent-IsTwoLevel l id parent ps two = elim (Bool-cases (parent == 0)) [
  | inl zero_id ↦ rw zero_id two
  | inr given ↦ elim (Bool-cases (id == parent)) [
    | inl own ↦ rw (given, own) two
    | inr other ↦ elim (Bool-cases l.get_down) [
      | inl down ↦ rw (given, other, down) two
      | inr up ↦
          rw (given, other, up)
            (attach-IsTwoLevel l id parent ps (find parent ps) (λ e. ground (arith, e, other)) two)
    ]
  ]
]

detach-IsTwoLevel :
    (l : Faults) (id : ℕ) (ps : Projects) (o : Option Project)
    → IsTwoLevel ps
    → IsTwoLevel (detach l id ps o).0
unfolding detach
detach-IsTwoLevel l id ps none two = two
detach-IsTwoLevel l id ps (some row) two = elim (Bool-cases (is_some row.parent)) [
  | inl below ↦ rw below (
      reply-IsTwoLevel 404 ps (clear_parent l.update_down id ps) two
        (clear_parent-KeepsLevels l.update_down id ps two))
  | inr top ↦ rw top two
]

handle_clear_parent-IsTwoLevel :
    (l : Faults) (id : ℕ) (ps : Projects)
    → IsTwoLevel ps
    → IsTwoLevel (handle_clear_parent l id ps).0
unfolding handle_clear_parent
handle_clear_parent-IsTwoLevel l id ps two = elim (Bool-cases l.get_down) [
  | inl down ↦ rw down two
  | inr up ↦ rw up (detach-IsTwoLevel l id ps (find id ps) two)
]

change-IsTwoLevel :
    (c : Change) (ps : Projects) → IsApart c → IsTwoLevel ps → IsTwoLevel (change c ps)
unfolding change
change-IsTwoLevel (creates down id slug) ps apart two =
    settled-IsTwoLevel ps (create_project down id slug ps) two
      (create_project-KeepsLevels down id slug ps two)
change-IsTwoLevel (inserts_child down id slug parent) ps apart two =
    settled-IsTwoLevel ps (insert_child down id slug parent ps) two
      (insert_child-KeepsLevels down id slug parent ps apart two)
change-IsTwoLevel (sets_key down id) ps apart two =
    settled-IsTwoLevel ps (set_storage_key down id ps) two
      (set_storage_key-KeepsLevels down id ps two)
change-IsTwoLevel (requests_parent l id parent) ps apart two =
    handle_set_parent-IsTwoLevel l id parent ps two
change-IsTwoLevel (requests_no_parent l id) ps apart two =
    handle_clear_parent-IsTwoLevel l id ps two
change-IsTwoLevel (renames down id slug) ps apart two =
    settled-IsTwoLevel ps (rename_project down id slug ps) two
      (rename_project-KeepsLevels down id slug ps two)

-- Projects stay on two levels: over any sequence of creations, changes of the parent and renames,
-- whatever statements fail and whatever comes between the two statements of a child's creation, the
-- parent of a project is in the table and has no parent, if no child is created with the id that the
-- sequence gives it as its own parent.
pub run-IsTwoLevel :
    (cs : List Change) (ps : Projects) → All IsApart cs → IsTwoLevel ps → IsTwoLevel (run cs ps)
unfolding run
run-IsTwoLevel [] ps apart two = two
run-IsTwoLevel (c ∷ cs) ps apart two =
    run-IsTwoLevel cs (change c ps) apart.1 (change-IsTwoLevel c ps apart.0 two)
