-- ===== src/Projects.antt =====
-- Projects and their parents: api/internal/store/pg/project.go under the constraints of
-- store/pg/migrations/0031_surrogate_pk.sql and 0034_storage_key.sql, and the handlers of
-- api/internal/handlers/project_parent.go. A storage key is kept as what it is printed from: a slug,
-- which is never a number (validateProjectID), or an id. `down` says that the database fails the
-- statement, which then changes nothing.
pub mod Rows
pub mod Levels
pub mod Requests
pub mod Creation
mod Examples
use alluredeck.Prelude.{
  ℕ, Bool, true, false, not, ◌&&◌, ◌||◌, Option, none, some, List, [], ◌∷◌, Text, text_eq, ◌==◌,
  if◌then◌else◌, is_some,
}
use alluredeck.Prelude.Maps.{lookup, insert}
use native.Mathlib.Decide.{ℕ_discrete}

pub data StorageKey : Type 0 where
  by_slug : Text → StorageKey
  by_id : ℕ → StorageKey

pub record Project : Type 0 where
  pub slug : Text
  pub storage_key : StorageKey
  pub parent : Option ℕ

-- The rows by id.
abbrev pub Projects : Type 0
Projects = List (ℕ × Project)

pub data ProjectError : Type 0 where
  project_exists project_not_found database : ProjectError

pub data Outcome : Type 0 where
  done : Projects → Outcome
  failed : ProjectError → Outcome

abbrev pub find : ℕ → Projects → Option Project
find id ps = lookup ℕ_discrete id ps

abbrev pub same_parent : Option ℕ → Option ℕ → Bool
same_parent none none = true
same_parent (some p) (some q) = p == q
same_parent _ _ = false

abbrev pub same_key : StorageKey → StorageKey → Bool
same_key (by_slug a) (by_slug b) = text_eq a b
same_key (by_id m) (by_id n) = m == n
same_key _ _ = false

-- The unique indexes: the slug among the children of one parent or at the top level, and the key.
abbrev pub collides : Project → Project → Bool
collides p q =
    (text_eq p.slug q.slug && same_parent p.parent q.parent) || same_key p.storage_key q.storage_key

unfoldable pub violates_unique : ℕ → Project → Projects → Bool
violates_unique id p [] = false
violates_unique id p ((j, q) ∷ ps) = (not (j == id) && collides p q) || violates_unique id p ps

abbrev pub is_child : Option Project → Bool
is_child none = false
is_child (some p) = is_some p.parent

-- The trigger `trg_no_nested_parent`.
abbrev pub nests : Option ℕ → Projects → Bool
nests none ps = false
nests (some q) ps = is_child (find q ps)

-- The foreign key, which holds after the statement.
abbrev pub refers : Option ℕ → Projects → Bool
refers none ps = true
refers (some q) ps = is_some (find q ps)

-- A row that a statement writes, with the error for a unique violation.
unfoldable pub put_row : ProjectError → ℕ → Project → Projects → Outcome
put_row clash id p ps =
    let written = insert ℕ_discrete id p ps in
    if nests p.parent ps
    then failed database
    else (if violates_unique id p ps
        then failed clash
        else (if refers p.parent written then done written else failed database))

-- `INSERT`; the sequence gives the id.
unfoldable pub insert_row : Bool → ℕ → Project → Projects → Outcome
unfolding put_row
insert_row down id p ps =
    if down
    then failed database
    else (if is_some (find id ps) then failed project_exists else put_row project_exists id p ps)

abbrev pub new_top : Text → Project
new_top slug = record { slug = slug; storage_key = by_slug slug; parent = none }

abbrev pub new_child : Text → ℕ → Project
new_child slug parent = record { slug = slug; storage_key = by_id 0; parent = some parent }

unfoldable pub create_project : Bool → ℕ → Text → Projects → Outcome
unfolding insert_row
create_project down id slug ps = insert_row down id (new_top slug) ps

-- `CreateProjectWithParent` runs two statements. The first one writes the key 0.
unfoldable pub insert_child : Bool → ℕ → Text → ℕ → Projects → Outcome
unfolding insert_row
insert_child down id slug parent ps = insert_row down id (new_child slug parent) ps

unfoldable pub update_key : ℕ → Option Project → Projects → Outcome
update_key id none ps = done ps
update_key id (some p) ps =
    let keyed = record p { storage_key = by_id id } in
    if violates_unique id keyed ps then failed database else done (insert ℕ_discrete id keyed ps)

unfoldable pub set_storage_key : Bool → ℕ → Projects → Outcome
unfolding update_key
set_storage_key down id ps = if down then failed database else update_key id (find id ps) ps

unfoldable pub update_parent : ℕ → Option ℕ → Option Project → Projects → Outcome
unfolding put_row
update_parent id parent none ps = failed project_not_found
update_parent id parent (some p) ps = put_row database id (record p { parent = parent }) ps

unfoldable pub set_parent : Bool → ℕ → ℕ → Projects → Outcome
unfolding update_parent
set_parent down id parent ps =
    if down then failed database else update_parent id (some parent) (find id ps) ps

unfoldable pub clear_parent : Bool → ℕ → Projects → Outcome
unfolding update_parent
clear_parent down id ps = if down then failed database else update_parent id none (find id ps) ps

abbrev pub renamed : Text → Project → Project
renamed slug p = record p {
  slug = slug;
  storage_key = if is_some p.parent then p.storage_key else by_slug slug;
}

unfoldable pub update_slug : ℕ → Text → Option Project → Projects → Outcome
update_slug id slug none ps = failed project_not_found
update_slug id slug (some p) ps =
    if violates_unique id (renamed slug p) ps
    then failed project_exists
    else done (insert ℕ_discrete id (renamed slug p) ps)

unfoldable pub rename_project : Bool → ℕ → Text → Projects → Outcome
unfolding update_slug
rename_project down id slug ps =
    if down then failed database else update_slug id slug (find id ps) ps

abbrev pub has_parent : ℕ → Project → Bool
has_parent id p = same_parent (some id) p.parent

unfoldable pub has_children : ℕ → Projects → Bool
has_children id [] = false
has_children id ((j, p) ∷ ps) = has_parent id p || has_children id ps

-- The handlers' replies: the status, and the table after the request.
abbrev pub reply : ℕ → Projects → Outcome → Projects × ℕ
reply missing ps (done ps') = (ps', 200)
reply missing ps (failed project_not_found) = (ps, missing)
reply missing ps (failed _) = (ps, 500)

-- Which of the statements of one request the database fails.
pub record Faults : Type 0 where
  pub get_down : Bool
  pub children_down : Bool
  pub update_down : Bool

unfoldable pub attach : Faults → ℕ → ℕ → Projects → Option Project → Projects × ℕ
attach l id parent ps none = (ps, 404)
attach l id parent ps (some row) =
    if is_some row.parent
    then (ps, 400)
    else (if l.children_down
        then (ps, 500)
        else (if has_children id ps
            then (ps, 409)
            else reply 404 ps (set_parent l.update_down id parent ps)))

-- `SetParent`, for a resolved project and a decoded body.
unfoldable pub handle_set_parent : Faults → ℕ → ℕ → Projects → Projects × ℕ
unfolding attach
handle_set_parent l id parent ps =
    if parent == 0
    then (ps, 400)
    else (if id == parent
        then (ps, 400)
        else (if l.get_down then (ps, 500) else attach l id parent ps (find parent ps)))

unfoldable pub detach : Faults → ℕ → Projects → Option Project → Projects × ℕ
detach l id ps none = (ps, 404)
detach l id ps (some row) =
    if is_some row.parent then reply 404 ps (clear_parent l.update_down id ps) else (ps, 400)

unfoldable pub handle_clear_parent : Faults → ℕ → Projects → Projects × ℕ
unfolding detach
handle_clear_parent l id ps = if l.get_down then (ps, 500) else detach l id ps (find id ps)
