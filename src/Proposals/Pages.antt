-- ===== src/Proposals/Pages.antt =====
-- The pages of the pending proposals: ListPending of the stores, api/internal/store/pg/defect_proposal.go,
-- known_issue_proposal.go and flaky_proposal.go, which page alike, and a client that follows the cursors.
use alluredeck.Prelude.{
  ℕ, zero, suc, ◌+◌, Bool, true, false, ◌&&◌, Option, none, some, [], ◌∷◌, ◌++◌, Text, text_eq, ltb,
  ◌==◌, if◌then◌else◌, length, take,
}
use alluredeck.Prelude.Ints.{ℤ, pos, negsuc, ltz, parse_int}
use alluredeck.Prelude.Decimal.{format_nat}
use alluredeck.Proposals.{Proposal, Table}
use alluredeck.Proposals.Review.{is_pending}

module _ {C : Type 0} where
  -- `ORDER BY id DESC`.
  unfoldable pub insert_by_id : ℕ × Proposal C → Table C → Table C
  insert_by_id r [] = r ∷ []
  insert_by_id r (s ∷ rows) =
      let rest = insert_by_id r rows in if ltb s.0 r.0 then r ∷ (s ∷ rows) else s ∷ rest

  unfoldable pub order_by_id : Table C → Table C
  unfolding insert_by_id
  order_by_id [] = []
  order_by_id (r ∷ rows) = insert_by_id r (order_by_id rows)

  -- `WHERE`.
  unfoldable pub such : (ℕ × Proposal C → Bool) → Table C → Table C
  such f [] = []
  such f (r ∷ rows) = let rest = such f rows in if f r then r ∷ rest else rest

  abbrev pub is_listed : ℕ → ℕ × Proposal C → Bool
  is_listed project r = r.1.project_id == project && is_pending r.1.status

  abbrev pub is_below : Option ℤ → ℕ × Proposal C → Bool
  is_below none r = true
  is_below (some c) r = ltz (pos r.0) c

  unfoldable pub select : ℕ → Option ℤ → ℕ → Table C → Table C
  unfolding order_by_id such
  select project c n t = take n (order_by_id (such (λ r. is_listed project r && is_below c r) t))

  abbrev pub last_id : Table C → ℕ
  last_id [] = 0
  last_id (r ∷ []) = r.0
  last_id (r ∷ (s ∷ rows)) = last_id (s ∷ rows)

-- The rows and the next cursor.
pub data Page (C : Type 0) : Type 0 where
  page : Table C → Text → Page C
  invalid_cursor failed : Page C

abbrev pub encode_cursor_id : ℕ → Text
encode_cursor_id id = format_nat id

abbrev pub decode_cursor_id : Text → Option ℤ
decode_cursor_id cursor = parse_int cursor

abbrev pub page_size : ℤ → ℕ
page_size (pos zero) = 20
page_size (pos (suc n)) = suc n
page_size (negsuc n) = 20

module _ {C : Type 0} where
  abbrev pub page_of : ℕ → Table C → Page C
  page_of limit rows =
      let items = take limit rows in
      if ltb limit (length rows)
      then page items (encode_cursor_id (last_id items))
      else page rows []

  abbrev pub from_cursor : ℕ → ℕ → Option ℤ → Table C → Page C
  from_cursor project limit none t = invalid_cursor
  from_cursor project limit (some c) t = page_of limit (select project (some c) (limit + 1) t)

  unfoldable pub list_pending : Bool → ℕ → ℤ → Text → Table C → Page C
  unfolding select
  list_pending down project limit cursor t =
      if down
      then failed
      else (if text_eq cursor []
          then page_of (page_size limit) (select project none (page_size limit + 1) t)
          else from_cursor project (page_size limit) (decode_cursor_id cursor) t)

  abbrev pub joined : Table C → Option (Table C) → Option (Table C)
  joined rows none = none
  joined rows (some more) = some (rows ++ more)

  abbrev pub followed : (Text → Option (Table C)) → Page C → Option (Table C)
  followed next failed = none
  followed next invalid_cursor = none
  followed next (page rows cursor) =
      if text_eq cursor [] then some rows else joined rows (next cursor)

  -- All that a client gets which asks for page after page until there is no next cursor, in at most
  -- so many requests.
  unfoldable pub walk : ℕ → ℕ → ℤ → Text → Table C → Option (Table C)
  unfolding list_pending
  walk zero project limit cursor t = none
  walk (suc n) project limit cursor t =
      followed (λ next. walk n project limit next t) (list_pending false project limit cursor t)
