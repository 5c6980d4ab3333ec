-- ===== src/Users/Rows.antt =====
-- The statements of api/internal/store/pg/user.go that read a user.
use alluredeck.Prelude.{Bool, ◌&&◌, ◌||◌, Option, none, some, [], ◌∷◌, Text, if◌then◌else◌}
use alluredeck.Prelude.Ints.{ℤ, ltz}
use alluredeck.Session.{Lookup, found, user_not_found, lookup_failed, UserStore}
use alluredeck.Users.{Account, Accounts, Row, row, no_row, row_failed, find, same_address}

abbrev pub row_of : ℤ → Option Account → Row
row_of id none = no_row
row_of id (some a) = row id a

unfoldable pub get_by_id : Bool → ℤ → Accounts → Row
get_by_id down id t = if down then row_failed else row_of id (find id t)

-- `ORDER BY is_active DESC, id ASC`.
abbrev pub sooner : ℤ × Account → ℤ × Account → Bool
sooner (i, a) (j, b) =
    if a.is_active && b.is_active
    then ltz i j
    else (if a.is_active || b.is_active then a.is_active else ltz i j)

abbrev pub first_of : ℤ × Account → Option (ℤ × Account) → ℤ × Account
first_of x none = x
first_of x (some y) = if sooner x y then x else y

unfoldable pub first_by_email : Text → Accounts → Option (ℤ × Account)
first_by_email email [] = none
first_by_email email ((j, b) ∷ t) =
    let rest = first_by_email email t in
    if same_address b.email email then some (first_of (j, b) rest) else rest

abbrev pub row_at : Option (ℤ × Account) → Row
row_at none = no_row
row_at (some (id, a)) = row id a

unfoldable pub get_by_email : Bool → Text → Accounts → Row
unfolding first_by_email
get_by_email down email t = if down then row_failed else row_at (first_by_email email t)

-- What the session code reads of a row.
abbrev pub as_lookup : Row → Lookup
as_lookup (row id a) = found (record { id = id; email = a.email; is_active = a.is_active })
as_lookup no_row = user_not_found
as_lookup row_failed = lookup_failed

unfoldable pub store_of : Bool → Bool → Accounts → UserStore
store_of id_down email_down t = record {
  get_by_id = λ id. as_lookup (get_by_id id_down id t);
  get_by_email = λ email. as_lookup (get_by_email email_down email t);
}
