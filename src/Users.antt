-- ===== src/Users.antt =====
-- The users table: api/internal/store/pg/user.go under the indexes of store/pg/migrations/0019_users.sql,
-- 0037_users_local_auth.sql, 0039_user_email_unique.sql and 0044_drop_legacy_users_email_unique.sql.
-- A table is the list of its rows by id. `down` says that the database fails the statement, which
-- then changes nothing. SQL's LOWER acts on ASCII.
pub mod Rows
pub mod Register
pub mod Unique
pub mod Keys
pub mod Email
pub mod Admin
pub mod Edit
pub mod Addresses
pub mod Shut
pub mod Gone
pub mod Deactivated
pub mod Sessions
pub mod Passwords
mod Examples
use alluredeck.Prelude.{
  ℕ, Bool, true, false, not, ◌&&◌, ◌||◌, Option, none, some, List, [], ◌∷◌, Text, text_eq, codes,
  if◌then◌else◌, is_some, is_yes,
}
use alluredeck.Prelude.Ints.{ℤ, ℤ_discrete, ltz}
use alluredeck.Prelude.Maps.{lookup, insert}
use alluredeck.Prelude.Texts.{to_lower}
use alluredeck.Session.{Lookup, found, user_not_found, lookup_failed, UserStore, User}

pub record Account : Type 0 where
  pub email : Text
  pub name : Text
  pub provider : Text
  pub provider_sub : Text
  pub password_hash : Text
  pub role : Text
  pub is_active : Bool
  pub last_login : Option ℕ
  pub created_at : ℕ
  pub updated_at : ℕ

abbrev pub Accounts : Type 0
Accounts = List (ℤ × Account)

pub data AccountError : Type 0 where
  duplicate_entry email_already_linked missing database : AccountError

pub data Written : Type 0 where
  written : Accounts → Written
  refused : AccountError → Written

pub data Row : Type 0 where
  row : ℤ → Account → Row
  no_row : Row
  row_failed : Row

abbrev pub find : ℤ → Accounts → Option Account
find id t = lookup ℤ_discrete id t

abbrev pub same_address : Text → Text → Bool
same_address a b = text_eq (to_lower a) (to_lower b)

abbrev pub is_env : Account → Bool
is_env a = text_eq a.provider (codes "env")

-- `idx_users_email_active` and `idx_users_email_global`.
abbrev pub shares_email : Account → Account → Bool
shares_email a b =
    same_address a.email b.email
    && ((a.is_active && b.is_active) || (not (is_env a) && not (is_env b)))

-- `idx_users_provider_sub`.
abbrev pub shares_identity : Text → Text → Account → Bool
shares_identity provider sub b =
    not (text_eq sub []) && (text_eq provider b.provider && text_eq sub b.provider_sub)

abbrev pub same_id : ℤ → ℤ → Bool
same_id i j = is_yes (ℤ_discrete i j)

unfoldable pub email_taken : ℤ → Account → Accounts → Bool
email_taken id a [] = false
email_taken id a ((j, b) ∷ t) = (not (same_id j id) && shares_email a b) || email_taken id a t

unfoldable pub identity_taken : ℤ → Account → Accounts → Bool
identity_taken id a [] = false
identity_taken id a ((j, b) ∷ t) =
    (not (same_id j id) && shares_identity a.provider a.provider_sub b) || identity_taken id a t

-- A row that a statement writes, with the errors for its two kinds of unique violation.
unfoldable pub put_row : AccountError → AccountError → ℤ → Account → Accounts → Written
put_row other email id a t =
    if identity_taken id a t
    then refused other
    else (if email_taken id a t then refused email else written (insert ℤ_discrete id a t))

-- `INSERT`; the sequence gives the id.
unfoldable pub insert_row : AccountError → AccountError → ℤ → Account → Accounts → Written
unfolding put_row
insert_row other email id a t =
    if is_some (find id t) then refused other else put_row other email id a t

unfoldable pub create_local : Bool → ℕ → ℤ → Text → Text → Text → Text → Accounts → Written
unfolding insert_row
create_local down now id email name hash role t =
    if down
    then refused database
    else insert_row duplicate_entry duplicate_entry id
        (record {
          email = email;
          name = name;
          provider = codes "local";
          provider_sub = [];
          password_hash = hash;
          role = role;
          is_active = true;
          last_login = none;
          created_at = now;
          updated_at = now;
        })
        t

abbrev pub identity_row : Text → Text → Accounts → Option (ℤ × Account)
identity_row provider sub [] = none
identity_row provider sub ((j, b) ∷ t) =
    let rest = identity_row provider sub t in
    if shares_identity provider sub b then some (j, b) else rest

-- The insert, or the update on a conflict of the identity.
unfoldable pub upsert_row :
    ℕ → ℤ → Text → Text → Text → Text → Text → Option (ℤ × Account) → Accounts → Written
unfolding insert_row put_row
upsert_row now id provider sub email name role none t =
    insert_row database email_already_linked id
      (record {
        email = email;
        name = name;
        provider = provider;
        provider_sub = sub;
        password_hash = [];
        role = role;
        is_active = true;
        last_login = some now;
        created_at = now;
        updated_at = now;
      })
      t
upsert_row now id provider sub email name role (some (j, b)) t =
    put_row database email_already_linked j
      (record b {
        email = email;
        name = name;
        role = role;
        last_login = some now;
        updated_at = now;
      })
      t

unfoldable pub upsert_by_oidc : Bool → ℕ → ℤ → Text → Text → Text → Text → Text → Accounts → Written
unfolding upsert_row
upsert_by_oidc down now id provider sub email name role t =
    if down
    then refused database
    else upsert_row now id provider sub email name role (identity_row provider sub t) t

unfoldable pub update_found : ℤ → (Account → Account) → Option Account → Accounts → Written
unfolding put_row
update_found id change none t = refused missing
update_found id change (some a) t = put_row database database id (change a) t

-- `UPDATE users SET … WHERE id = …`, with the error for no affected row.
unfoldable pub update_where : Bool → ℤ → (Account → Account) → Accounts → Written
unfolding update_found
update_where down id change t =
    if down then refused database else update_found id change (find id t) t

unfoldable pub relink_oidc : Bool → ℕ → ℤ → Text → Text → Accounts → Written
unfolding update_where
relink_oidc down now id provider sub = update_where down id (λ a. record a {
  provider = provider;
  provider_sub = sub;
  last_login = some now;
  updated_at = now;
})

unfoldable pub update_role : Bool → ℕ → ℤ → Text → Accounts → Written
unfolding update_where
update_role down now id role =
    update_where down id (λ a. record a { role = role; updated_at = now })

unfoldable pub update_active : Bool → ℕ → ℤ → Bool → Accounts → Written
unfolding update_where
update_active down now id active =
    update_where down id (λ a. record a { is_active = active; updated_at = now })

unfoldable pub update_profile : Bool → ℕ → ℤ → Text → Accounts → Written
unfolding update_where
update_profile down now id name =
    update_where down id (λ a. record a { name = name; updated_at = now })

unfoldable pub update_password_hash : Bool → ℕ → ℤ → Text → Accounts → Written
unfolding update_where
update_password_hash down now id hash =
    update_where down id (λ a. record a { password_hash = hash; updated_at = now })

unfoldable pub update_last_login : Bool → ℕ → ℤ → Accounts → Written
unfolding update_where
update_last_login down now id =
    update_where down id (λ a. record a { last_login = some now; updated_at = now })

unfoldable pub deactivate : Bool → ℕ → ℤ → Accounts → Written
unfolding update_where
deactivate down now id =
    update_where down id (λ a. record a { is_active = false; updated_at = now })
