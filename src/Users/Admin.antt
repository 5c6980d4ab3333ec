-- ===== src/Users/Admin.antt =====
-- The handlers of api/internal/handlers/users.go that deactivate users. A handler
-- takes the parts of the decoded request and answers with its HTTP status. The audit rows are left out.
use alluredeck.Prelude.{
  ℕ, Bool, false, not, ◌||◌, Option, none, some, [], Text, text_eq, codes, if◌then◌else◌,
}
use alluredeck.Prelude.Ints.{ℤ, parse_int}
use alluredeck.Prelude.Decimal.{format_int}
use alluredeck.Session.{Sessions}
use alluredeck.Session.Families.{revoke_all_for_user, table_of}
use alluredeck.Session.Refresh.{with_families}
use alluredeck.ActiveCache.{ActiveCache, invalidate, oidc_key, env_user_key}
use alluredeck.Users.{
  Account, Accounts, Written, written, refused, AccountError, missing, Row, row, no_row, row_failed,
  deactivate, same_id,
}
use alluredeck.Users.Rows.{get_by_id}
use alluredeck.Users.Keys.{Keys, delete_all_for_user}

-- What the handlers share. The cache is that of the middleware.
pub record Server : Type 0 where
  pub accounts : Accounts
  pub keys : Keys
  pub sessions : Sessions
  pub cache : ActiveCache

-- The optional parts of the handler.
pub record Parts : Type 0 where
  pub has_families : Bool
  pub has_keys : Bool
  pub has_cache : Bool

-- Which statements of one request the database fails.
pub record Faults : Type 0 where
  pub get_down : Bool
  pub role_down : Bool
  pub write_down : Bool
  pub families_down : Bool
  pub oidc_families_down : Bool
  pub keys_down : Bool
  pub reload_down : Bool

abbrev pub valid_role : Text → Bool
valid_role role =
    text_eq role (codes "admin") || (text_eq role (codes "editor") || text_eq role (codes "viewer"))

-- The number in the caller's `sub`, if there is one.
abbrev pub claims_user_id : Option Text → Option ℤ
claims_user_id none = none
claims_user_id (some sub) = parse_int sub

abbrev pub is_self : Option ℤ → ℤ → Bool
is_self none id = false
is_self (some self) id = same_id self id

unfoldable pub revoke_all_families : Parts → Bool → ℕ → Text → Server → Server
revoke_all_families w down now sub s =
    if w.has_families
    then record s {
      sessions =
          with_families s.sessions
            (table_of s.sessions.families (revoke_all_for_user down now sub s.sessions.families));
    }
    else s

unfoldable pub revoke_user_families : Parts → Faults → ℕ → ℤ → Account → Server → Server
unfolding revoke_all_families
revoke_user_families w l now id u s =
    let s' = revoke_all_families w l.families_down now (format_int id) s in
    if text_eq u.provider (codes "oidc")
    then revoke_all_families w l.oidc_families_down now u.email s'
    else s'

abbrev pub keys_after : Keys → Option (Keys × ℕ) → Keys
keys_after t none = t
keys_after t (some (t', n)) = t'

unfoldable pub cascade_delete_api_keys : Parts → Bool → Text → Server → Server
cascade_delete_api_keys w down username s =
    if not w.has_keys || text_eq username []
    then s
    else record s { keys = keys_after s.keys (delete_all_for_user down username s.keys) }

unfoldable pub invalidate_active_cache : Parts → ℤ → Account → Server → Server
invalidate_active_cache w id u s =
    if w.has_cache
    then record s {
      cache =
          invalidate (env_user_key u.email)
            (invalidate (oidc_key u.email) (invalidate (format_int id) s.cache));
    }
    else s

abbrev pub with_accounts : Server → Accounts → Server
with_accounts s t = record s { accounts = t }

-- The status for a statement that failed.
abbrev pub error_status : AccountError → ℕ
error_status missing = 404
error_status _ = 500

unfoldable pub delete_written : Parts → Faults → ℕ → ℤ → Account → Server → Written → Server × ℕ
unfolding revoke_user_families cascade_delete_api_keys invalidate_active_cache
delete_written w l now id u s (refused e) = (s, error_status e)
delete_written w l now id u s (written t) = (
  cascade_delete_api_keys w l.keys_down u.email
      (revoke_user_families w l now id u (invalidate_active_cache w id u (with_accounts s t))),
  204,
)

unfoldable pub delete_loaded : Parts → Faults → ℕ → Server → Row → Server × ℕ
unfolding delete_written
delete_loaded w l now s no_row = (s, 404)
delete_loaded w l now s row_failed = (s, 500)
delete_loaded w l now s (row id u) =
    delete_written w l now id u s (deactivate l.write_down now id s.accounts)

-- `Delete`, given the number in the path and the caller's `sub`.
unfoldable pub delete_user : Parts → Faults → ℕ → Option Text → Option ℤ → Server → Server × ℕ
unfolding delete_loaded
delete_user w l now actor none s = (s, 400)
delete_user w l now actor (some id) s =
    if is_self (claims_user_id actor) id
    then (s, 422)
    else delete_loaded w l now s (get_by_id l.get_down id s.accounts)
