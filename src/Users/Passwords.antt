-- ===== src/Users/Passwords.antt =====
-- The handlers ChangeMyPassword and ResetUserPassword of api/internal/handlers/users.go. bcrypt is a
-- parameter: `matches` compares a stored hash with a password, `hash` is that of the new password, if
-- it can be made.
use alluredeck.Prelude.{
  ℕ, Bool, not, Option, none, some, [], Text, text_eq, codes, if◌then◌else◌, ltb, length,
}
use alluredeck.Prelude.Ints.{ℤ, parse_int}
use alluredeck.Prelude.Decimal.{format_int}
use alluredeck.Session.Tokens.{Claims, blacklist_access_token}
use alluredeck.Users.{
  Account, Written, written, refused, Row, row, no_row, row_failed, update_password_hash,
}
use alluredeck.Users.Rows.{get_by_id}
use alluredeck.Users.Admin.{
  Server, Parts, Faults, error_status, revoke_all_families, cascade_delete_api_keys, with_accounts,
}

-- The JWT manager, if it is wired, and the failures of its blacklist.
pub record TokenCheck : Type 0 where
  pub has_jwt : Bool
  pub parse : ℕ → Text → Option Claims
  pub reads_down : Bool
  pub writes_down : Bool

-- What the caller of ChangeMyPassword sends.
pub record PasswordChange : Type 0 where
  pub access_token : Text
  pub current : Text
  pub new : Text

unfoldable pub blacklist_current : TokenCheck → ℕ → Text → Server → Server
blacklist_current j now token s =
    if j.has_jwt
    then record s {
      sessions =
          blacklist_access_token j.parse j.reads_down j.writes_down now token (codes "access") 0
            s.sessions;
    }
    else s

unfoldable pub changed : Parts → Faults → TokenCheck → ℕ → ℤ → Text → Server → Written → Server × ℕ
unfolding blacklist_current
changed w l j now id token s (refused e) = (s, error_status e)
changed w l j now id token s (written t) = (
  blacklist_current j now token
      (revoke_all_families w l.families_down now (format_int id) (with_accounts s t)),
  204,
)

unfoldable pub rehash :
    Parts → Faults → TokenCheck → ℕ → ℤ → Text → Option Text → Server → Server × ℕ
unfolding changed
rehash w l j now id token none s = (s, 500)
rehash w l j now id token (some hash) s =
    changed w l j now id token s (update_password_hash l.write_down now id hash s.accounts)

unfoldable pub change_loaded :
    Parts
    → Faults
    → TokenCheck
    → (Text → Text → Bool)
    → ℕ
    → Option Text
    → PasswordChange
    → Server
    → Row
    → Server × ℕ
unfolding rehash
change_loaded w l j matches now hash q s no_row = (s, 404)
change_loaded w l j matches now hash q s row_failed = (s, 500)
change_loaded w l j matches now hash q s (row id u) =
    if not (text_eq u.provider (codes "local"))
    then (s, 422)
    else (if not u.is_active
        then (s, 403)
        else (if not (matches u.password_hash q.current)
            then (s, 400)
            else (if ltb (length q.new) 12
                then (s, 400)
                else (if text_eq q.new q.current
                    then (s, 400)
                    else rehash w l j now id q.access_token hash s))))

unfoldable pub change_for :
    Parts
    → Faults
    → TokenCheck
    → (Text → Text → Bool)
    → ℕ
    → Option Text
    → PasswordChange
    → Option ℤ
    → Server
    → Server × ℕ
unfolding change_loaded
change_for w l j matches now hash q none s = (s, 403)
change_for w l j matches now hash q (some id) s =
    change_loaded w l j matches now hash q s (get_by_id l.get_down id s.accounts)

-- `ChangeMyPassword`, given the caller's `sub`.
unfoldable pub change_my_password :
    Parts
    → Faults
    → TokenCheck
    → (Text → Text → Bool)
    → ℕ
    → Option Text
    → Text
    → PasswordChange
    → Server
    → Server × ℕ
unfolding change_for
change_my_password w l j matches now hash sub q s =
    if text_eq sub [] then (s, 401) else change_for w l j matches now hash q (parse_int sub) s

unfoldable pub reset_written : Parts → Faults → ℕ → ℤ → Account → Server → Written → Server × ℕ
reset_written w l now id u s (refused e) = (s, error_status e)
reset_written w l now id u s (written t) = (
  cascade_delete_api_keys w l.keys_down u.email
      (revoke_all_families w l.families_down now (format_int id) (with_accounts s t)),
  200,
)

unfoldable pub reset_hashed : Parts → Faults → ℕ → ℤ → Account → Server → Option Text → Server × ℕ
unfolding reset_written
reset_hashed w l now id u s none = (s, 500)
reset_hashed w l now id u s (some hash) =
    reset_written w l now id u s (update_password_hash l.write_down now id hash s.accounts)

unfoldable pub reset_loaded : Parts → Faults → ℕ → Option Text → Server → Row → Server × ℕ
unfolding reset_hashed
reset_loaded w l now hash s no_row = (s, 404)
reset_loaded w l now hash s row_failed = (s, 500)
reset_loaded w l now hash s (row id u) =
    if not (text_eq u.provider (codes "local")) then (s, 422) else reset_hashed w l now id u s hash

-- `ResetUserPassword`, given the number in the path; `hash` is that of the temporary password, if both
-- were made.
unfoldable pub reset_user_password :
    Parts → Faults → ℕ → Option Text → Option ℤ → Server → Server × ℕ
unfolding reset_loaded
reset_user_password w l now hash none s = (s, 400)
reset_user_password w l now hash (some id) s =
    reset_loaded w l now hash s (get_by_id l.get_down id s.accounts)
