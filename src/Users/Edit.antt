-- ===== src/Users/Edit.antt =====
-- The handlers of api/internal/handlers/users.go that create and change users, with the parts of the
-- request that they share with the deactivation.
use alluredeck.Prelude.{
  ℕ, Bool, true, false, not, ◌&&◌, ◌||◌, Option, none, some, [], Text, text_eq, if◌then◌else◌, ltb,
  length,
}
use alluredeck.Prelude.Ints.{ℤ, parse_int}
use alluredeck.Prelude.Texts.{to_lower, trim_space}
use alluredeck.Users.{
  Account, Written, written, refused, duplicate_entry, Row, row, no_row, row_failed, update_role,
  update_active, update_profile, create_local,
}
use alluredeck.Users.Rows.{get_by_id}
use alluredeck.Users.Email.{is_valid_email}
use alluredeck.Users.Admin.{
  Server, Parts, Faults, valid_role, claims_user_id, is_self, revoke_user_families,
  invalidate_active_cache, with_accounts, error_status,
}

-- A step of a handler that may have answered already.
pub data Step : Type 0 where
  halted : Server → ℕ → Step
  continued : Server → Step

abbrev pub and_then : Step → (Server → Server × ℕ) → Server × ℕ
and_then (halted s status) next = (s, status)
and_then (continued s) next = next s

abbrev pub and_do : Step → (Server → Step) → Step
and_do (halted s status) next = halted s status
and_do (continued s) next = next s

abbrev pub after_write : Server → Written → Step
after_write s (written t) = continued (with_accounts s t)
after_write s (refused e) = halted s (error_status e)

unfoldable pub role_step : Faults → ℕ → ℤ → Option Text → Server → Step
role_step l now id none s = continued s
role_step l now id (some role) s =
    if valid_role role
    then after_write s (update_role l.role_down now id role s.accounts)
    else halted s 400

unfoldable pub active_written : Parts → Faults → ℕ → ℤ → Account → Bool → Server → Written → Step
unfolding revoke_user_families invalidate_active_cache
active_written w l now id u active s (refused e) = halted s (error_status e)
active_written w l now id u active s (written t) =
    let s' = invalidate_active_cache w id u (with_accounts s t) in
    continued (if active then s' else revoke_user_families w l now id u s')

unfoldable pub active_loaded : Parts → Faults → ℕ → Bool → Server → Row → Step
unfolding active_written
active_loaded w l now active s no_row = halted s 404
active_loaded w l now active s row_failed = halted s 500
active_loaded w l now active s (row id u) =
    active_written w l now id u active s (update_active l.write_down now id active s.accounts)

unfoldable pub active_step : Parts → Faults → ℕ → Option Text → ℤ → Option Bool → Server → Step
unfolding active_loaded
active_step w l now actor id none s = continued s
active_step w l now actor id (some active) s =
    if not active && is_self (claims_user_id actor) id
    then halted s 422
    else active_loaded w l now active s (get_by_id l.get_down id s.accounts)

abbrev pub row_status : Row → ℕ
row_status (row id u) = 200
row_status no_row = 404
row_status row_failed = 500

abbrev pub reload : Faults → ℤ → Server → Server × ℕ
reload l id s = (s, row_status (get_by_id l.reload_down id s.accounts))

abbrev pub lacks : {A : Type 0} → Option A → Bool
lacks none = true
lacks (some x) = false

-- `Update`, given the optional fields of the body.
unfoldable pub update_user :
    Parts → Faults → ℕ → Option Text → Option ℤ → Option Text → Option Bool → Server → Server × ℕ
unfolding role_step active_step
update_user w l now actor none role active s = (s, 400)
update_user w l now actor (some id) role active s =
    if lacks role && lacks active
    then (s, 400)
    else and_then (and_do (role_step l now id role s) (active_step w l now actor id active))
        (reload l id)

abbrev pub with_name : Faults → ℕ → ℤ → Text → Server → Server × ℕ
with_name l now id name s =
    if text_eq name [] || ltb 120 (length name)
    then (s, 400)
    else and_then (after_write s (update_profile l.write_down now id name s.accounts)) (reload l id)

unfoldable pub update_named : Faults → ℕ → Option ℤ → Option Text → Server → Server × ℕ
update_named l now none name s = (s, 403)
update_named l now (some id) none s = (s, 400)
update_named l now (some id) (some name) s = with_name l now id (trim_space name) s

-- `UpdateMe`; an empty `sub` is none.
unfoldable pub update_me : Faults → ℕ → Text → Option Text → Server → Server × ℕ
unfolding update_named
update_me l now sub name s =
    if text_eq sub [] then (s, 401) else update_named l now (parse_int sub) name s

abbrev pub created : Server → Written → Server × ℕ
created s (written t) = (with_accounts s t, 201)
created s (refused duplicate_entry) = (s, 409)
created s (refused _) = (s, 500)

unfoldable pub create_hashed :
    Faults → ℕ → ℤ → Text → Text → Text → Option Text → Server → Server × ℕ
create_hashed l now id email name role none s = (s, 500)
create_hashed l now id email name role (some hash) s =
    created s (create_local l.write_down now id email name hash role s.accounts)

unfoldable pub create_trimmed :
    Faults → ℕ → ℤ → Text → Text → Text → Option Text → Server → Server × ℕ
unfolding create_hashed
create_trimmed l now id email name role hash s =
    if not (is_valid_email email)
    then (s, 400)
    else (if text_eq name [] || ltb 120 (length name)
        then (s, 400)
        else (if valid_role role then create_hashed l now id email name role hash s else (s, 400)))

-- `Create`. `id` is what the sequence gives, `hash` that of the temporary password, if both were made.
unfoldable pub create_user : Faults → ℕ → ℤ → Text → Text → Text → Option Text → Server → Server × ℕ
unfolding create_trimmed
create_user l now id email name role hash s =
    create_trimmed l now id (trim_space (to_lower email)) (trim_space name) (trim_space role) hash s
