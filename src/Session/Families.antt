-- ===== src/Session/Families.antt =====
-- The table of refresh-token families, api/internal/store/pg/refresh_token_families.go: each method's
-- SQL statement on the rows. `down` says that the database fails the statement, which then changes
-- nothing.
use alluredeck.Prelude.{
  ℕ, ◌+◌, Bool, not, ◌&&◌, ◌||◌, Option, none, some, [], ◌∷◌, Text, text_eq, codes, text_discrete,
  ltb, if◌then◌else◌, is_yes, is_some,
}
use alluredeck.Prelude.Maps.{lookup, insert, retain}
use alluredeck.Session.{
  Family, Families, FamilyStatus, FamilyStatus-discrete, unset, active, compromised, revoked,
  Stored, ok, err, database, not_found, family_id_required,
}

-- `Status` and `Provider` as `Create` fills them in.
unfoldable pub defaulted : ℕ → Family → Family
defaulted now f = record f {
  status = elim f.status [ unset ↦ active | other ↦ other ];
  provider = if text_eq f.provider [] then codes "local" else f.provider;
  created_at = now;
  updated_at = now;
}

-- `INSERT`: a second row with the same primary key is an error.
unfoldable pub create : Bool → ℕ → Text → Family → Families → Stored Families
unfolding defaulted
create down now id f t =
    if text_eq id []
    then err family_id_required
    else (if down || is_some (lookup text_discrete id t)
        then err database
        else ok (insert text_discrete id (defaulted now f) t))

unfoldable pub get_by_id : Bool → Text → Families → Stored (Option Family)
get_by_id down id t = if down then err database else ok (lookup text_discrete id t)

-- `UPDATE … WHERE family_id = $1`, with the error for no affected row.
unfoldable pub update_row : (Family → Family) → Text → Option Family → Families → Stored Families
update_row change id none t = err not_found
update_row change id (some f) t = ok (insert text_discrete id (change f) t)

unfoldable pub update_where_id : Bool → (Family → Family) → Text → Families → Stored Families
unfolding update_row
update_where_id down change id t =
    if down then err database else update_row change id (lookup text_discrete id t) t

abbrev pub rotated : ℕ → Text → ℕ → Family → Family
rotated now new_jti grace_seconds f = record f {
  previous_jti = some f.current_jti;
  current_jti = new_jti;
  grace_until = some (now + grace_seconds);
  updated_at = now;
}

-- A negative `graceSeconds` is taken as 0.
unfoldable pub rotate : Bool → ℕ → Text → Text → ℕ → Families → Stored Families
unfolding update_where_id
rotate down now id new_jti grace_seconds =
    update_where_id down (rotated now new_jti grace_seconds) id

unfoldable pub set_status : Bool → ℕ → Text → FamilyStatus → Families → Stored Families
unfolding update_where_id
set_status down now id status =
    update_where_id down (λ f. record f { status = status; updated_at = now }) id

unfoldable pub mark_compromised : Bool → ℕ → Text → Families → Stored Families
unfolding set_status
mark_compromised down now id = set_status down now id compromised

unfoldable pub revoke : Bool → ℕ → Text → Families → Stored Families
unfolding set_status
revoke down now id = set_status down now id revoked

abbrev pub is_active_family : Family → Bool
is_active_family f = is_yes (FamilyStatus-discrete f.status active)

abbrev pub revoked_for : ℕ → Text → Family → Family
revoked_for now user f =
    if text_eq f.user_id user && is_active_family f
    then record f { status = revoked; updated_at = now }
    else f

unfoldable pub revoke_rows : ℕ → Text → Families → Families × ℕ
revoke_rows now user [] = ([], 0)
revoke_rows now user ((id, f) ∷ t) =
    let (t', n) = revoke_rows now user t in
    (
      (id, revoked_for now user f) ∷ t',
      if text_eq f.user_id user && is_active_family f then n + 1 else n,
    )

-- The table after the statement, and the number of affected rows.
unfoldable pub revoke_all_for_user : Bool → ℕ → Text → Families → Stored (Families × ℕ)
unfolding revoke_rows
revoke_all_for_user down now user t = if down then err database else ok (revoke_rows now user t)

abbrev pub table_of : Families → Stored (Families × ℕ) → Families
table_of t (ok (t', n)) = t'
table_of t (err e) = t

unfoldable pub delete_expired : Bool → ℕ → Families → Stored Families
delete_expired down now t =
    if down then err database else ok (retain (λ f. not (ltb f.expires_at now)) t)
