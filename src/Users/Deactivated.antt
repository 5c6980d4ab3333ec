-- ===== src/Users/Deactivated.antt =====
-- What a deactivation leaves of a user's access.
use alluredeck.Prelude.{
  ℕ, ◌<◌, ◌^◌, ◌≡◌, ◌≢◌, refl, ap, subst, inl, inr, Bool, true, false, Option, none, some, arith,
  Text, Bool-cases, if◌then◌else◌,
}
use alluredeck.Prelude.Ints.{ℤ, pos}
use alluredeck.Access.{Gate, Answers, Principal, passed, authenticate}
use alluredeck.Users.{
  Account, Accounts, Written, written, refused, AccountError, database, missing, duplicate_entry,
  email_already_linked, find, row_failed, update_where, deactivate, is_env,
}
use alluredeck.Users.Rows.{row_of, get_by_id, store_of}
use alluredeck.Users.Register.{IsRegister}
use alluredeck.Users.Admin.{
  Server, Parts, Faults, claims_user_id, is_self, revoke_user_families, cascade_delete_api_keys,
  invalidate_active_cache, with_accounts, error_status, delete_user, delete_loaded, delete_written,
}
use alluredeck.Users.Shut.{IsShut, IsOf, authenticate-IsShut}
use alluredeck.Users.Gone.{
  inactive-IsShut, revoke_user-KeepsUsers, cascade-KeepsUsers, IsGone, KeepsUsers-IsGone,
}

module _ (w : Parts) (l : Faults) (now : ℕ) (id : ℤ) (s : Server) (reg : IsRegister s.accounts)
    (cached : w.has_cache ≡ true) where
  -- After the statement and the purge.
  purged-IsGone :
      (down : Bool) (change : Account → Account) (u : Account) (t : Accounts)
      → find id s.accounts ≡ some u
      → ((a : Account) → is_env a ≡ false → is_env (change a) ≡ false)
      → (change u).is_active ≡ false
      → (change u).email ≡ u.email
      → update_where down id change s.accounts ≡ written t
      → IsGone id u (invalidate_active_cache w id u (with_accounts s t))
  unfolding invalidate_active_cache
  purged-IsGone down change u t there keeps off same h =
      rw cached (inactive-IsShut down id change u s.accounts t s.cache reg there keeps off same h)

  -- And after the cascade behind it.
  revoked-IsGone :
      (u : Account) (t : Accounts)
      → IsGone id u (invalidate_active_cache w id u (with_accounts s t))
      → IsGone id u
          (revoke_user_families w l now id u (invalidate_active_cache w id u (with_accounts s t)))
  revoked-IsGone u t gone =
      let s' = invalidate_active_cache w id u (with_accounts s t) in
      KeepsUsers-IsGone id u s' (revoke_user_families w l now id u s')
        (revoke_user-KeepsUsers w l now id u s') gone

  cascaded-IsGone :
      (u : Account) (t : Accounts)
      → IsGone id u (invalidate_active_cache w id u (with_accounts s t))
      → IsGone id u (delete_written w l now id u s (written t)).0
  unfolding delete_written
  cascaded-IsGone u t gone =
      let s' =
        revoke_user_families w l now id u (invalidate_active_cache w id u (with_accounts s t)) in
      KeepsUsers-IsGone id u s' (cascade_delete_api_keys w l.keys_down u.email s')
        (cascade-KeepsUsers w l.keys_down u.email s') (revoked-IsGone u t gone)

  delete_written-IsGone :
      (u : Account) (o : Written)
      → find id s.accounts ≡ some u
      → deactivate l.write_down now id s.accounts ≡ o
      → (delete_written w l now id u s o).1 ≡ 204
      → IsGone id u (delete_written w l now id u s o).0
  unfolding deactivate
  delete_written-IsGone u (refused e) there made h =
      absurd (no_error e (unfold delete_written in h))
    where
      no_error : (e : AccountError) → error_status e ≢ 204
      no_error missing h = absurd (omega arith)
      no_error database h = absurd (omega arith)
      no_error duplicate_entry h = absurd (omega arith)
      no_error email_already_linked h = absurd (omega arith)
  delete_written-IsGone u (written t) there made h =
      cascaded-IsGone u t (purged-IsGone l.write_down _ u t there (λ a r. r) refl refl made)

  delete_loaded-IsGone :
      (down : Bool) (o : Option Account)
      → find id s.accounts ≡ o
      → (delete_loaded w l now s (if down then row_failed else row_of id o)).1 ≡ 204
      → (u : Account) × (find id s.accounts ≡ some u)
        × IsGone id u (delete_loaded w l now s (if down then row_failed else row_of id o)).0
  unfolding delete_loaded
  delete_loaded-IsGone true o held h = absurd (omega arith)
  delete_loaded-IsGone false none held h = absurd (omega arith)
  delete_loaded-IsGone false (some u) held h = (u, held, delete_written-IsGone u _ held refl h)

  -- A deletion that is answered with 204 found the user.
  pub delete_user-IsGone :
      (actor : Option Text)
      → (delete_user w l now actor (some id) s).1 ≡ 204
      → (u : Account) × (find id s.accounts ≡ some u)
        × IsGone id u (delete_user w l now actor (some id) s).0
  unfolding delete_user get_by_id
  delete_user-IsGone actor h = elim (Bool-cases (is_self (claims_user_id actor) id)) [
    | inl self ↦ absurd (omega (arith, rw self at h))
    | inr other ↦ rw other (delete_loaded-IsGone l.get_down _ refl (rw other at h))
  ]

-- Deletion ends access at once: when a user's deletion has been answered with 204, the next request
-- with a token of theirs, found by id or, for an outside login, by address, or with an API key under
-- their address that is no number and no name of the configuration, is not let through, whatever the cache held before and even where a session or a key
-- was not revoked; for a table that holds one row per id and address, and with the recheck wired.
pub delete_user-refused :
    (w : Parts) (l : Faults) (now n : ℕ) (actor : Option Text) (u : Account) (s : Server) (g : Gate)
    (a : Answers) (later : ℕ) (token : Text) (p : Principal) (id_down email_down : Bool)
    → IsRegister s.accounts
    → n < 2 ^ 63
    → find (pos n) s.accounts ≡ some u
    → w.has_cache ≡ true
    → (delete_user w l now actor (some (pos n)) s).1 ≡ 204
    → a.users ≡ store_of id_down email_down (delete_user w l now actor (some (pos n)) s).0.accounts
    → g.security_enabled ≡ true
    → g.has_active_cache ≡ true
    → IsOf (pos n) u.email (delete_user w l now actor (some (pos n)) s).0.cache p
    → (authenticate g a later token (delete_user w l now actor (some (pos n)) s).0.cache).1
      ≢ passed p
delete_user-refused w l now n actor u s g a later token p id_down email_down reg small held cached
      answered users on recheck of =
    let s' = (delete_user w l now actor (some (pos n)) s).0 in
    let (u', held', gone) = delete_user-IsGone w l now (pos n) s reg cached actor answered in
    let same : u' ≡ u = ground (arith, held', held) in
    authenticate-IsShut g a later token n u.email s'.accounts s'.cache p id_down email_down small
      (subst (λ x. IsShut (pos n) x s'.accounts s'.cache) (ap (λ (x : Account). x.email) same) gone)
      users on recheck of
