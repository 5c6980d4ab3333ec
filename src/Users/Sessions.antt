-- ===== src/Users/Sessions.antt =====
-- The sessions of a deactivated user.
use alluredeck.Prelude.{
  ℕ, ◌<◌, ◌^◌, ◌≡◌, ◌≢◌, ap, subst, ◌⊎◌, inl, inr, Bool, true, false, Option, none, some, arith,
  Text, codes, Option-cases, Bool-cases, text_discrete,
}
use alluredeck.Prelude.Ints.{ℤ, pos, parse_int}
use alluredeck.Prelude.Texts.{to_lower}
use alluredeck.Prelude.Decimal.{format_int, parse_int-format_nat}
use alluredeck.ActiveCache.{ActiveCache}
use alluredeck.Users.{Account, Accounts, find}
use alluredeck.Users.Rows.{get_by_id, get_by_email, as_lookup, first_by_email, store_of}
use alluredeck.Session.{Family, Sessions, ok}
use alluredeck.Session.Refresh.{
  Wiring, Luck, Grant, refreshed, refresh, family_user_inactive, inactive_by, lookup_inactive,
}
use alluredeck.Session.Grants.{grant_of, refresh-refreshed}
use alluredeck.Session.Tokens.{or_empty}
use alluredeck.Users.Register.{IsRegister}
use alluredeck.Users.Admin.{Server, Parts, Faults, delete_user}
use alluredeck.Users.Deactivated.{delete_user-IsGone}
use alluredeck.Users.Shut.{IsShut}

module _ (id : ℤ) (email : Text) (t : Accounts) (c : ActiveCache) (id_down email_down : Bool)
    (shut : IsShut id email t c) where
  idle_by_id : lookup_inactive (as_lookup (get_by_id id_down id t)) ≢ ok false
  unfolding get_by_id
  idle_by_id h = elim (Bool-cases id_down) [
    | inl down ↦ absurd (cc (rw down at h))
    | inr up ↦ elim (Option-cases (find id t)) [
      | inl absent ↦ absurd (cc (rw (up, absent) at h))
      | inr (a, there) ↦ absurd (cc (rw (up, there, shut.idle a there) at h))
    ]
  ]

  idle_by_address :
      (e : Text)
      → to_lower e ≡ to_lower email
      → lookup_inactive (as_lookup (get_by_email email_down e t)) ≢ ok false
  unfolding get_by_email
  idle_by_address e address h = elim (Bool-cases email_down) [
    | inl down ↦ absurd (cc (rw down at h))
    | inr up ↦ elim (Option-cases (first_by_email e t)) [
      | inl absent ↦ absurd (cc (rw (up, absent) at h))
      | inr ((j, b), there) ↦ absurd (cc (rw (up, there, shut.alone e j b address there) at h))
    ]
  ]

-- Whose session it is: one of a login with a password, by id, or one of an outside login, by an
-- address that is no number.
abbrev pub IsSessionOf : ℕ → Text → Grant → Type 0
IsSessionOf n email g =
    (g.user_id ≡ format_int (pos n))
    ⊎ ((g.provider ≡ codes "oidc")
        × (parse_int g.user_id ≡ none)
        × (to_lower g.user_id ≡ to_lower email))

family-inactive :
    (n : ℕ) (email fam jti : Text) (t : Accounts) (c : ActiveCache) (id_down email_down : Bool)
    (f : Family)
    → n < 2 ^ 63
    → IsShut (pos n) email t c
    → IsSessionOf n email (grant_of fam jti f)
    → family_user_inactive (some (store_of id_down email_down t)) f ≢ ok false
unfolding family_user_inactive inactive_by store_of format_int get_by_email text_discrete
family-inactive n email fam jti t c id_down email_down f small shut (inl named) h =
    idle_by_id (pos n) email t c id_down email_down shut
      (rw (named, parse_int-format_nat n small) at h)
family-inactive n email fam jti t c id_down email_down f small shut (inr (oidc, word, address)) h =
    idle_by_address (pos n) email t c id_down email_down shut f.user_id address
      (rw (word, oidc) at h)

-- Deletion ends the sessions: when a user's deletion has been answered with 204, on a table that
-- keeps its rules and with the cache wired, no refresh is granted to a session of theirs while the
-- users table is as the deletion left it, whatever the time, the token, the families and the failures
-- of the database are, and even where the session was not revoked; for a session of the user's id, or
-- of an outside login under an address like theirs that is no number.
pub delete_user-not_refreshed :
    (w : Parts) (l : Faults) (now n : ℕ) (actor : Option Text) (u : Account) (s : Server)
    (w' : Wiring) (l' : Luck) (later : ℕ) (token : Text) (ss : Sessions) (g : Grant)
    (id_down email_down : Bool)
    → IsRegister s.accounts
    → n < 2 ^ 63
    → find (pos n) s.accounts ≡ some u
    → w.has_cache ≡ true
    → (delete_user w l now actor (some (pos n)) s).1 ≡ 204
    → w'.users
      ≡ some (store_of id_down email_down (delete_user w l now actor (some (pos n)) s).0.accounts)
    → IsSessionOf n u.email g
    → (refresh w' l' later token ss).1 ≢ refreshed g
delete_user-not_refreshed w l now n actor u s w' l' later token ss g id_down email_down reg small
      held cached answered users of h =
    let s' = (delete_user w l now actor (some (pos n)) s).0 in
    let (u', held', gone) = delete_user-IsGone w l now (pos n) s reg cached actor answered in
    let same : u' ≡ u = ground (arith, held', held) in
    let shut =
      subst (λ x. IsShut (pos n) x s'.accounts s'.cache) (ap (λ (x : Account). x.email) same)
        gone in
    let j = refresh-refreshed w' l' later token ss g h in
    family-inactive n u.email (or_empty j.claims.fam) g.jti s'.accounts s'.cache id_down email_down
      j.family small shut (subst (IsSessionOf n u.email) j.earned.grant of)
      (subst (λ us. family_user_inactive us j.family ≡ ok false) users j.earned.working)
