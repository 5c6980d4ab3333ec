-- ===== src/Users/Shut.antt =====
-- What a deactivated user can still reach.
use alluredeck.Prelude.{
  ℕ, ◌<◌, ◌^◌, ◌≡◌, ◌≢◌, subst, inl, inr, ◌⊎◌, Bool, true, false, none, some, ◌++◌, arith, Text,
  codes, Option-cases, text_discrete,
}
use alluredeck.Prelude.Ints.{ℤ, parse_int, pos}
use alluredeck.Prelude.Maps.{lookup}
use alluredeck.Prelude.Texts.{to_lower}
use alluredeck.Prelude.Decimal.{format_int, parse_int-format_nat}
use alluredeck.Session.{found, UserStore}
use alluredeck.Session.Tokens.{Claims, or_empty}
use alluredeck.ActiveCache.{ActiveCache, oidc_key, is_env_user, cached}
use alluredeck.Access.{
  ApiKey, Gate, Answers, Principal, anyone, by_token, by_key, passed, authenticate,
}
use alluredeck.Access.Sound.{IsEntitled, authenticate-passed}
use alluredeck.Access.Vouched.{IsVouched, UserIsActive, OwnerIsActive, NumberIsActive}
use alluredeck.Users.{Account, Accounts, find}
use alluredeck.Users.Rows.{get_by_id, get_by_email, first_by_email, as_lookup, store_of}

-- The table knows the user as inactive only, by id and by address, and the cache does not know them.
pub record IsShut (id : ℤ) (email : Text) (t : Accounts) (c : ActiveCache) : Type 0 where
  pub idle : (a : Account) → find id t ≡ some a → a.is_active ≡ false
  pub alone :
      (e : Text) (j : ℤ) (b : Account)
      → to_lower e ≡ to_lower email
      → first_by_email e t ≡ some (j, b)
      → b.is_active ≡ false
  pub cold_id : lookup text_discrete (format_int id) c.entries ≡ none
  pub cold_address : lookup text_discrete (oidc_key email) c.entries ≡ none

-- The answers of a table, read back.
by_id-found :
    (down : Bool) (id : ℤ) (t : Accounts) (u : _)
    → as_lookup (get_by_id down id t) ≡ found u
    → (a : Account) × (find id t ≡ some a) × (u.is_active ≡ a.is_active)
unfolding get_by_id
by_id-found true id t u h = absurd (cc)
by_id-found false id t u h = elim (Option-cases (find id t)) [
  | inl absent ↦ absurd (cc (rw absent at h))
  | inr (a, there) ↦ (a, there, ground (arith, rw there at h))
]

by_email-found :
    (down : Bool) (email : Text) (t : Accounts) (u : _)
    → as_lookup (get_by_email down email t) ≡ found u
    → (j : ℤ) × (b : Account) × (first_by_email email t ≡ some (j, b)) × (u.is_active ≡ b.is_active)
unfolding get_by_email
by_email-found true email t u h = absurd (cc)
by_email-found false email t u h = elim (Option-cases (first_by_email email t)) [
  | inl absent ↦ absurd (cc (rw absent at h))
  | inr ((j, b), there) ↦ (j, b, there, ground (arith, rw there at h))
]

not_cached :
    (now : ℕ) (key : Text) (c : ActiveCache)
    → lookup text_discrete key c.entries ≡ none
    → cached now key c ≢ some true
unfolding cached
not_cached now key c cold h = absurd (cc (rw cold at h))

module _ (id : ℤ) (email : Text) (t : Accounts) (c : ActiveCache) (id_down email_down : Bool)
    (shut : IsShut id email t c) where
  not_by_id : (now : ℕ) → ¬ IsVouched now (format_int id) (as_lookup (get_by_id id_down id t)) c
  not_by_id now (inl hit) = not_cached now (format_int id) c shut.cold_id hit
  not_by_id now (inr (u, said, active)) =
      let (a, there, same) = by_id-found id_down id t u said in
      absurd (cc (shut.idle a there, same, active))

  not_by_email :
      (e : Text) (u : _)
      → to_lower e ≡ to_lower email
      → as_lookup (get_by_email email_down e t) ≡ found u
      → u.is_active ≢ true
  not_by_email e u address said active =
      let (j, b, there, same) = by_email-found email_down e t u said in
      absurd (cc (shut.alone e j b address there, same, active))

  not_by_address :
      (now : ℕ) (e : Text)
      → to_lower e ≡ to_lower email
      → ¬ IsVouched now (oidc_key e) (as_lookup (get_by_email email_down e t)) c
  not_by_address now e address (inl hit) =
      not_cached now (oidc_key email) c shut.cold_address
        (subst (λ x. cached now (codes "oidc:" ++ x) c ≡ some true) address hit)
  not_by_address now e address (inr (u, said, active)) = not_by_email e u address said active

-- Whose request it is: that of a token with the user's id, or, from an outside login, with the address;
-- or that of an API key under the user's address, which is no number and no user of the configuration.
abbrev pub IsOf : ℤ → Text → ActiveCache → Principal → Type 0
IsOf id email c anyone = ⊥
IsOf id email c (by_token claims) =
    ((or_empty claims.provider ≢ codes "oidc") × (or_empty claims.sub ≡ format_int id))
    ⊎ ((or_empty claims.provider ≡ codes "oidc")
        × (to_lower (or_empty claims.sub) ≡ to_lower email))
IsOf id email c (by_key k) =
    (to_lower k.username ≡ to_lower email)
    × (parse_int k.username ≡ none)
    × (is_env_user k.username c ≡ false)

number_active :
    (us : UserStore) (now n : ℕ) (sub : Text) (c : ActiveCache)
    → n < 2 ^ 63
    → sub ≡ format_int (pos n)
    → NumberIsActive us now sub (parse_int sub) c
    → IsVouched now (format_int (pos n)) (us.get_by_id (pos n)) c
unfolding format_int
number_active us now n sub c small named active =
    subst (λ o. NumberIsActive us now (format_int (pos n)) o c) (parse_int-format_nat n small)
      (subst (λ x. NumberIsActive us now x (parse_int x) c) named active)

module _ (n : ℕ) (email : Text) (t : Accounts) (c : ActiveCache) (id_down email_down : Bool)
    (small : n < 2 ^ 63) (shut : IsShut (pos n) email t c) where
  user_refused :
      (now : ℕ) (claims : Claims)
      → IsOf (pos n) email c (by_token claims)
      → ¬ UserIsActive
          (store_of id_down email_down t)
          now
          (or_empty claims.sub)
          (or_empty claims.provider)
          c
  unfolding store_of
  user_refused now claims (inl (local, sub)) (inl (oidc, _)) = local oidc
  user_refused now claims (inl (local, sub)) (inr (_, active)) =
      not_by_id (pos n) email t c id_down email_down shut now (
        number_active (store_of id_down email_down t) now n (or_empty claims.sub) c small sub
          active)
  user_refused now claims (inr (oidc, sub)) (inl (_, active)) =
      not_by_address (pos n) email t c id_down email_down shut now (or_empty claims.sub) sub active
  user_refused now claims (inr (oidc, sub)) (inr (other, _)) = other oidc

  owner_refused :
      (now : ℕ) (k : ApiKey)
      → IsOf (pos n) email c (by_key k)
      → ¬ OwnerIsActive (store_of id_down email_down t) now k.username c
  unfolding store_of
  owner_refused now k (name, word, real) (inl env) = absurd (cc (real, env))
  owner_refused now k (name, word, real) (inr (inl (id, number, _))) = absurd (cc (word, number))
  owner_refused now k (name, word, real) (inr (inr (u, said, active))) =
      not_by_email (pos n) email t c id_down email_down shut k.username u name said active

-- None of those requests is let through.
pub authenticate-IsShut :
    (g : Gate) (a : Answers) (now : ℕ) (token : Text) (n : ℕ) (email : Text) (t : Accounts)
    (c : ActiveCache) (p : Principal) (id_down email_down : Bool)
    → n < 2 ^ 63
    → IsShut (pos n) email t c
    → a.users ≡ store_of id_down email_down t
    → g.security_enabled ≡ true
    → g.has_active_cache ≡ true
    → IsOf (pos n) email c p
    → (authenticate g a now token c).1 ≢ passed p
unfolding store_of
authenticate-IsShut g a now token n email t c p id_down email_down small shut users on recheck of
      h =
    refuse p (authenticate-passed g a now token c p on h) of
  where
    refuse : (p : Principal) → IsEntitled g a now token c p → ¬ IsOf (pos n) email c p
    refuse anyone e of = of
    refuse (by_token claims) (valid, active) of =
        user_refused n email t c id_down email_down small shut now claims of (
          subst (λ us. UserIsActive us now (or_empty claims.sub) (or_empty claims.provider) c) users
            (active recheck))
    refuse (by_key k) (access, stored, fresh, active) of =
        owner_refused n email t c id_down email_down small shut now k of
          (subst (λ us. OwnerIsActive us now k.username c) users (active recheck))
