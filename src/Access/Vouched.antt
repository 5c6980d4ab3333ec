-- ===== src/Access/Vouched.antt =====
-- Whom the store or the cache calls active.
use alluredeck.Prelude.{
  ℕ, ◌≡◌, ◌⊎◌, refl, inl, inr, Bool, true, false, Option, none, some, arith, Text, text_eq, codes,
  Bool-cases, Option-cases, text_eq_iff, text_discrete, is_yes-false, ◌≢◌,
}
use alluredeck.Prelude.Ints.{ℤ, parse_int}
use alluredeck.Session.{Lookup, found, user_not_found, lookup_failed, UserStore, Stored, ok, err}
use alluredeck.ActiveCache.{
  ActiveCache, KeyIdentity, is_active_for_token, is_active_user, resolve_api_key_username,
  by_number, lookup_active, load, cached, oidc_key, key_owner, key_owner_by_email, key_owner_row,
  identity_of, is_env_user,
}

-- The store, or the cache under the key, says that the user is active.
abbrev pub IsVouched : ℕ → Text → Lookup → ActiveCache → Type 0
IsVouched now key answer c =
    (cached now key c ≡ some true) ⊎ ((u : _) × (answer ≡ found u) × (u.is_active ≡ true))

-- The user of a token: found by the address for an OIDC login, else by the number; a name that is
-- no number is a user of the configuration.
abbrev pub NumberIsActive : UserStore → ℕ → Text → Option ℤ → ActiveCache → Type 0
NumberIsActive us now sub none c = Unit
NumberIsActive us now sub (some id) c = IsVouched now sub (us.get_by_id id) c

abbrev pub UserIsActive : UserStore → ℕ → Text → Text → ActiveCache → Type 0
UserIsActive us now sub provider c =
    ((provider ≡ codes "oidc") × IsVouched now (oidc_key sub) (us.get_by_email sub) c)
    ⊎ ((provider ≢ codes "oidc") × NumberIsActive us now sub (parse_int sub) c)

-- The owner of a key: a user of the configuration, or one whom the store or the cache vouches for.
abbrev pub OwnerIsActive : UserStore → ℕ → Text → ActiveCache → Type 0
OwnerIsActive us now username c =
    (is_env_user username c ≡ true)
    ⊎ (((id : ℤ) × (parse_int username ≡ some id) × IsVouched now username (us.get_by_id id) c)
        ⊎ ((u : _) × (us.get_by_email username ≡ found u) × (u.is_active ≡ true)))

load-active :
    (now : ℕ) (key : Text) (answer : Lookup) (c : ActiveCache)
    → (load now key answer c).1 ≡ ok true
    → (u : _) × (answer ≡ found u) × (u.is_active ≡ true)
unfolding load
load-active now key (found u) c h = (u, refl, ground (arith, h))
load-active now key user_not_found c h = absurd (cc)
load-active now key lookup_failed c h = absurd (cc)

lookup_active-IsVouched :
    (now : ℕ) (key : Text) (answer : Lookup) (c : ActiveCache)
    → (lookup_active now key answer c).1 ≡ ok true
    → IsVouched now key answer c
unfolding lookup_active
lookup_active-IsVouched now key answer c h = elim (Option-cases (cached now key c)) [
  | inl missed ↦ inr (load-active now key answer c (rw missed at h))
  | inr (b, hit) ↦ inl (ground (arith, hit, rw hit at h))
]

by_number-NumberIsActive :
    (us : UserStore) (now : ℕ) (sub : Text) (o : Option ℤ) (c : ActiveCache)
    → (by_number us now sub o c).1 ≡ ok true
    → NumberIsActive us now sub o c
by_number-NumberIsActive us now sub none c h = tt
by_number-NumberIsActive us now sub (some id) c h =
    lookup_active-IsVouched now sub (us.get_by_id id) c h

pub is_active_for_token-UserIsActive :
    (us : UserStore) (now : ℕ) (sub provider : Text) (c : ActiveCache)
    → (is_active_for_token us now sub provider c).1 ≡ ok true
    → UserIsActive us now sub provider c
unfolding is_active_for_token is_active_user
is_active_for_token-UserIsActive us now sub provider c h =
    elim (Bool-cases (text_eq provider (codes "oidc"))) [
      | inl oidc ↦ inl (
        (text_eq_iff provider (codes "oidc")).0 oidc,
        lookup_active-IsVouched now (oidc_key sub) (us.get_by_email sub) c (rw oidc at h),
      )
      | inr other ↦ inr (
        is_yes-false (text_discrete provider (codes "oidc")) other,
        by_number-NumberIsActive us now sub (parse_int sub) c (rw other at h),
      )
    ]

-- What the resolution of a key's owner says of it.
abbrev pub HasActive : Stored KeyIdentity → Type 0
HasActive r = (id : KeyIdentity) × (r ≡ ok id) × (id.is_active ≡ true)

row-active :
    (us : UserStore) (now : ℕ) (username : Text) (env : Bool) (answer : Lookup) (c : ActiveCache)
    → HasActive (key_owner_row now username env answer c).1
    → (env ≡ true) ⊎ ((u : _) × (answer ≡ found u) × (u.is_active ≡ true))
unfolding key_owner_row
row-active us now username env (found u) c (id, h, active) =
    inr (u, refl, ground (arith, h, active))
row-active us now username true user_not_found c h = inl refl
row-active us now username false user_not_found c (id, h, active) = absurd (cc)
row-active us now username env lookup_failed c (id, h, active) = absurd (cc)

email-active :
    (us : UserStore) (now : ℕ) (username : Text) (env : Bool) (c : ActiveCache)
    → HasActive (key_owner_by_email us now username env c).1
    → (env ≡ true) ⊎ ((u : _) × (us.get_by_email username ≡ found u) × (u.is_active ≡ true))
unfolding key_owner_by_email
email-active us now username true c h = inl refl
email-active us now username false c h =
    row-active us now username false (us.get_by_email username) c h

identity_of-active :
    (id : ℤ) (r : ActiveCache × Stored Bool) → HasActive (identity_of id r).1 → r.1 ≡ ok true
identity_of-active id (c, ok b) (i, h, active) = ground (arith, h, active)
identity_of-active id (c, err e) (i, h, active) = absurd (cc)

owner-active :
    (us : UserStore) (now : ℕ) (username : Text) (env : Bool) (o : Option ℤ) (c : ActiveCache)
    → HasActive (key_owner us now username env o c).1
    → (env ≡ true)
      ⊎ (((id : ℤ) × (o ≡ some id) × IsVouched now username (us.get_by_id id) c)
          ⊎ ((u : _) × (us.get_by_email username ≡ found u) × (u.is_active ≡ true)))
owner-active us now username true o c h = inl refl
owner-active us now username false (some id) c h = inr (
    inl (
      id,
      refl,
      lookup_active-IsVouched now username (us.get_by_id id) c
          (identity_of-active id (lookup_active now username (us.get_by_id id) c) h),
    ))
owner-active us now username false none c h = elim (email-active us now username false c h) [
  | inl env ↦ inl env
  | inr row ↦ inr (inr row)
]

-- The owner is judged by the store or by the cache.
pub resolve_api_key_username-OwnerIsActive :
    (us : UserStore) (now : ℕ) (username : Text) (c : ActiveCache) (id : KeyIdentity)
    → (resolve_api_key_username us now username c).1 ≡ ok id
    → id.is_active ≡ true
    → OwnerIsActive us now username c
unfolding resolve_api_key_username
resolve_api_key_username-OwnerIsActive us now username c id h active =
    owner-active us now username (is_env_user username c) (parse_int username) c (id, h, active)
