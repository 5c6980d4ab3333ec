-- ===== src/Users/Gone.antt =====
-- What a deletion leaves of a user, and the steps that keep the users.
use alluredeck.Prelude.{
  ℕ, ◌≡◌, refl, sym, ◌∙◌, ap, subst, inl, inr, Bool, true, false, not, ◌||◌, Option, none, some, [],
  arith, Text, text_eq, codes, Bool-cases, ite, text_discrete,
}
use alluredeck.Prelude.Ints.{ℤ, ℤ_discrete}
use alluredeck.Prelude.Maps.{
  lookup, insert, delete, lookup-insert_self, lookup-delete, lookup-delete_self,
}
use alluredeck.Prelude.Texts.{to_lower}
use alluredeck.Prelude.Decimal.{format_int}
use alluredeck.ActiveCache.{ActiveCache, Entries, invalidate, oidc_key, env_user_key}
use alluredeck.Users.{
  Account, Accounts, written, database, find, update_where, update_found, is_env,
}
use alluredeck.Users.Register.{IsRegister, settled, update_where-IsRegister, put_row-written}
use alluredeck.Users.Admin.{
  Server, Parts, Faults, revoke_all_families, revoke_user_families, cascade_delete_api_keys,
}
use alluredeck.Users.Shut.{IsShut}
use alluredeck.Users.Addresses.{first_by_email-find}

update_where-written :
    (down : Bool) (id : ℤ) (change : Account → Account) (u : Account) (t t' : Accounts)
    → find id t ≡ some u
    → update_where down id change t ≡ written t'
    → t' ≡ insert ℤ_discrete id (change u) t
unfolding update_where update_found
update_where-written true id change u t t' there h = absurd (cc)
update_where-written false id change u t t' there h =
    put_row-written database database id (change u) t t' (rw there at h)

delete-none :
    (k q : Text) (es : Entries)
    → lookup text_discrete q es ≡ none
    → lookup text_discrete q (delete text_discrete k es) ≡ none
delete-none k q es h =
    lookup-delete text_discrete k q es
    ∙ (elim (text_discrete k q)
        as (λ (d : Dec (k ≡ q)). ite d none (lookup text_discrete q es) ≡ none) [
          | yes same ↦ refl
          | no other ↦ h
        ])

-- A written row that is inactive and keeps its address, with the cache purged of it.
pub inactive-IsShut :
    (down : Bool) (id : ℤ) (change : Account → Account) (u : Account) (t t' : Accounts)
    (c : ActiveCache)
    → IsRegister t
    → find id t ≡ some u
    → ((a : Account) → is_env a ≡ false → is_env (change a) ≡ false)
    → (change u).is_active ≡ false
    → (change u).email ≡ u.email
    → update_where down id change t ≡ written t'
    → IsShut id u.email t' (
        invalidate
          (env_user_key u.email)
          (invalidate (oidc_key u.email) (invalidate (format_int id) c)))
unfolding invalidate
inactive-IsShut down id change u t t' c reg there keeps off same h =
    let e = update_where-written down id change u t t' there h in
    let stored : find id t' ≡ some (change u) =
      rw e (lookup-insert_self ℤ_discrete id (change u) t) in
    let reg' : IsRegister t' =
      subst (λ x. IsRegister (settled t x)) h
        (update_where-IsRegister down id change t keeps reg) in
    record {
      idle = λ a found. ap (λ (x : Account). x.is_active) (one found stored) ∙ off;
      alone = λ address j b mail found.
          let (held, named) = first_by_email-find address j b t' reg'.keyed found in
          let here : j ≡ id =
            reg'.single j id b (change u) held stored (named ∙ mail ∙ ap to_lower (sym same)) in
          ap (λ (x : Account). x.is_active) (one (subst (λ i. find i t' ≡ some b) here held) stored)
          ∙ off;
      cold_id = delete-none (env_user_key u.email) (format_int id) _ (
          delete-none (oidc_key u.email) (format_int id) _
            (lookup-delete_self text_discrete (format_int id) c.entries));
      cold_address = delete-none (env_user_key u.email) (oidc_key u.email) _ (
          lookup-delete_self text_discrete (oidc_key u.email)
            (delete text_discrete (format_int id) c.entries));
    }
  where
    one : {o : Option Account} {a b : Account} → o ≡ some a → o ≡ some b → a ≡ b
    one h k = ground (arith, h, k)

-- Revoking sessions and deleting keys touches neither the users nor the cache.
abbrev KeepsUsers : Server → Server → Type 0
KeepsUsers s s' = (s'.accounts ≡ s.accounts) × (s'.cache ≡ s.cache)

revoke_all-KeepsUsers :
    (w : Parts) (down : Bool) (now : ℕ) (sub : Text) (s : Server)
    → KeepsUsers s (revoke_all_families w down now sub s)
unfolding revoke_all_families
revoke_all-KeepsUsers w down now sub s = elim (Bool-cases w.has_families) [
  | inl on ↦ rw on (refl, refl)
  | inr off ↦ rw off (refl, refl)
]

pub revoke_user-KeepsUsers :
    (w : Parts) (l : Faults) (now : ℕ) (id : ℤ) (u : Account) (s : Server)
    → KeepsUsers s (revoke_user_families w l now id u s)
unfolding revoke_user_families
revoke_user-KeepsUsers w l now id u s =
    let first = revoke_all-KeepsUsers w l.families_down now (format_int id) s in
    let second =
      revoke_all-KeepsUsers w l.oidc_families_down now u.email
        (revoke_all_families w l.families_down now (format_int id) s) in
    elim (Bool-cases (text_eq u.provider (codes "oidc"))) [
      | inl oidc ↦ rw oidc (second.0 ∙ first.0, second.1 ∙ first.1)
      | inr local ↦ rw local first
    ]

pub cascade-KeepsUsers :
    (w : Parts) (down : Bool) (username : Text) (s : Server)
    → KeepsUsers s (cascade_delete_api_keys w down username s)
unfolding cascade_delete_api_keys
cascade-KeepsUsers w down username s = elim (Bool-cases (not w.has_keys || text_eq username [])) [
  | inl off ↦ rw off (refl, refl)
  | inr on ↦ rw on (refl, refl)
]

-- The user is inactive, and the cache knows nothing of them.
abbrev pub IsGone : ℤ → Account → Server → Type 0
IsGone id u s = IsShut id u.email s.accounts s.cache

pub KeepsUsers-IsGone :
    (id : ℤ) (u : Account) (s s' : Server) → KeepsUsers s s' → IsGone id u s → IsGone id u s'
KeepsUsers-IsGone id u s s' k gone = rw (k.0, k.1) gone
