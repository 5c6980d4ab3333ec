-- ===== src/Access/Sound.antt =====
-- What a request that the middleware lets through has shown.
use alluredeck.Prelude.{
  ℕ, ◌/◌, ◌≡◌, refl, inl, inr, Bool, true, false, [], arith, Text, text_eq, Bool-cases, subst,
}
use alluredeck.Session.{Stored, ok, err}
use alluredeck.Session.Tokens.{Validated, good, bad, or_empty, validate_token}
use alluredeck.Throttle.{second}
use alluredeck.ActiveCache.{ActiveCache, KeyIdentity, resolve_api_key_username}
use alluredeck.Access.{
  KeyLookup, key_found, key_not_found, key_lookup_failed, Principal, anyone, by_token, by_key,
  passed, Gate, Answers, rechecked, only_active, admit_key, admit_token, authenticate,
  is_key_request, is_expired, expected_type,
}
use alluredeck.Access.Vouched.{
  UserIsActive, OwnerIsActive, is_active_for_token-UserIsActive, HasActive,
  resolve_api_key_username-OwnerIsActive,
}

rechecked-passed :
    (p q : Principal) (r : ActiveCache × Stored Bool)
    → (rechecked p r).1 ≡ passed q
    → (p ≡ q) × (r.1 ≡ ok true)
unfolding rechecked
rechecked-passed p q (c, err e) h = absurd (cc)
rechecked-passed p q (c, ok true) h = (ground (arith, h), refl)
rechecked-passed p q (c, ok false) h = absurd (cc)

only_active-true :
    (r : ActiveCache × Stored KeyIdentity) → (only_active r).1 ≡ ok true → HasActive r.1
only_active-true (c, ok id) h = (id, refl, ground (arith, h))
only_active-true (c, err e) h = absurd (cc)

-- On what ground a principal is let through.
abbrev pub IsEntitled : Gate → Answers → ℕ → Text → ActiveCache → Principal → Type 0
IsEntitled g a now token c anyone = ⊥
IsEntitled g a now token c (by_token claims) =
    (validate_token g.parse a.blacklist_down (now / second) token (expected_type g.is_refresh)
        a.blacklist
      ≡ good claims)
    × (g.has_active_cache ≡ true
        → UserIsActive a.users now (or_empty claims.sub) (or_empty claims.provider) c)
IsEntitled g a now token c (by_key k) =
    (g.is_refresh ≡ false)
    × (a.key_by_hash (g.hash token) ≡ key_found k)
    × (is_expired now k.expires_at ≡ false)
    × (g.has_active_cache ≡ true → OwnerIsActive a.users now k.username c)

token-IsEntitled :
    (g : Gate) (a : Answers) (now : ℕ) (token : Text) (c : ActiveCache) (v : Validated)
    (p : Principal)
    → validate_token g.parse a.blacklist_down
        (now / second)
        token
        (expected_type g.is_refresh)
        a.blacklist
      ≡ v
    → (admit_token g a now c v).1 ≡ passed p
    → IsEntitled g a now token c p
unfolding admit_token
token-IsEntitled g a now token c (bad e) p v h = absurd (cc)
token-IsEntitled g a now token c (good claims) p v h = elim (Bool-cases g.has_active_cache) [
  | inr off ↦
      let same : by_token claims ≡ p = ground (arith, rw off at h) in
      subst (IsEntitled g a now token c) same (v, λ on. absurd (cc))
  | inl on ↦
      let (same, active) = rechecked-passed (by_token claims) p _ (rw on at h) in
      subst (IsEntitled g a now token c) same
        (v, λ _. is_active_for_token-UserIsActive a.users now _ _ c active)
]

key-IsEntitled :
    (g : Gate) (a : Answers) (now : ℕ) (token : Text) (c : ActiveCache) (r : KeyLookup)
    (p : Principal)
    → g.is_refresh ≡ false
    → a.key_by_hash (g.hash token) ≡ r
    → (admit_key g a now c r).1 ≡ passed p
    → IsEntitled g a now token c p
unfolding admit_key
key-IsEntitled g a now token c key_not_found p access row h = absurd (cc)
key-IsEntitled g a now token c key_lookup_failed p access row h = absurd (cc)
key-IsEntitled g a now token c (key_found k) p access row h =
    elim (Bool-cases (is_expired now k.expires_at)) [
      | inl late ↦ absurd (cc (rw late at h))
      | inr fresh ↦ elim (Bool-cases g.has_active_cache) [
        | inr off ↦
            let same : by_key k ≡ p = ground (arith, rw (fresh, off) at h) in
            subst (IsEntitled g a now token c) same (access, row, fresh, λ on. absurd (cc))
        | inl on ↦
            let (same, active) = rechecked-passed (by_key k) p _ (rw (fresh, on) at h) in
            let (id, owner, works) =
              only_active-true (resolve_api_key_username a.users now k.username c) active in
            subst (IsEntitled g a now token c) same (
              access,
              row,
              fresh,
              λ _. resolve_api_key_username-OwnerIsActive a.users now k.username c id owner works,
            )
      ]
    ]

is_key_request-access :
    (g : Gate) (token : Text) → is_key_request g token ≡ true → g.is_refresh ≡ false
unfolding is_key_request
is_key_request-access g token h = ground (arith, h)

-- Soundness of the middleware: with security enabled, a request is let through only on a token of the
-- expected kind that validates and is not revoked, or, where access tokens are expected, on an API key
-- whose hash is stored and that has not expired; and if the recheck is wired, the store or an unexpired
-- entry of the cache says that the token's user or the key's owner is active, unless the name is one
-- of the configuration's.
pub authenticate-passed :
    (g : Gate) (a : Answers) (now : ℕ) (token : Text) (c : ActiveCache) (p : Principal)
    → g.security_enabled ≡ true
    → (authenticate g a now token c).1 ≡ passed p
    → IsEntitled g a now token c p
unfolding authenticate is_key_request
authenticate-passed g a now token c p enabled h = elim (Bool-cases (text_eq token [])) [
  | inl blank ↦ absurd (cc (rw (enabled, blank) at h))
  | inr carried ↦ elim (Bool-cases (is_key_request g token)) [
    | inl key ↦
        key-IsEntitled g a now token c _ p (is_key_request-access g token key) refl
          (rw (enabled, carried, key) at h)
    | inr jwt ↦ token-IsEntitled g a now token c _ p refl (rw (enabled, carried, jwt) at h)
  ]
]
