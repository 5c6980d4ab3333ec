-- ===== src/Access/Scope.antt =====
-- The roles that RequireRole compares, and an API key's list of projects.
use alluredeck.Prelude.{
  ℕ, ◌≡◌, ◌↔◌, ◌⊎◌, refl, inl, inr, true, false, List, [], ◌∷◌, arith, Text, text_eq, codes,
  Bool-cases, any, ◌==◌, ◌||◌, text_eq_iff, ltb, text_discrete, subst,
}
use alluredeck.Access.{
  Principal, anyone, by_token, by_key, Admission, passed, denied, role_claim, role_level,
  require_role, ApiKey, api_key_project_allowed, is_unscoped, Gate, Answers, authenticate, guarded,
  behind,
}
use alluredeck.ActiveCache.{ActiveCache}
use alluredeck.Access.Sound.{IsEntitled, authenticate-passed}

-- The roles, each of which may do what those before it may.
pub data Role : Type 0 where
  viewer editor admin : Role

abbrev pub name : Role → Text
name viewer = codes "viewer"
name editor = codes "editor"
name admin = codes "admin"

-- The first role may do what the second one may.
abbrev pub Covers : Role → Role → Type 0
Covers admin r = Unit
Covers editor viewer = Unit
Covers editor editor = Unit
Covers viewer viewer = Unit
Covers _ _ = ⊥

level-Covers : (q r : Role) → (ltb (role_level (name q)) (role_level (name r)) ≡ false) ↔ Covers q r
unfolding role_level text_discrete
level-Covers viewer viewer = ground arith
level-Covers viewer editor = ground arith
level-Covers viewer admin = ground arith
level-Covers editor viewer = ground arith
level-Covers editor editor = ground arith
level-Covers editor admin = ground arith
level-Covers admin viewer = ground arith
level-Covers admin editor = ground arith
level-Covers admin admin = ground arith

-- A claim names a role, or it has level 0.
level-cases : (t : Text) → ((q : Role) × (t ≡ name q)) ⊎ (role_level t ≡ 0)
unfolding role_level
level-cases t = elim (Bool-cases (text_eq t (codes "viewer"))) [
  | inl v ↦ inl (viewer, (text_eq_iff t _).0 v)
  | inr v ↦ elim (Bool-cases (text_eq t (codes "editor"))) [
    | inl e ↦ inl (editor, (text_eq_iff t _).0 e)
    | inr e ↦ elim (Bool-cases (text_eq t (codes "admin"))) [
      | inl a ↦ inl (admin, (text_eq_iff t _).0 a)
      | inr a ↦ inr (rw (v, e, a) refl)
    ]
  ]
]

level-positive : (r : Role) → ltb 0 (role_level (name r)) ≡ true
unfolding role_level text_discrete
level-positive viewer = refl
level-positive editor = refl
level-positive admin = refl

abbrev pub HasRole : Role → Text → Type 0
HasRole r t = (q : Role) × (t ≡ name q) × Covers q r

enough-HasRole :
    (r : Role) (t : Text) → ltb (role_level t) (role_level (name r)) ≡ false → HasRole r t
enough-HasRole r t h = elim (level-cases t) [
  | inl (q, same) ↦ (q, same, (level-Covers q r).0 (rw same at h))
  | inr zero ↦ absurd (cc (rw zero at h, level-positive r))
]

require_role-claim :
    (r : Role) (p q : Principal)
    → require_role (name r) p ≡ passed q
    → (p ≡ q) × HasRole r (role_claim p)
unfolding require_role
require_role-claim r anyone q h = absurd (cc)
require_role-claim r (by_token c) q h =
    elim (Bool-cases (ltb (role_level (role_claim (by_token c))) (role_level (name r)))) [
      | inl low ↦ absurd (cc (rw low at h))
      | inr enough ↦ (ground (arith, rw enough at h), enough-HasRole r _ enough)
    ]
require_role-claim r (by_key k) q h =
    elim (Bool-cases (ltb (role_level k.role) (role_level (name r)))) [
      | inl low ↦ absurd (cc (rw low at h))
      | inr enough ↦ (ground (arith, rw enough at h), enough-HasRole r _ enough)
    ]

behind-passed :
    (next : Principal → Admission) (x : ActiveCache × Admission) (q : Principal)
    → (behind next x).1 ≡ passed q
    → (p : Principal) × (x.1 ≡ passed p) × (next p ≡ passed q)
behind-passed next (c, passed p) q h = (p, refl, h)
behind-passed next (c, denied status) q h = absurd (cc)

disabled-anyone :
    (g : Gate) (a : Answers) (now : ℕ) (token : Text) (c : ActiveCache) (p : Principal)
    → g.security_enabled ≡ false
    → (authenticate g a now token c).1 ≡ passed p
    → p ≡ anyone
unfolding authenticate
disabled-anyone g a now token c p off h = ground (arith, rw off at h)

-- A request reaches a handler behind a role only where security is enabled, on a valid token of the
-- expected kind or a stored unexpired API key whose user the recheck has found active, as
-- `authenticate-passed` says; and the claim that it carries on names that role or a higher one.
pub guarded-passed :
    (g : Gate) (a : Answers) (now : ℕ) (r : Role) (token : Text) (c : ActiveCache) (p : Principal)
    → (guarded g a now (name r) token c).1 ≡ passed p
    → (g.security_enabled ≡ true) × IsEntitled g a now token c p × HasRole r (role_claim p)
unfolding guarded
guarded-passed g a now r token c p h =
    let (q, let_in, role) =
      behind-passed (require_role (name r)) (authenticate g a now token c) p h in
    let (same, has) = require_role-claim r q p role in
    elim (Bool-cases g.security_enabled) [
      | inl on ↦ (
        on,
        subst (IsEntitled g a now token c) same (authenticate-passed g a now token c q on let_in),
        subst (λ x. HasRole r (role_claim x)) same has,
      )
      | inr off ↦ absurd (
          nobody r (
            subst (λ x. HasRole r (role_claim x)) (disabled-anyone g a now token c q off let_in)
              has))
    ]
  where
    nobody : (r : Role) → ¬ HasRole r []
    nobody r (viewer, h, _) = absurd (cc)
    nobody r (editor, h, _) = absurd (cc)
    nobody r (admin, h, _) = absurd (cc)

-- A key is held to its list of projects.
abbrev pub Listed : ℕ → List ℕ → Type 0
Listed id [] = ⊥
Listed id (i ∷ is) = (i ≡ id) ⊎ Listed id is

any-Listed : (id : ℕ) (is : List ℕ) → (any (λ (i : ℕ). i == id) is ≡ true) ↔ Listed id is
any-Listed id [] = ground arith
any-Listed id (i ∷ is) = ground (arith, any-Listed id is)

any_or-Listed :
    (id : ℕ) (is : List ℕ)
    → ((is_unscoped is || any (λ (i : ℕ). i == id) is) ≡ true) ↔ ((is ≡ []) ⊎ Listed id is)
any_or-Listed id [] = (λ _. inl refl, λ _. refl)
any_or-Listed id (i ∷ is) = (λ h. inr ((any-Listed id (i ∷ is)).0 h), back)
  where
    back : (((i ∷ is) ≡ []) ⊎ Listed id (i ∷ is)) → (any (λ (j : ℕ). j == id) (i ∷ is)) ≡ true
    back (inl none) = absurd (cc)
    back (inr there) = (any-Listed id (i ∷ is)).1 there

-- An API key is held to its list of projects, if it has one; no other request is.
pub api_key_project_allowed_iff :
    (id : ℕ) (k : ApiKey)
    → (api_key_project_allowed id (by_key k) ≡ true)
      ↔ ((k.project_ids ≡ []) ⊎ Listed id k.project_ids)
unfolding api_key_project_allowed
api_key_project_allowed_iff id k = any_or-Listed id k.project_ids
