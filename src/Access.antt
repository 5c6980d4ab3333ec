-- ===== src/Access.antt =====
-- Who reaches a handler: AuthMiddleware and RequireRole of api/internal/middleware/auth.go, the key hash
-- of security/apikey.go, and the project scope of handlers/project_id.go. SHA-256 in hex is the
-- parameter `hash`; the table of API keys is what it answers for a hash. `now` is in nanoseconds, and a
-- token is judged by its seconds.
pub mod Vouched
pub mod Sound
pub mod Scope
mod Examples
use alluredeck.Prelude.{
  ℕ, ◌/◌, Bool, true, false, not, ◌&&◌, ◌||◌, Option, none, some, List, [], ◌∷◌, Text, text_eq,
  codes, ltb, ◌==◌, if◌then◌else◌, any, is_some,
}
use alluredeck.Prelude.Texts.{cut_prefix}
use alluredeck.Session.{Stored, ok, err, UserStore}
use alluredeck.Session.Tokens.{Claims, Validated, good, bad, or_empty, validate_token}
use alluredeck.Throttle.{second}
use alluredeck.ActiveCache.{ActiveCache, KeyIdentity, is_active_for_token, resolve_api_key_username}

-- The columns of a key that the middleware reads.
pub record ApiKey : Type 0 where
  pub username : Text
  pub role : Text
  pub expires_at : Option ℕ
  pub project_ids : List ℕ

pub data KeyLookup : Type 0 where
  key_found : ApiKey → KeyLookup
  key_not_found : KeyLookup
  key_lookup_failed : KeyLookup

-- Whose claims the request carries on.
pub data Principal : Type 0 where
  anyone : Principal
  by_token : Claims → Principal
  by_key : ApiKey → Principal

pub data Admission : Type 0 where
  passed : Principal → Admission
  denied : ℕ → Admission

-- What the middleware is made with; `hash` and `parse` are those of the libraries.
pub record Gate : Type 0 where
  pub security_enabled : Bool
  pub is_refresh : Bool
  pub has_key_store : Bool
  pub has_active_cache : Bool
  pub hash : Text → Text
  pub parse : ℕ → Text → Option Claims

-- What the databases answer during one request.
pub record Answers : Type 0 where
  pub key_by_hash : Text → KeyLookup
  pub users : UserStore
  pub blacklist : List (Text × ℕ)
  pub blacklist_down : Bool

unfoldable pub extract_token : Option Text → Text → Text
extract_token none header = or_empty (cut_prefix header (codes "Bearer "))
extract_token (some cookie) header =
    if text_eq cookie [] then or_empty (cut_prefix header (codes "Bearer ")) else cookie

abbrev pub key_prefix : Text
key_prefix = codes "ald_"

abbrev pub is_expired : ℕ → Option ℕ → Bool
is_expired now none = false
is_expired now (some t) = ltb t now

-- The recheck of the owner: a failing store is 503, an inactive owner 401.
unfoldable pub rechecked : Principal → ActiveCache × Stored Bool → ActiveCache × Admission
rechecked p (c, err e) = (c, denied 503)
rechecked p (c, ok true) = (c, passed p)
rechecked p (c, ok false) = (c, denied 401)

abbrev pub only_active : ActiveCache × Stored KeyIdentity → ActiveCache × Stored Bool
only_active (c, ok id) = (c, ok id.is_active)
only_active (c, err e) = (c, err e)

unfoldable pub admit_key : Gate → Answers → ℕ → ActiveCache → KeyLookup → ActiveCache × Admission
unfolding rechecked
admit_key g a now c key_not_found = (c, denied 401)
admit_key g a now c key_lookup_failed = (c, denied 503)
admit_key g a now c (key_found k) =
    if is_expired now k.expires_at
    then (c, denied 401)
    else (if g.has_active_cache
        then rechecked (by_key k) (only_active (resolve_api_key_username a.users now k.username c))
        else (c, passed (by_key k)))

unfoldable pub admit_token : Gate → Answers → ℕ → ActiveCache → Validated → ActiveCache × Admission
unfolding rechecked
admit_token g a now c (bad e) = (c, denied 401)
admit_token g a now c (good claims) =
    if g.has_active_cache
    then rechecked (by_token claims)
        (is_active_for_token a.users now (or_empty claims.sub) (or_empty claims.provider) c)
    else (c, passed (by_token claims))

abbrev pub expected_type : Bool → Text
expected_type is_refresh = if is_refresh then codes "refresh" else codes "access"

unfoldable pub is_key_request : Gate → Text → Bool
is_key_request g token =
    not g.is_refresh && (is_some (cut_prefix token key_prefix) && g.has_key_store)

-- `AuthMiddleware`, given the token of the request.
unfoldable pub authenticate : Gate → Answers → ℕ → Text → ActiveCache → ActiveCache × Admission
unfolding admit_key admit_token
authenticate g a now token c =
    if not g.security_enabled
    then (c, passed anyone)
    else (if text_eq token []
        then (c, denied 401)
        else (if is_key_request g token
            then admit_key g a now c (a.key_by_hash (g.hash token))
            else admit_token g a now c (
                validate_token g.parse a.blacklist_down (now / second) token
                  (expected_type g.is_refresh) a.blacklist)))

-- Unknown roles have level 0.
unfoldable pub role_level : Text → ℕ
role_level role =
    if text_eq role (codes "viewer")
    then 1
    else (if text_eq role (codes "editor")
        then 2
        else (if text_eq role (codes "admin") then 3 else 0))

abbrev pub role_claim : Principal → Text
role_claim anyone = []
role_claim (by_token c) = or_empty c.role
role_claim (by_key k) = k.role

-- `RequireRole`; without claims the request is refused.
unfoldable pub require_role : Text → Principal → Admission
require_role required anyone = denied 403
require_role required p =
    if ltb (role_level (role_claim p)) (role_level required) then denied 403 else passed p

abbrev pub behind : (Principal → Admission) → ActiveCache × Admission → ActiveCache × Admission
behind next (c, passed p) = (c, next p)
behind next (c, denied status) = (c, denied status)

-- A route that `registerRoutes` wraps in a role: `editor` and `admin` always, `viewer` unless the
-- configuration makes these routes public.
unfoldable pub guarded : Gate → Answers → ℕ → Text → Text → ActiveCache → ActiveCache × Admission
guarded g a now required token c = behind (require_role required) (authenticate g a now token c)

-- No list is no restriction.
abbrev pub is_unscoped : List ℕ → Bool
is_unscoped [] = true
is_unscoped (i ∷ is) = false

unfoldable pub api_key_project_allowed : ℕ → Principal → Bool
api_key_project_allowed id anyone = true
api_key_project_allowed id (by_token claims) = true
api_key_project_allowed id (by_key k) =
    is_unscoped k.project_ids || any (λ (i : ℕ). i == id) k.project_ids

unfoldable pub api_key_is_scoped : Principal → Bool
api_key_is_scoped anyone = false
api_key_is_scoped (by_token claims) = false
api_key_is_scoped (by_key k) = not (is_unscoped k.project_ids)
