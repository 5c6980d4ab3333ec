-- ===== src/Session/Refresh.antt =====
-- The handlers `Refresh` and `Logout` of api/internal/handlers/auth.go.
use alluredeck.Prelude.{
  ℕ, Bool, true, false, not, ◌&&◌, ◌||◌, Option, none, some, [], Text, text_eq, codes, ltb,
  if◌then◌else◌,
}
use alluredeck.Prelude.Ints.{ℤ, parse_int}
use alluredeck.Session.{
  Family, Families, Sessions, Stored, ok, err, database, Lookup, found, user_not_found,
  lookup_failed, UserStore,
}
use alluredeck.Session.Families.{get_by_id, mark_compromised, revoke, rotate, is_active_family}
use alluredeck.Session.Tokens.{
  Claims, Validated, good, bad, or_empty, validate_token, blacklist_access_token,
}

-- What the handlers are wired with. A missing family store turns rotation off.
pub record Wiring : Type 0 where
  pub security_enabled : Bool
  pub has_family_store : Bool
  pub parse : ℕ → Text → Option Claims
  pub users : Option UserStore
  pub access_expiry : ℕ
  pub refresh_expiry : ℕ

-- What the environment decides in one request: which statements fail, the JTI of the minted refresh
-- token (`none` if minting fails), and whether the CSRF token can be made.
pub record Luck : Type 0 where
  pub get_down : Bool
  pub mark_down : Bool
  pub revoke_down : Bool
  pub rotate_down : Bool
  pub blacklist_down : Bool
  pub minted : Option Text
  pub csrf_made : Bool

pub data Refusal : Type 0 where
  security_disabled refresh_not_available missing_token invalid_token malformed_token : Refusal
  load_failed unknown_session not_active session_compromised : Refusal
  mint_failed rotate_failed csrf_failed : Refusal

-- Whom the new tokens are for, their family and the new refresh token's JTI.
pub record Grant : Type 0 where
  pub user_id : Text
  pub role : Text
  pub provider : Text
  pub family_id : Text
  pub jti : Text

-- A refusal has its HTTP status.
pub data Reply : Type 0 where
  refused : ℕ → Refusal → Reply
  refreshed : Grant → Reply

abbrev pub with_families : Sessions → Families → Sessions
with_families s t = record s { families = t }

-- A failed statement is logged, and the table is as it was.
abbrev pub settle : Families → Stored Families → Families
settle t (ok t') = t'
settle t (err e) = t

abbrev pub lookup_inactive : Lookup → Stored Bool
lookup_inactive (found u) = ok (not u.is_active)
lookup_inactive user_not_found = ok true
lookup_inactive lookup_failed = err database

unfoldable pub inactive_by : UserStore → Option ℤ → Family → Stored Bool
inactive_by us (some id) f = lookup_inactive (us.get_by_id id)
inactive_by us none f =
    if text_eq f.provider (codes "oidc")
    then lookup_inactive (us.get_by_email f.user_id)
    else ok false

unfoldable pub family_user_inactive : Option UserStore → Family → Stored Bool
unfolding inactive_by
family_user_inactive none f = ok false
family_user_inactive (some us) f = inactive_by us (parse_int f.user_id) f

abbrev pub is_previous : ℕ → Text → Option Text → Option ℕ → Bool
is_previous now jti (some p) (some grace) = text_eq jti p && ltb now grace
is_previous now jti _ _ = false

-- `matchesCurrent || matchesPrevious`.
abbrev pub matches : ℕ → Text → Family → Bool
matches now jti f = text_eq jti f.current_jti || is_previous now jti f.previous_jti f.grace_until

unfoldable pub finish : Bool → Sessions → Family → Text → Text → Stored Families → Sessions × Reply
finish csrf_made s f fam new (err e) = (s, refused 500 rotate_failed)
finish csrf_made s f fam new (ok t) =
    let grant = refreshed (record {
      user_id = f.user_id;
      role = f.role;
      provider = f.provider;
      family_id = fam;
      jti = new;
    }) in
    (with_families s t, if csrf_made then grant else refused 500 csrf_failed)

unfoldable pub mint_and_rotate :
    Luck → ℕ → Text → Family → Sessions → Option Text → Sessions × Reply
unfolding finish
mint_and_rotate l now fam f s none = (s, refused 500 mint_failed)
mint_and_rotate l now fam f s (some new) =
    finish l.csrf_made s f fam new (rotate l.rotate_down now fam new 30 s.families)

unfoldable pub refresh_user : Luck → ℕ → Text → Family → Sessions → Stored Bool → Sessions × Reply
unfolding mint_and_rotate
refresh_user l now fam f s (err e) = (s, refused 500 load_failed)
refresh_user l now fam f s (ok true) = (
  with_families s (settle s.families (revoke l.revoke_down now fam s.families)),
  refused 401 not_active,
)
refresh_user l now fam f s (ok false) = mint_and_rotate l now fam f s l.minted

unfoldable pub refresh_family :
    Wiring → Luck → ℕ → Text → Text → Family → Sessions → Sessions × Reply
unfolding refresh_user
refresh_family w l now fam jti f s =
    if not (is_active_family f)
    then (s, refused 401 not_active)
    else (if not (matches now jti f)
        then (
          with_families s (settle s.families (mark_compromised l.mark_down now fam s.families)),
          refused 401 session_compromised,
        )
        else refresh_user l now fam f s (family_user_inactive w.users f))

unfoldable pub refresh_loaded :
    Wiring → Luck → ℕ → Text → Text → Sessions → Stored (Option Family) → Sessions × Reply
unfolding refresh_family
refresh_loaded w l now fam jti s (err e) = (s, refused 500 load_failed)
refresh_loaded w l now fam jti s (ok none) = (s, refused 401 unknown_session)
refresh_loaded w l now fam jti s (ok (some f)) = refresh_family w l now fam jti f s

unfoldable pub refresh_validated : Wiring → Luck → ℕ → Sessions → Validated → Sessions × Reply
unfolding refresh_loaded
refresh_validated w l now s (bad e) = (s, refused 401 invalid_token)
refresh_validated w l now s (good c) =
    let fam = or_empty c.fam in
    let jti = or_empty c.jti in
    if text_eq fam [] || text_eq jti []
    then (s, refused 401 malformed_token)
    else refresh_loaded w l now fam jti s (get_by_id l.get_down fam s.families)

unfoldable pub refresh : Wiring → Luck → ℕ → Text → Sessions → Sessions × Reply
unfolding refresh_validated
refresh w l now token s =
    let checked = validate_token w.parse l.blacklist_down now token (codes "refresh") s.blacklist in
    if not w.security_enabled
    then (s, refused 404 security_disabled)
    else (if not w.has_family_store
        then (s, refused 401 refresh_not_available)
        else (if text_eq token []
            then (s, refused 401 missing_token)
            else refresh_validated w l now s checked))

unfoldable pub revoke_named : Luck → ℕ → Sessions → Validated → Sessions
revoke_named l now s (bad e) = s
revoke_named l now s (good c) =
    let fam = or_empty c.fam in
    if text_eq fam []
    then s
    else with_families s (settle s.families (revoke l.revoke_down now fam s.families))

unfoldable pub revoke_refresh : Wiring → Luck → ℕ → Text → Sessions → Sessions
unfolding revoke_named
revoke_refresh w l now token s =
    let checked = validate_token w.parse l.blacklist_down now token (codes "refresh") s.blacklist in
    let s' = if w.has_family_store then revoke_named l now s checked else s in
    if text_eq token []
    then s
    else blacklist_access_token w.parse l.blacklist_down l.blacklist_down now token
        (codes "refresh") w.refresh_expiry s'

-- `Logout`, given the access and the refresh token of the request.
unfoldable pub logout : Wiring → Luck → ℕ → Text → Text → Sessions → Sessions
unfolding revoke_refresh
logout w l now access_token token s =
    let s' =
      blacklist_access_token w.parse l.blacklist_down l.blacklist_down now access_token
        (codes "access") w.access_expiry s in
    if not w.security_enabled then s else revoke_refresh w l now token s'
