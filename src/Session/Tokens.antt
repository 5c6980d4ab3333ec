-- ===== src/Session/Tokens.antt =====
-- Token validation and the list of revoked JTIs: api/internal/security/jwt.go,
-- store/pg/blacklist.go and `blacklistAccessToken` of handlers/audit.go. The JWT library is a
-- parameter: `parse now token` is the claims of a token whose signature and expiry it accepts.
use alluredeck.Prelude.{
  ℕ, ◌+◌, ◌≡◌, Bool, false, not, Option, none, some, List, [], Text, text_eq, text_discrete, ltb,
  leb, if◌then◌else◌, Bool-cases, inl, inr, refl,
}
use alluredeck.Prelude.Maps.{lookup, insert, retain}
use alluredeck.Session.{Sessions}

-- A claim is `none` if it is absent or no string.
pub record Claims : Type 0 where
  pub token_type : Option Text
  pub jti : Option Text
  pub fam : Option Text
  pub exp : Option ℕ
  pub sub : Option Text
  pub provider : Option Text
  pub role : Option Text

pub data TokenError : Type 0 where
  parse_failed invalid_type token_revoked : TokenError

pub data Validated : Type 0 where
  good : Claims → Validated
  bad : TokenError → Validated

abbrev pub or_empty : Option Text → Text
or_empty none = []
or_empty (some s) = s

abbrev pub unexpired : ℕ → Option ℕ → Bool
unexpired now none = false
unexpired now (some expiry) = ltb now expiry

-- The database's failure is taken as "not revoked".
unfoldable pub is_blacklisted : Bool → ℕ → Text → List (Text × ℕ) → Bool
is_blacklisted down now jti bl = if down then false else unexpired now (lookup text_discrete jti bl)

unfoldable pub add_to_blacklist : Bool → Text → ℕ → List (Text × ℕ) → List (Text × ℕ)
add_to_blacklist down jti expiry bl = if down then bl else insert text_discrete jti expiry bl

unfoldable pub prune_expired : ℕ → List (Text × ℕ) → List (Text × ℕ)
prune_expired now = retain (λ expiry. not (leb expiry now))

abbrev pub has_type : Text → Option Text → Bool
has_type expected none = false
has_type expected (some t) = text_eq t expected

abbrev pub is_revoked : Bool → ℕ → Option Text → List (Text × ℕ) → Bool
is_revoked down now none bl = false
is_revoked down now (some jti) bl = is_blacklisted down now jti bl

unfoldable pub check_claims : Bool → ℕ → Option Claims → Text → List (Text × ℕ) → Validated
unfolding is_blacklisted
check_claims down now none expected bl = bad parse_failed
check_claims down now (some c) expected bl =
    if not (has_type expected c.token_type)
    then bad invalid_type
    else (if is_revoked down now c.jti bl then bad token_revoked else good c)

unfoldable pub validate_token :
    (ℕ → Text → Option Claims) → Bool → ℕ → Text → Text → List (Text × ℕ) → Validated
unfolding check_claims
validate_token parse down now token expected bl =
    check_claims down now (parse now token) expected bl

abbrev pub expiry_or : Option ℕ → ℕ → ℕ
expiry_or none d = d
expiry_or (some e) d = e

revoke_validated : Bool → ℕ → ℕ → Validated → Sessions → Sessions
revoke_validated down now default_expiry (bad e) s = s
revoke_validated down now default_expiry (good c) s =
    let jti = or_empty c.jti in
    if text_eq jti [] then s else record s {
      blacklist = add_to_blacklist down jti (expiry_or c.exp (now + default_expiry)) s.blacklist;
    }

-- `reads_down` and `writes_down` are the failures of the two blacklist statements.
unfoldable pub blacklist_access_token :
    (ℕ → Text → Option Claims) → Bool → Bool → ℕ → Text → Text → ℕ → Sessions → Sessions
unfolding revoke_validated
blacklist_access_token parse reads_down writes_down now token expected default_expiry s =
    if text_eq token []
    then s
    else revoke_validated writes_down now default_expiry
        (validate_token parse reads_down now token expected s.blacklist) s

families-revoke_validated :
    (down : Bool) (now d : ℕ) (v : Validated) (s : Sessions)
    → (revoke_validated down now d v s).families ≡ s.families
unfolding revoke_validated
families-revoke_validated down now d (bad e) s = refl
families-revoke_validated down now d (good c) s = elim (Bool-cases (text_eq (or_empty c.jti) [])) [
  | inl blank ↦ rw blank
  | inr named ↦ rw named
]

-- Revoking a token leaves the families alone.
pub families-blacklist_access_token :
    (parse : ℕ → Text → Option Claims) (reads_down writes_down : Bool) (now : ℕ)
    (token expected : Text) (d : ℕ) (s : Sessions)
    → (blacklist_access_token parse reads_down writes_down now token expected d s).families
      ≡ s.families
unfolding blacklist_access_token
families-blacklist_access_token parse reads_down writes_down now token expected d s =
    elim (Bool-cases (text_eq token [])) [
      | inl blank ↦ rw blank
      | inr carried ↦ rw carried (families-revoke_validated writes_down now d _ s)
    ]
