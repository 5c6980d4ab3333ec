-- ===== src/Oidc.antt =====
-- The login at an identity provider: Callback and handleEmailCollision of api/internal/handlers/oidc.go,
-- with the state cookie of api/internal/security/oidc_state.go. The cipher of the cookie with its
-- encodings is a parameter; so are the exchange of the code at the provider and the verification of
-- the ID token, whose nonce and claims are read as in api/internal/security/oidc.go. A time is a
-- number of nanoseconds; the tables read its seconds.
pub mod Callback
pub mod Held
pub mod Linked
mod Examples
use alluredeck.Prelude.{
  ℕ, ◌+◌, ◌/◌, Bool, true, false, not, ◌&&◌, ◌||◌, Option, none, some, List, [], ◌∷◌, Text, text_eq,
  codes, if◌then◌else◌, ltb, ◌==◌, length,
}
use alluredeck.Prelude.Ints.{ℤ}
use alluredeck.Session.{Family, active, Sessions}
use alluredeck.Session.Families.{create}
use alluredeck.Session.Refresh.{Grant, with_families, settle}
use alluredeck.Throttle.{second}
use alluredeck.Roles.{OidcConfig, resolve_role}
use alluredeck.Users.{
  Account, Accounts, Written, written, refused, AccountError, email_already_linked, Row, row,
  no_row, row_failed, find, identity_row, upsert_by_oidc, relink_oidc,
}
use alluredeck.Users.Rows.{row_of, get_by_email}

pub record StatePayload : Type 0 where
  pub state : Text
  pub nonce : Text
  pub code_verifier : Text
  pub expires_at : ℕ

pub record UserInfo : Type 0 where
  pub subject : Text
  pub email : Text
  pub email_verified : Bool
  pub name : Text
  pub groups : List Text

-- A claim that is read as a Boolean.
pub data FlagClaim : Type 0 where
  flag : Bool → FlagClaim
  word : Text → FlagClaim
  no_flag : FlagClaim

-- The claims that are read; what is no string is `none`, and `overage` says that `_claim_names` has
-- `groups`.
pub record TokenClaims : Type 0 where
  pub email : Option Text
  pub email_verified : FlagClaim
  pub name : Option Text
  pub overage : Bool
  pub groups : List (Option Text)

-- A verified ID token, with `none` for claims that cannot be extracted.
pub record IdToken : Type 0 where
  pub nonce : Text
  pub subject : Text
  pub claims : Option TokenClaims

-- `encrypt` has its random nonce; `id_token` takes the code and the verifier to the provider, and
-- verifies the token that comes back.
pub record Provider : Type 0 where
  pub encrypt : Text → StatePayload → Text
  pub decrypt : Text → Text → Option StatePayload
  pub id_token : Text → Text → Option IdToken

abbrev pub is_set : FlagClaim → Bool
is_set (flag b) = b
is_set (word w) = text_eq w (codes "true")
is_set no_flag = false

abbrev pub text_or_empty : Option Text → Text
text_or_empty none = []
text_or_empty (some t) = t

unfoldable pub group_names : List (Option Text) → List Text
group_names [] = []
group_names (none ∷ gs) = group_names gs
group_names (some g ∷ gs) = g ∷ group_names gs

unfoldable pub extract_claims : TokenClaims → Text → UserInfo
unfolding group_names
extract_claims c subject = record {
  subject = subject;
  email = text_or_empty c.email;
  email_verified = is_set c.email_verified;
  name = text_or_empty c.name;
  groups = if c.overage then [] else group_names c.groups;
}

abbrev pub extracted : Text → Option TokenClaims → Option UserInfo
extracted subject none = none
extracted subject (some c) = some (extract_claims c subject)

abbrev pub checked_nonce : Text → Option IdToken → Option UserInfo
checked_nonce nonce none = none
checked_nonce nonce (some t) = if text_eq t.nonce nonce then extracted t.subject t.claims else none

unfoldable pub exchange : Provider → Text → Text → Text → Option UserInfo
unfolding extract_claims
exchange pr code code_verifier nonce = checked_nonce nonce (pr.id_token code code_verifier)

pub record Config : Type 0 where
  pub secret : Text
  pub roles : OidcConfig
  pub auto_link_by_email : Bool
  pub has_families : Bool
  pub refresh_expiry : ℕ

-- What the environment decides in one request; `new_id` is what the sequence of the table gives.
pub record Chance : Type 0 where
  pub new_id : ℤ
  pub upsert_down : Bool
  pub email_down : Bool
  pub relink_down : Bool
  pub create_down : Bool
  pub family_id : Option Text
  pub minted : Option Text
  pub csrf_made : Bool

-- The cookie and the query of the callback.
pub record CallbackRequest : Type 0 where
  pub cookie : Option Text
  pub state : Text
  pub error : Text
  pub code : Text

pub record State : Type 0 where
  pub accounts : Accounts
  pub sessions : Sessions

pub data CallbackReply : Type 0 where
  rejected : ℕ → CallbackReply
  signed_in : Grant → CallbackReply

-- Five minutes.
abbrev pub state_cookie_ttl : ℕ
state_cookie_ttl = 300_000_000_000

abbrev pub valid_key_length : Text → Bool
valid_key_length key = length key == 16 || (length key == 24 || length key == 32)

unfoldable pub encode_state_cookie : Provider → Text → ℕ → Text → Text → Text → Option Text
encode_state_cookie pr secret now state nonce code_verifier =
    if valid_key_length secret
    then some (
        pr.encrypt secret (record {
          state = state;
          nonce = nonce;
          code_verifier = code_verifier;
          expires_at = (now + state_cookie_ttl) / second;
        }))
    else none

abbrev pub unexpired_payload : ℕ → Option StatePayload → Option StatePayload
unexpired_payload now none = none
unexpired_payload now (some p) = if ltb p.expires_at (now / second) then none else some p

unfoldable pub decode_state_cookie : Provider → Text → ℕ → Text → Option StatePayload
decode_state_cookie pr secret now cookie =
    if valid_key_length secret then unexpired_payload now (pr.decrypt secret cookie) else none

-- Two texts of one length, without a difference at any place.
unfoldable pub secure_compare : Text → Text → Bool
secure_compare [] [] = true
secure_compare [] (d ∷ b) = false
secure_compare (c ∷ a) [] = false
secure_compare (c ∷ a) (d ∷ b) = c == d && secure_compare a b

-- The user whom the login is for, with the table; or the status of the refusal.
pub data Provisioned : Type 0 where
  provisioned : Accounts → Account → Provisioned
  not_provisioned : Accounts → ℕ → Provisioned

abbrev pub linked : Text → Text → ℕ → Account → Account
linked subject role now u = record u {
  provider = codes "oidc";
  provider_sub = subject;
  role = role;
  last_login = some now;
  updated_at = now;
}

abbrev pub relinked : Text → Text → ℕ → Account → Accounts → Written → Provisioned
relinked subject role now u t (refused e) = not_provisioned t 409
relinked subject role now u t (written t') = provisioned t' (linked subject role now u)

unfoldable pub link_row : Chance → ℕ → UserInfo → Text → Accounts → Row → Provisioned
link_row l now info role t no_row = not_provisioned t 409
link_row l now info role t row_failed = not_provisioned t 409
link_row l now info role t (row id u) =
    relinked info.subject role now u t
      (relink_oidc l.relink_down now id (codes "oidc") info.subject t)

unfoldable pub handle_email_collision :
    Config → Chance → ℕ → UserInfo → Text → Accounts → Provisioned
unfolding link_row
handle_email_collision cfg l now info role t =
    if not cfg.auto_link_by_email
    then not_provisioned t 409
    else (if not info.email_verified
        then not_provisioned t 409
        else link_row l now info role t (get_by_email l.email_down info.email t))

-- The id of the row that the upsert returns.
abbrev pub upserted_id : ℤ → Option (ℤ × Account) → ℤ
upserted_id new none = new
upserted_id new (some (j, b)) = j

abbrev pub returned : Accounts → Accounts → Option Account → Provisioned
returned t t' none = not_provisioned t 500
returned t t' (some u) = provisioned t' u

unfoldable pub upserted : Config → Chance → ℕ → UserInfo → Text → Accounts → Written → Provisioned
unfolding handle_email_collision
upserted cfg l now info role t (written t') =
    returned t t' (find (upserted_id l.new_id (identity_row (codes "oidc") info.subject t)) t')
upserted cfg l now info role t (refused email_already_linked) =
    handle_email_collision cfg l now info role t
upserted cfg l now info role t (refused _) = not_provisioned t 500

unfoldable pub provision : Config → Chance → ℕ → UserInfo → Text → Accounts → Provisioned
unfolding upserted
provision cfg l now info role t = upserted cfg l now info role t (
    upsert_by_oidc l.upsert_down now l.new_id (codes "oidc") info.subject info.email info.name role
      t)
