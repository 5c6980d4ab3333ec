-- ===== src/Login.antt =====
-- The handler `Login` of api/internal/handlers/auth.go, over the account throttle, the users table and
-- the session families. bcrypt is the parameter `matches`, which compares a stored hash with a
-- password. The time is in nanoseconds; the tables read its seconds. `lag` is the time that passes
-- between the check of the throttle and the rest, besides the delay that the throttle asks for.
pub mod Granted
pub mod Locked
pub mod Opened
mod Examples
use alluredeck.Prelude.{
  ℕ, ◌+◌, ◌-◌, ◌/◌, max, Bool, true, false, not, ◌&&◌, Option, none, some, [], Text, text_eq, codes,
  if◌then◌else◌,
}
use alluredeck.Prelude.Ints.{ℤ, pos}
use alluredeck.Prelude.Decimal.{format_int}
use alluredeck.Session.{Family, active, Sessions}
use alluredeck.Session.Families.{create}
use alluredeck.Session.Refresh.{Grant, with_families, settle}
use alluredeck.Throttle.{Throttler, Verdict, check, record_failure, record_success, second}
use alluredeck.Users.{Account, Accounts, Row, row, no_row, row_failed, same_id, update_last_login}
use alluredeck.Users.Rows.{get_by_email}
use alluredeck.Users.Register.{settled}

pub record Config : Type 0 where
  pub security_enabled : Bool
  pub has_throttler : Bool
  pub has_users : Bool
  pub has_families : Bool
  pub admin_user : Text
  pub admin_hash : Text
  pub viewer_user : Text
  pub viewer_hash : Text
  pub refresh_expiry : ℕ
  pub matches : Text → Text → Bool

-- What the environment decides in one request: which statements fail, and the random values, `none`
-- if one cannot be made.
pub record Chance : Type 0 where
  pub lag : ℕ
  pub email_down : Bool
  pub last_login_down : Bool
  pub create_down : Bool
  pub family_id : Option Text
  pub minted : Option Text
  pub csrf_made : Bool

pub record State : Type 0 where
  pub throttler : Throttler
  pub accounts : Accounts
  pub sessions : Sessions

-- `too_many` has the seconds of the Retry-After header.
pub data LoginReply : Type 0 where
  too_many : ℕ → LoginReply
  rejected : ℕ → LoginReply
  logged_in : Grant → LoginReply

-- The subject and the role of the tokens, and the user's row, if there is one.
pub data Credential : Type 0 where
  valid : Text → Text → Option ℤ → Credential
  invalid : Credential

-- The name and the password are those of a user of the configuration.
abbrev pub is_configured : Config → Text → Text → Text → Text → Bool
is_configured cfg user hash username password =
    text_eq username user && (not (text_eq hash []) && cfg.matches hash password)

abbrev pub has_password : Config → Account → Text → Bool
has_password cfg u password =
    (text_eq u.provider (codes "local") && (u.is_active && not (text_eq u.password_hash [])))
    && cfg.matches u.password_hash password

abbrev pub row_credential : Config → Text → Row → Credential
row_credential cfg password no_row = invalid
row_credential cfg password row_failed = invalid
row_credential cfg password (row id u) =
    if has_password cfg u password then valid (format_int id) u.role (some id) else invalid

unfoldable pub verify : Config → Bool → Text → Text → Accounts → Credential
verify cfg email_down username password t =
    if is_configured cfg cfg.admin_user cfg.admin_hash username password
    then valid username (codes "admin") none
    else (if not (text_eq cfg.viewer_user [])
          && is_configured cfg cfg.viewer_user cfg.viewer_hash username password
        then valid username (codes "viewer") none
        else (if cfg.has_users
            then row_credential cfg password (get_by_email email_down username t)
            else invalid))

abbrev pub opened : Config → Text → Text → Text → ℕ → Family
opened cfg sub role jti now = record {
  user_id = sub;
  role = role;
  provider = codes "local";
  current_jti = jti;
  previous_jti = none;
  grace_until = none;
  status = active;
  created_at = 0;
  updated_at = 0;
  expires_at = now + cfg.refresh_expiry;
}

-- The family's row; a failing insert is logged.
unfoldable pub persist : Config → Bool → ℕ → Text → Family → State → State
persist cfg down now id f st =
    if cfg.has_families
    then record st {
      sessions =
          with_families st.sessions
            (settle st.sessions.families (create down now id f st.sessions.families));
    }
    else st

abbrev pub granted : Text → Text → Text → Text → Grant
granted sub role fam jti = record {
  user_id = sub;
  role = role;
  provider = codes "local";
  family_id = fam;
  jti = jti;
}

unfoldable pub open_session :
    Config → Chance → ℕ → Text → Text → Option Text → Option Text → State → State × LoginReply
unfolding persist
open_session cfg l now sub role none jti st = (st, rejected 500)
open_session cfg l now sub role (some fam) none st = (st, rejected 500)
open_session cfg l now sub role (some fam) (some jti) st = (
  persist cfg l.create_down now fam (opened cfg sub role jti now) st,
  if l.csrf_made then logged_in (granted sub role fam jti) else rejected 500,
)

unfoldable pub touch_last_login : Config → Bool → ℕ → Option ℤ → State → State
touch_last_login cfg down now none st = st
touch_last_login cfg down now (some id) st =
    if cfg.has_users && not (same_id id (pos 0))
    then record st { accounts = settled st.accounts (update_last_login down now id st.accounts) }
    else st

abbrev pub forgive : Config → Text → State → State
forgive cfg username st =
    if cfg.has_throttler then record st { throttler = record_success st.throttler username } else st

abbrev pub blame : Config → ℕ → Text → State → State
blame cfg now username st =
    if cfg.has_throttler
    then record st { throttler = (record_failure st.throttler now username).0 }
    else st

unfoldable pub judge : Config → Chance → ℕ → Text → Credential → State → State × LoginReply
unfolding open_session touch_last_login
judge cfg l now username invalid st = (blame cfg now username st, rejected 401)
judge cfg l now username (valid sub role id) st =
    open_session cfg l (now / second) sub role l.family_id l.minted
      (touch_last_login cfg l.last_login_down (now / second) id (forgive cfg username st))

-- The throttle's answer; without a throttle every request is allowed.
abbrev pub ask : Config → ℕ → Text → State → Verdict
ask cfg now username st =
    if cfg.has_throttler
    then check st.throttler now username
    else record { allowed = true; locked_until = 0; delay = 0; failure_count = 0 }

abbrev pub retry_after : ℕ → Verdict → ℕ
retry_after now v = max ((v.locked_until - now) / second) 1

-- `Login`, for a decoded body.
unfoldable pub login : Config → Chance → ℕ → Text → Text → State → State × LoginReply
unfolding judge verify
login cfg l now username password st =
    let v = ask cfg now username st in
    if not cfg.security_enabled
    then (st, rejected 404)
    else (if not v.allowed
        then (st, too_many (retry_after now v))
        else judge cfg l (now + v.delay + l.lag) username
            (verify cfg l.email_down username password st.accounts) st)
