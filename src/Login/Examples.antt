-- ===== src/Login/Examples.antt =====
-- Logins at concrete inputs.
use alluredeck.Prelude.{
  ℕ, ◌≡◌, refl, true, false, none, some, [], ◌∷◌, codes, text_discrete, arith, text_eq,
}
use alluredeck.Prelude.Maps.{lookup}
use alluredeck.Prelude.Texts.{to_lower, trim_space}
use alluredeck.Session.Tokens.{Claims, validate_token, check_claims, is_blacklisted}
use alluredeck.Session.Refresh.{Wiring, Luck, Grant, refreshed, refresh, family_user_inactive}
use alluredeck.Throttle.{Throttler, clean, check, check_entry, new_throttler, normalise_username}
use alluredeck.Throttle.Lockout.{fail_at}
use alluredeck.Login.{
  Config, Chance, State, logged_in, granted, login, verify, judge, open_session, persist,
  touch_last_login,
}
use alluredeck.Login.Granted.{IsGranted, login-IsGranted}
use alluredeck.Login.Locked.{login-reopens}
use alluredeck.Login.Opened.{login-refresh}

abbrev config : Config
config = record {
  security_enabled = true;
  has_throttler = true;
  has_users = true;
  has_families = true;
  admin_user = codes "admin";
  admin_hash = codes "h0";
  viewer_user = [];
  viewer_hash = [];
  refresh_expiry = 600;
  matches = text_eq;
}

abbrev chance : Chance
chance = record {
  lag = 0;
  email_down = false;
  last_login_down = false;
  create_down = false;
  family_id = some (codes "f1");
  minted = some (codes "r1");
  csrf_made = true;
}

-- Five failures lock for a minute, within a window of an hour; all in nanoseconds.
abbrev throttler : Throttler
throttler = new_throttler 3600_000_000_000 3 2 60_000_000_000 30_000_000_000

abbrev start : State
start = record {
  throttler = throttler;
  accounts = [];
  sessions = record { families = []; blacklist = [] };
}

abbrev failed : State
failed = record start { throttler = fail_at throttler (codes "admin") (5 ∷ 6 ∷ []) }

abbrev admin_grant : Grant
admin_grant = granted (codes "admin") (codes "admin") (codes "f1") (codes "r1")

login-IsGranted_example : IsGranted config chance 5 (codes "admin") (codes "h0") start admin_grant
unfolding login verify judge open_session text_discrete check check_entry normalise_username
    to_lower trim_space new_throttler lookup
login-IsGranted_example =
    login-IsGranted config chance 5 (codes "admin") (codes "h0") start admin_grant refl

login-reopens_example :
    ((login config chance 60_000_000_006 (codes "admin") (codes "h0") failed).1
      ≡ logged_in admin_grant)
    × ((after : ℕ)
        → check
            (login config chance 60_000_000_006 (codes "admin") (codes "h0") failed).0.throttler
            after
            (to_lower (codes "admin"))
          ≡ clean)
unfolding text_discrete normalise_username to_lower trim_space new_throttler lookup verify
login-reopens_example =
    login-reopens config chance (codes "admin") failed throttler 5 (6 ∷ []) refl refl refl refl refl
      (omega arith, omega arith) 60_000_000_006 (codes "h0") (codes "admin") (codes "admin")
      (codes "f1") (codes "r1") none (omega arith) refl refl refl refl

abbrev claims : Claims
claims = record {
  token_type = some (codes "refresh");
  jti = some (codes "r1");
  fam = some (codes "f1");
  exp = some 900;
  sub = some (codes "admin");
  provider = some (codes "local");
  role = some (codes "admin");
}

abbrev wiring : Wiring
wiring = record {
  security_enabled = true;
  has_family_store = true;
  parse = λ now token. some claims;
  users = none;
  access_expiry = 900;
  refresh_expiry = 3600;
}

abbrev luck : Luck
luck = record {
  get_down = false;
  mark_down = false;
  revoke_down = false;
  rotate_down = false;
  blacklist_down = false;
  minted = some (codes "r2");
  csrf_made = true;
}

login-refresh_example :
    (refresh wiring luck 20
      (codes "t")
      (login config chance 5 (codes "admin") (codes "h0") start).0.sessions).1
    ≡ refreshed (granted (codes "admin") (codes "admin") (codes "f1") (codes "r2"))
unfolding login verify judge open_session persist touch_last_login text_discrete check check_entry
    normalise_username to_lower trim_space new_throttler lookup validate_token check_claims
    is_blacklisted family_user_inactive
login-refresh_example =
    login-refresh config chance 5 (codes "admin") (codes "h0") start (codes "admin") (codes "admin")
      (codes "f1") (codes "r1") none refl refl refl refl refl refl wiring luck 20 (codes "t")
      (codes "r2") claims refl refl refl refl refl refl refl refl refl refl refl refl refl refl refl
      refl
