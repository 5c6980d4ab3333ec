-- ===== src/Session/Examples.antt =====
-- Runs of the session handlers on one family.
use alluredeck.Prelude.{
  ℕ, ◌≡◌, refl, Bool, true, false, Option, none, some, [], ◌∷◌, arith, Text, codes, text_discrete,
  text_eq, if◌then◌else◌, All,
}
use alluredeck.Prelude.Ints.{pos, parse_int}
use alluredeck.Prelude.Maps.{lookup, insert}
use alluredeck.Session.{
  Family, FamilyStatus-discrete, Sessions, active, revoked, compromised, found, UserStore,
}
use alluredeck.Session.Families.{rotated}
use alluredeck.Session.Tokens.{Claims, validate_token}
use alluredeck.Session.Refresh.{
  Wiring, Luck, refused, refreshed, session_compromised, Grant, refresh, with_families,
  family_user_inactive,
}
use alluredeck.Session.Reuse.{Presents, refresh-reuse, refresh-rotates, refresh_again_compromises}
use alluredeck.Session.Grants.{Justified, refresh-refreshed}
use alluredeck.Session.Ended.{refreshes, replies, NotGranted, replies-NotGranted}

abbrev row : Family
row = record {
  user_id = codes "7";
  role = codes "editor";
  provider = codes "local";
  current_jti = codes "j1";
  previous_jti = none;
  grace_until = none;
  status = active;
  created_at = 0;
  updated_at = 0;
  expires_at = 1000;
}

abbrev start : Sessions
start = record { families = (codes "f", row) ∷ []; blacklist = [] }

-- The refresh token "rt" has the JTI j1, and "old" another one.
abbrev claims : Text → Claims
claims jti = record {
  token_type = some (codes "refresh");
  jti = some jti;
  fam = some (codes "f");
  exp = some 1000;
  sub = some (codes "7");
  provider = none;
  role = none;
}

parse : ℕ → Text → Option Claims
parse now token =
    if text_eq token (codes "rt") then some (claims (codes "j1")) else some (claims (codes "j0"))

abbrev user_seven : Bool → UserStore
user_seven is_active = record {
  get_by_id = λ i. found (record { id = i; email = codes "e"; is_active = is_active });
  get_by_email = λ e. found (record { id = pos 7; email = e; is_active = is_active });
}

abbrev wiring : Bool → Wiring
wiring is_active = record {
  security_enabled = true;
  has_family_store = true;
  parse = parse;
  users = some (user_seven is_active);
  access_expiry = 10;
  refresh_expiry = 100;
}

abbrev fair : Luck
fair = record {
  get_down = false;
  mark_down = false;
  revoke_down = false;
  rotate_down = false;
  blacklist_down = false;
  minted = some (codes "j2");
  csrf_made = true;
}

rt_token-Presents :
    (b : Bool) → Presents (wiring b) fair 5 (codes "rt") start (claims (codes "j1")) row
unfolding validate_token parse text_discrete lookup
rt_token-Presents b = record {
  enabled = refl;
  rotating = refl;
  carried = refl;
  valid = refl;
  has_fam = refl;
  has_jti = refl;
  get_up = refl;
  stored = refl;
}

old_token-Presents : Presents (wiring true) fair 5 (codes "old") start (claims (codes "j0")) row
unfolding validate_token parse text_discrete lookup
old_token-Presents = record {
  enabled = refl;
  rotating = refl;
  carried = refl;
  valid = refl;
  has_fam = refl;
  has_jti = refl;
  get_up = refl;
  stored = refl;
}

old_token_refused : refresh (wiring true) fair 5 (codes "old") start ≡ (
  with_families start (
      insert text_discrete
        (codes "f")
        (record row { status = compromised; updated_at = 5 })
        start.families),
  refused 401 session_compromised,
)
unfolding FamilyStatus-discrete text_discrete
old_token_refused =
    refresh-reuse (wiring true) fair 5 (codes "old") start (claims (codes "j0")) row
      old_token-Presents refl refl refl

first_refresh : refresh (wiring true) fair 5 (codes "rt") start ≡ (
  with_families start
      (insert text_discrete (codes "f") (rotated 5 (codes "j2") 30 row) start.families),
  refreshed (record {
    user_id = codes "7";
    role = codes "editor";
    provider = codes "local";
    family_id = codes "f";
    jti = codes "j2";
  }),
)
unfolding FamilyStatus-discrete text_discrete family_user_inactive parse_int
first_refresh =
    refresh-rotates (wiring true) fair 5 (codes "rt") start (claims (codes "j1")) row
      (rt_token-Presents true) (codes "j2") refl refl refl refl refl refl

refresh_again_compromises_example :
    let (s', r) =
      refresh
        (wiring true)
        fair
        40
        (codes "rt")
        (refresh (wiring true) fair 5 (codes "rt") start).0 in
    (r ≡ refused 401 session_compromised)
    × (lookup text_discrete (codes "f") s'.families
        ≡ some (record (rotated 5 (codes "j2") 30 row) { status = compromised; updated_at = 40 }))
unfolding FamilyStatus-discrete text_discrete family_user_inactive parse_int validate_token parse
    lookup
refresh_again_compromises_example =
    refresh_again_compromises (wiring true) fair fair 5 40 (codes "rt") start (claims (codes "j1"))
      row (codes "j2") (rt_token-Presents true) refl refl refl refl refl refl (λ e. ground arith)
      refl refl refl (omega arith)

abbrev grant : Grant
grant = record {
  user_id = codes "7";
  role = codes "editor";
  provider = codes "local";
  family_id = codes "f";
  jti = codes "j2";
}

refresh-refreshed_example : Justified (wiring true) fair 5 (codes "rt") start grant
refresh-refreshed_example =
    refresh-refreshed (wiring true) fair 5 (codes "rt") start grant (rw first_refresh)

abbrev ended : Sessions
ended = record start { families = (codes "f", record row { status = revoked }) ∷ [] }

replies-NotGranted_example :
    All (NotGranted (codes "f")) (replies (wiring true) ended (refreshes fair 5 (codes "rt") ∷ []))
unfolding lookup text_discrete FamilyStatus-discrete
replies-NotGranted_example =
    replies-NotGranted (wiring true) ended (refreshes fair 5 (codes "rt") ∷ []) (codes "f")
      (refl, tt) refl (tt, tt)
