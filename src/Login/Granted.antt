-- ===== src/Login/Granted.antt =====
-- What a login that succeeds must have met.
use alluredeck.Prelude.{
  ℕ, ◌≡◌, ◌≢◌, refl, sym, ap, inl, inr, ◌⊎◌, Bool, true, not, ◌&&◌, Option, none, some, [], arith,
  Text, text_eq, codes, Bool-cases, text_eq_iff, subst, &&-left, &&-right,
}
use alluredeck.Prelude.Ints.{ℤ}
use alluredeck.Prelude.Decimal.{format_int}
use alluredeck.Session.Refresh.{Grant}
use alluredeck.Users.{Account, Accounts, Row, row, no_row, row_failed}
use alluredeck.Users.Rows.{get_by_email}
use alluredeck.Login.{
  Config, Chance, State, logged_in, Credential, valid, invalid, is_configured, has_password,
  row_credential, verify, granted, open_session, judge, ask, login,
}

-- The name and the password of a user of the configuration.
abbrev pub Configured : Config → Text → Text → Text → Text → Type 0
Configured cfg user hash username password =
    (username ≡ user) × (hash ≢ []) × (cfg.matches hash password ≡ true)

-- The row that the name finds is that of an active local user with this password.
pub record HasRow (cfg : Config) (answer : Row) (password sub role : Text) : Type 0 where
  pub id : ℤ
  pub account : Account
  pub found : answer ≡ row id account
  pub local : account.provider ≡ codes "local"
  pub working : account.is_active ≡ true
  pub hashed : account.password_hash ≢ []
  pub matched : cfg.matches account.password_hash password ≡ true
  pub named : sub ≡ format_int id
  pub ranked : role ≡ account.role

abbrev pub IsProven : Config → Bool → Text → Text → Accounts → Text → Text → Type 0
IsProven cfg down username password t sub role =
    (Configured cfg cfg.admin_user cfg.admin_hash username password
      × (sub ≡ username)
      × (role ≡ codes "admin"))
    ⊎ ((Configured cfg cfg.viewer_user cfg.viewer_hash username password
          × (sub ≡ username)
          × (role ≡ codes "viewer"))
        ⊎ HasRow cfg (get_by_email down username t) password sub role)

non_empty : (t : Text) → not (text_eq t []) ≡ true → t ≢ []
non_empty t h e = absurd (cc (h, (text_eq_iff t []).1 e))

is_configured-Configured :
    (cfg : Config) (user hash username password : Text)
    → is_configured cfg user hash username password ≡ true
    → Configured cfg user hash username password
is_configured-Configured cfg user hash username password h =
    let rest = &&-right (text_eq username user) _ h in
    (
      (text_eq_iff username user).0 (&&-left (text_eq username user) _ h),
      non_empty hash (&&-left (not (text_eq hash [])) _ rest),
      &&-right (not (text_eq hash [])) _ rest,
    )

row_credential-HasRow :
    (cfg : Config) (password : Text) (answer : Row) (sub role : Text) (o : Option ℤ)
    → row_credential cfg password answer ≡ valid sub role o
    → HasRow cfg answer password sub role
row_credential-HasRow cfg password no_row sub role o h = absurd (cc)
row_credential-HasRow cfg password row_failed sub role o h = absurd (cc)
row_credential-HasRow cfg password (row id u) sub role o h =
    elim (Bool-cases (has_password cfg u password)) [
      | inr wrong ↦ absurd (cc (rw wrong at h))
      | inl right ↦
          let e : valid (format_int id) u.role (some id) ≡ valid sub role o = rw right at h in
          let kept =
            &&-left
              (text_eq u.provider (codes "local")
                && (u.is_active && not (text_eq u.password_hash [])))
              _ right in
          let state = &&-right (text_eq u.provider (codes "local")) _ kept in
          record {
            id = id;
            account = u;
            found = refl;
            local =
                (text_eq_iff u.provider (codes "local")).0
                  (&&-left (text_eq u.provider (codes "local")) _ kept);
            working = &&-left u.is_active _ state;
            hashed = non_empty u.password_hash (&&-right u.is_active _ state);
            matched =
                &&-right
                  (text_eq u.provider (codes "local")
                    && (u.is_active && not (text_eq u.password_hash [])))
                  _ right;
            named = ground (arith, e);
            ranked = ground (arith, e);
          }
    ]

pub verify-IsProven :
    (cfg : Config) (down : Bool) (username password : Text) (t : Accounts) (sub role : Text)
    (o : Option ℤ)
    → verify cfg down username password t ≡ valid sub role o
    → IsProven cfg down username password t sub role
unfolding verify
verify-IsProven cfg down username password t sub role o h =
    elim (Bool-cases (is_configured cfg cfg.admin_user cfg.admin_hash username password)) [
      | inl admin ↦
          let e : valid username (codes "admin") none ≡ valid sub role o = rw admin at h in
          inl (
            is_configured-Configured cfg _ _ username password admin,
            ground (arith, e),
            ground (arith, e),
          )
      | inr no_admin ↦
          elim (Bool-cases (
            not (text_eq cfg.viewer_user [])
            && is_configured cfg cfg.viewer_user cfg.viewer_hash username password)) [
              | inl viewer ↦
                  let e : valid username (codes "viewer") none ≡ valid sub role o =
                    rw (no_admin, viewer) at h in
                  inr (
                    inl (
                      is_configured-Configured cfg _ _ username password
                          (&&-right (not (text_eq cfg.viewer_user [])) _ viewer),
                      ground (arith, e),
                      ground (arith, e),
                    ))
              | inr no_viewer ↦ elim (Bool-cases cfg.has_users) [
                | inl users ↦ inr (
                    inr (
                      row_credential-HasRow cfg password _ sub role o
                        (rw (no_admin, no_viewer, users) at h)))
                | inr no_users ↦ absurd (cc (rw (no_admin, no_viewer, no_users) at h))
              ]
            ]
    ]

-- The throttle allowed the request, the credentials are right, and the tokens are new ones for them.
pub record IsGranted (cfg : Config) (l : Chance) (now : ℕ) (username password : Text) (st : State)
    (g : Grant) : Type 0 where
  pub enabled : cfg.security_enabled ≡ true
  pub let_in : (ask cfg now username st).allowed ≡ true
  pub proven : IsProven cfg l.email_down username password st.accounts g.user_id g.role
  pub provider : g.provider ≡ codes "local"
  pub family : l.family_id ≡ some g.family_id
  pub token : l.minted ≡ some g.jti

-- What the tokens say.
record IsOpened (l : Chance) (sub role : Text) (fam jti : Option Text) (g : Grant) : Type 0 where
  user : sub ≡ g.user_id
  rank : role ≡ g.role
  provider : g.provider ≡ codes "local"
  family : fam ≡ some g.family_id
  token : jti ≡ some g.jti

open_session-IsOpened :
    (cfg : Config) (l : Chance) (now : ℕ) (sub role : Text) (fam jti : Option Text) (st : State)
    (g : Grant)
    → (open_session cfg l now sub role fam jti st).1 ≡ logged_in g
    → IsOpened l sub role fam jti g
unfolding open_session
open_session-IsOpened cfg l now sub role none jti st g h = absurd (cc)
open_session-IsOpened cfg l now sub role (some fam) none st g h = absurd (cc)
open_session-IsOpened cfg l now sub role (some fam) (some jti) st g h =
    elim (Bool-cases l.csrf_made) [
      | inr fails ↦ absurd (cc (rw fails at h))
      | inl made ↦
          let e : granted sub role fam jti ≡ g = ground (arith, rw made at h) in
          record {
            user = ap (λ (x : Grant). x.user_id) e;
            rank = ap (λ (x : Grant). x.role) e;
            provider = ap (λ (x : Grant). x.provider) (sym e);
            family = ap (λ (x : Grant). some x.family_id) e;
            token = ap (λ (x : Grant). some x.jti) e;
          }
    ]

judge-IsGranted :
    (cfg : Config) (l : Chance) (now later : ℕ) (username password : Text) (st : State)
    (c : Credential) (g : Grant)
    → verify cfg l.email_down username password st.accounts ≡ c
    → (judge cfg l later username c st).1 ≡ logged_in g
    → cfg.security_enabled ≡ true
    → (ask cfg now username st).allowed ≡ true
    → IsGranted cfg l now username password st g
unfolding judge
judge-IsGranted cfg l now later username password st invalid g v h on allowed = absurd (cc)
judge-IsGranted cfg l now later username password st (valid sub role id) g v h on allowed =
    let o = open_session-IsOpened cfg l _ sub role l.family_id l.minted _ g h in
    record {
      enabled = on;
      let_in = allowed;
      proven =
          subst (λ x. IsProven cfg l.email_down username password st.accounts x g.role) o.user
            (subst (λ x. IsProven cfg l.email_down username password st.accounts sub x) o.rank
              (verify-IsProven cfg l.email_down username password st.accounts sub role id v));
      provider = o.provider;
      family = o.family;
      token = o.token;
    }

-- Soundness of the login: tokens are issued only where security is enabled, the throttle allows the
-- account, and the name and the password are those of the configured admin, of the configured viewer,
-- or of the active local user whom the name finds, whose hash is not empty; and they name that user,
-- that user's role and a new session.
pub login-IsGranted :
    (cfg : Config) (l : Chance) (now : ℕ) (username password : Text) (st : State) (g : Grant)
    → (login cfg l now username password st).1 ≡ logged_in g
    → IsGranted cfg l now username password st g
unfolding login
login-IsGranted cfg l now username password st g h = elim (Bool-cases cfg.security_enabled) [
  | inr off ↦ absurd (cc (rw off at h))
  | inl on ↦ elim (Bool-cases (ask cfg now username st).allowed) [
    | inr locked ↦ absurd (cc (rw (on, locked) at h))
    | inl allowed ↦
        judge-IsGranted cfg l now _ username password st _ g refl (rw (on, allowed) at h) on allowed
  ]
]
