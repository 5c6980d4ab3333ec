-- ===== src/Login/Opened.antt =====
-- The session that a login opens.
use alluredeck.Prelude.{
  ℕ, ◌+◌, ◌/◌, ◌≡◌, refl, ◌∙◌, ap, Bool, true, false, not, ◌&&◌, Option, none, some, [], Text,
  text_eq, codes, text_discrete, Bool-cases, inl, inr, text_eq_iff,
}
use alluredeck.Prelude.Ints.{ℤ, pos}
use alluredeck.Throttle.{second, record_success}
use alluredeck.Prelude.Maps.{lookup, lookup-insert_self}
use alluredeck.Session.{Family, Sessions, FamilyStatus-discrete, ok}
use alluredeck.Session.Families.{create, defaulted}
use alluredeck.Session.Tokens.{Claims, good, or_empty, validate_token}
use alluredeck.Session.Refresh.{Wiring, Luck, Reply, refreshed, refresh, family_user_inactive}
use alluredeck.Session.Reuse.{refresh-rotates}
use alluredeck.Users.{same_id}
use alluredeck.Login.{
  Config, Chance, State, LoginReply, logged_in, valid, verify, judge, open_session, granted, ask,
  login, touch_last_login, forgive, persist, opened,
}

throttler-touch :
    (cfg : Config) (down : Bool) (now : ℕ) (id : Option ℤ) (st : State)
    → (touch_last_login cfg down now id st).throttler ≡ st.throttler
unfolding touch_last_login
throttler-touch cfg down now none st = refl
throttler-touch cfg down now (some id) st =
    elim (Bool-cases (cfg.has_users && not (same_id id (pos 0)))) [
      | inl on ↦ rw on refl
      | inr off ↦ rw off refl
    ]

sessions-touch :
    (cfg : Config) (down : Bool) (now : ℕ) (id : Option ℤ) (st : State)
    → (touch_last_login cfg down now id st).sessions ≡ st.sessions
unfolding touch_last_login
sessions-touch cfg down now none st = refl
sessions-touch cfg down now (some id) st =
    elim (Bool-cases (cfg.has_users && not (same_id id (pos 0)))) [
      | inl on ↦ rw on refl
      | inr off ↦ rw off refl
    ]

throttler-persist :
    (cfg : Config) (down : Bool) (now : ℕ) (id : Text) (f : _) (st : State)
    → (persist cfg down now id f st).throttler ≡ st.throttler
unfolding persist
throttler-persist cfg down now id f st = elim (Bool-cases cfg.has_families) [
  | inl on ↦ rw on refl
  | inr off ↦ rw off refl
]

forgive_sessions :
    (cfg : Config) (username : Text) (st : State) → (forgive cfg username st).sessions ≡ st.sessions
forgive_sessions cfg username st = elim (Bool-cases cfg.has_throttler) [
  | inl on ↦ rw on refl
  | inr off ↦ rw off refl
]

lookup-persist :
    (cfg : Config) (down : Bool) (now : ℕ) (fam : Text) (f : Family) (st : State)
    → cfg.has_families ≡ true
    → down ≡ false
    → text_eq fam [] ≡ false
    → lookup text_discrete fam st.sessions.families ≡ none
    → lookup text_discrete fam (persist cfg down now fam f st).sessions.families
      ≡ some (defaulted now f)
unfolding persist create
lookup-persist cfg down now fam f st kept up named fresh =
    rw (kept, up, named, fresh)
      (lookup-insert_self text_discrete fam (defaulted now f) st.sessions.families)

-- The time of the session's row, in seconds.
abbrev pub opened_at : Config → Chance → ℕ → Text → State → ℕ
opened_at cfg l now username st = (now + (ask cfg now username st).delay + l.lag) / second

module _ (cfg : Config) (l : Chance) (now : ℕ) (username password : Text) (st : State)
    (sub role fam jti : Text) (id : Option ℤ) (on : cfg.security_enabled ≡ true)
    (allowed : (ask cfg now username st).allowed ≡ true)
    (right : verify cfg l.email_down username password st.accounts ≡ valid sub role id)
    (family : l.family_id ≡ some fam) (minted : l.minted ≡ some jti)
    (made : l.csrf_made ≡ true) where
  -- What a login on the right credentials does.
  pub login-opens : login cfg l now username password st ≡ (
    persist cfg l.create_down
        (opened_at cfg l now username st)
        fam
        (opened cfg sub role jti (opened_at cfg l now username st))
        (touch_last_login cfg l.last_login_down
          (opened_at cfg l now username st)
          id
          (forgive cfg username st)),
    logged_in (granted sub role fam jti),
  )
  unfolding login judge open_session
  login-opens = rw (on, allowed, right, family, minted, made) refl

  pub login-forgives :
      cfg.has_throttler ≡ true
      → (login cfg l now username password st).0.throttler ≡ record_success st.throttler username
  login-forgives throttled =
      ap (λ (x : State × LoginReply). x.0.throttler) login-opens
      ∙ throttler-persist cfg l.create_down _ fam _ _
      ∙ throttler-touch cfg l.last_login_down _ id (forgive cfg username st)
      ∙ rw throttled refl

  -- The session's row is written, if its name is new.
  pub login-stored :
      cfg.has_families ≡ true
      → l.create_down ≡ false
      → text_eq fam [] ≡ false
      → lookup text_discrete fam st.sessions.families ≡ none
      → lookup text_discrete fam (login cfg l now username password st).0.sessions.families
        ≡ some (
            defaulted
              (opened_at cfg l now username st)
              (opened cfg sub role jti (opened_at cfg l now username st)))
  login-stored kept up named fresh =
      let touched : (touch_last_login cfg l.last_login_down (opened_at cfg l now username st) id
            (forgive cfg username st)).sessions
          ≡ st.sessions =
        sessions-touch cfg l.last_login_down (opened_at cfg l now username st) id
          (forgive cfg username st)
        ∙ forgive_sessions cfg username st in
      ap (λ (x : State × LoginReply). lookup text_discrete fam x.0.sessions.families) login-opens
      ∙ lookup-persist cfg l.create_down _ fam _ _ kept up named
          (ap (λ (x : Sessions). lookup text_discrete fam x.families) touched ∙ fresh)

  -- From login to refresh: the refresh token that a login hands out is accepted by the next refresh of
  -- its session, which answers with new tokens for the same user, role and session; if the session's
  -- row could be written under a name that is new, the token validates and is not revoked, the user is
  -- not deactivated, and the refresh meets no failure.
  pub login-refresh :
      (w : Wiring) (l' : Luck) (later : ℕ) (token new : Text) (c : Claims)
      → cfg.has_families ≡ true
      → l.create_down ≡ false
      → text_eq fam [] ≡ false
      → text_eq jti [] ≡ false
      → lookup text_discrete fam st.sessions.families ≡ none
      → w.security_enabled ≡ true
      → w.has_family_store ≡ true
      → text_eq token [] ≡ false
      → validate_token w.parse l'.blacklist_down later token
          (codes "refresh")
          (login cfg l now username password st).0.sessions.blacklist
        ≡ good c
      → or_empty c.fam ≡ fam
      → or_empty c.jti ≡ jti
      → family_user_inactive w.users (
          defaulted
            (opened_at cfg l now username st)
            (opened cfg sub role jti (opened_at cfg l now username st)))
        ≡ ok false
      → l'.get_down ≡ false
      → l'.rotate_down ≡ false
      → l'.minted ≡ some new
      → l'.csrf_made ≡ true
      → (refresh w l' later token (login cfg l now username password st).0.sessions).1
        ≡ refreshed (record {
          user_id = sub;
          role = role;
          provider = codes "local";
          family_id = fam;
          jti = new;
        })
  unfolding FamilyStatus-discrete defaulted text_discrete
  login-refresh w l' later token new c kept up named has_jti fresh enabled rotating carried
        validates same_fam same_jti working get_up rotate_up minted' csrf =
      let f =
        defaulted (opened_at cfg l now username st)
          (opened cfg sub role jti (opened_at cfg l now username st)) in
      ap (λ (x : _ × Reply). x.1)
        (refresh-rotates w l' later token (login cfg l now username password st).0.sessions c f
          (record {
            enabled = enabled;
            rotating = rotating;
            carried = carried;
            valid = validates;
            has_fam = rw same_fam named;
            has_jti = rw same_jti has_jti;
            get_up = get_up;
            stored = rw same_fam (login-stored kept up named fresh);
          })
          new refl (rw (same_jti, (text_eq_iff jti jti).1 refl) refl) working minted' rotate_up
          csrf)
      ∙ rw same_fam refl
