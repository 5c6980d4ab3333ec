-- ===== src/Login/Locked.antt =====
-- Logins on an account that failures have locked, and when the lock is over.
use alluredeck.Prelude.{
  ℕ, ◌+◌, ◌-◌, ◌/◌, ◌≤◌, ◌<◌, ◌≡◌, refl, ◌∙◌, ap, max, true, false, Option, none, some, List, [],
  ◌∷◌, Text, text_eq, length, text_discrete,
}
use alluredeck.Prelude.Ints.{ℤ}
use alluredeck.Prelude.Maps.{lookup}
use alluredeck.Throttle.{Throttler, clean, normalise_username, check, second}
use alluredeck.Throttle.Lockout.{
  fail_at, Within, last_or, check-fail_at_locked, check-fail_at_expired,
}
use alluredeck.Throttle.Isolation.{check-record_success}
use alluredeck.Login.Opened.{login-opens, login-forgives}
use alluredeck.Prelude.Texts.{to_lower}
use alluredeck.Login.{
  Config, Chance, State, LoginReply, too_many, logged_in, valid, verify, granted, ask, login,
}

module _ (cfg : Config) (l : Chance) (username : Text) (st : State) (t : Throttler) (now : ℕ)
    (times : List ℕ) (on : cfg.security_enabled ≡ true) (throttled : cfg.has_throttler ≡ true)
    (failed : st.throttler ≡ fail_at t username (now ∷ times))
    (named : text_eq (normalise_username username) [] ≡ false)
    (absent : lookup text_discrete (normalise_username username) t.entries ≡ none)
    (near : Within now (now + t.window) times) where
  -- A locked account takes no password: after as many failures as the threshold in one window, every
  -- login of the account until the lockout has run from the last of them is answered with 429 and the
  -- rest of that time, at least a second, whatever the password is, and changes nothing.
  pub login-locked :
      (later : ℕ) (password : Text)
      → t.lockout_threshold ≤ 1 + length times
      → later < last_or now times + t.lockout_duration
      → login cfg l later username password st
        ≡ (st, too_many (max ((last_or now times + t.lockout_duration - later) / second) 1))
  unfolding login
  login-locked later password full soon =
      rw
        (
          on,
          throttled,
          failed,
          check-fail_at_locked t username now times named absent near later full soon,
        )
        refl

  -- The lock ends: for an account that has a name and had no failures on record, after any number of
  -- failures within one window of the first of them, with the throttle and security on, once the
  -- lockout has run from the last failure the right credentials log in, if the random values can be
  -- made; and the account's failures are forgotten.
  pub login-reopens :
      (later : ℕ) (password sub role fam jti : Text) (id : Option ℤ)
      → last_or now times + t.lockout_duration ≤ later
      → verify cfg l.email_down username password st.accounts ≡ valid sub role id
      → l.family_id ≡ some fam
      → l.minted ≡ some jti
      → l.csrf_made ≡ true
      → ((login cfg l later username password st).1 ≡ logged_in (granted sub role fam jti))
        × ((after : ℕ)
            → check (login cfg l later username password st).0.throttler after (to_lower username)
              ≡ clean)
  login-reopens later password sub role fam jti id late right family minted made =
      let allowed : (ask cfg later username st).allowed ≡ true =
        rw (throttled, failed)
          (check-fail_at_expired t username now times named absent near later late) in
      (
        ap (λ (x : State × LoginReply). x.1)
            (login-opens cfg l later username password st sub role fam jti id on allowed right
              family minted made),
        λ after.
            ap (λ x. check x after (to_lower username))
              (login-forgives cfg l later username password st sub role fam jti id on allowed right
                family minted made throttled)
            ∙ check-record_success st.throttler username after,
      )
