-- ===== src/Throttle/Examples.antt =====
-- Runs of the throttle at small thresholds.
use alluredeck.Prelude.{
  ℕ, ◌*◌, ◌≡◌, refl, true, false, List, [], ◌∷◌, arith, Text, codes, text_discrete, map,
}
use alluredeck.Prelude.Maps.{lookup, insert, retain}
use alluredeck.Prelude.Texts.{to_lower, trim_space}
use alluredeck.Throttle.{
  Entry, Throttler, Verdict, new_throttler, normalise_username, check, record_failure, cleanup,
  second,
}
use alluredeck.Throttle.Lockout.{fail_at, check-fail_at_locked}
use alluredeck.Throttle.History.{Call, checks, fails, sweeps, step, answers, answers-without_sweeps}
use alluredeck.Throttle.Isolation.{after, check-after-Elsewhere, record_failure_unlocks}

-- Two failures in a hundred ticks lock for fifty.
abbrev strict : Throttler
strict = record {
  window = 100;
  soft_threshold = 1;
  lockout_threshold = 2;
  lockout_duration = 50;
  backoff_max = 60 * second;
  entries = [];
}

abbrev alice : Text
alice = codes "alice"

check-fail_at_locked_example :
    check (fail_at strict alice (10 ∷ 30 ∷ [])) 79 alice
    ≡ record { allowed = false; locked_until = 80; delay = 0; failure_count = 2 }
unfolding normalise_username to_lower trim_space text_discrete lookup
check-fail_at_locked_example =
    check-fail_at_locked strict alice 10 (30 ∷ []) refl refl (omega arith) 79 (omega arith)
      (omega arith)

abbrev day : List (ℕ × Call)
day =
    (10, fails alice)
    ∷ (30, fails alice)
    ∷ (40, sweeps)
    ∷ (60, checks alice)
    ∷ (200, sweeps)
    ∷ (201, checks alice)
    ∷ (202, fails alice)
    ∷ []

answers-without_sweeps_example :
    answers (new_throttler 100 1 2 50 0) day
    ≡ answers (new_throttler 100 1 2 50 0) (
        (10, fails alice)
        ∷ (30, fails alice)
        ∷ (60, checks alice)
        ∷ (201, checks alice)
        ∷ (202, fails alice)
        ∷ [])
answers-without_sweeps_example = answers-without_sweeps 100 1 2 50 0 day (omega arith)

-- The answers themselves.
day_counts :
    map (λ (v : Verdict). v.failure_count) (answers (new_throttler 100 1 2 50 0) day)
    ≡ 1 ∷ 2 ∷ 2 ∷ 0 ∷ 1 ∷ []
unfolding answers step record_failure check text_discrete normalise_username to_lower trim_space
    new_throttler lookup insert cleanup retain
day_counts = refl

check-after-Elsewhere_example :
    check (after strict ((10, fails (codes "bob")) ∷ [])) 20 alice ≡ check strict 20 alice
unfolding normalise_username to_lower trim_space
check-after-Elsewhere_example =
    check-after-Elsewhere strict ((10, fails (codes "bob")) ∷ []) alice 20 ((λ e. cc), tt)

abbrev late : Entry
late = record { failure_count = 2; first_failure = 10; last_failure = 100; locked_until = 150 }

abbrev held : Throttler
held = record strict { entries = (alice, late) ∷ [] }

record_failure_unlocks_example :
    (check held 120 alice).allowed ≡ false
    × (check (record_failure held 120 alice).0 120 alice).allowed ≡ true
unfolding normalise_username to_lower trim_space text_discrete lookup
record_failure_unlocks_example =
    record_failure_unlocks held alice 120 late refl refl (omega arith) (omega arith) (omega arith)
