-- ===== src/Throttle/Lockout.antt =====
-- When an account is locked out, and when it is not.
use native.Mathlib.Nat.{add-zero}
use alluredeck.Prelude.{
  ℕ, suc, ◌+◌, ◌≤◌, ◌<◌, ◌≡◌, refl, true, false, Option, none, some, List, [], ◌∷◌, arith, Text,
  text_discrete, text_eq, if◌then◌else◌, leb, if_pos, ap, ◌∙◌, length,
}
use alluredeck.Prelude.Maps.{lookup, insert, lookup-insert}
use alluredeck.Throttle.{
  Entry, Throttler, Verdict, normalise_username, check, check_entry, counted, punished,
  record_failure, fresh, backoff_for,
}

-- The throttler after a failure of `u` at each of the times.
unfoldable pub fail_at : Throttler → Text → List ℕ → Throttler
fail_at t u [] = t
fail_at t u (now ∷ times) = fail_at (record_failure t now u).0 u times

-- The times ascend from `now`, and none is after `end`.
abbrev pub Within : ℕ → ℕ → List ℕ → Type 0
Within now end [] = now ≤ end
Within now end (at ∷ times) = (now ≤ at) × Within at end times

abbrev pub last_or : ℕ → List ℕ → ℕ
last_or d [] = d
last_or d (x ∷ xs) = last_or x xs

abbrev with_entries : Throttler → List (Text × Entry) → Throttler
with_entries t m = record t { entries = m }

-- What becomes of one key's entry.
entry_after : Throttler → Option Entry → List ℕ → Option Entry
entry_after t o [] = o
entry_after t o (now ∷ times) = entry_after t (some (punished t now (counted t now o))) times

fail_at-entry :
    (t : Throttler) (u : Text) (times : List ℕ) (m : List (Text × Entry))
    → text_eq (normalise_username u) [] ≡ false
    → (m' : List (Text × Entry)) × (fail_at (with_entries t m) u times ≡ with_entries t m')
      × (lookup text_discrete (normalise_username u) m'
          ≡ entry_after t (lookup text_discrete (normalise_username u) m) times)
unfolding fail_at entry_after record_failure
fail_at-entry t u [] m named = (m, refl, refl)
fail_at-entry t u (now ∷ times) m named =
    let k = normalise_username u in
    let e = punished t now (counted t now (lookup text_discrete k m)) in
    let m1 = insert text_discrete k e m in
    let (m', run, held) = fail_at-entry t u times m1 named in
    let found : lookup text_discrete k m1 ≡ some e =
      lookup-insert text_discrete k k e m ∙ if_pos (text_discrete k k) refl _ _ in
    (m', rw named run, held ∙ ap (λ o. entry_after t o times) found)

check-fail_at :
    (t : Throttler) (u : Text) (times : List ℕ) (now : ℕ)
    → text_eq (normalise_username u) [] ≡ false
    → check (fail_at t u times) now u
      ≡ check_entry t now
          (entry_after t (lookup text_discrete (normalise_username u) t.entries) times)
unfolding check check_entry
check-fail_at t u times now named =
    let (m, run, held) = fail_at-entry t u times t.entries named in rw (run, named, held)

-- An entry is locked from its last failure on exactly if it has reached the threshold.
record IsTally (t : Throttler) (n first last : ℕ) (e : Entry) : Type 0 where
  count : e.failure_count ≡ n
  start : e.first_failure ≡ first
  lock : e.locked_until ≡ (if leb t.lockout_threshold n then last + t.lockout_duration else 0)

first-IsTally : (t : Throttler) (now : ℕ) → IsTally t 1 now now (punished t now (fresh now))
unfolding punished
first-IsTally t now = ground arith

next-IsTally :
    (t : Throttler) (n first last now : ℕ) (e : Entry)
    → IsTally t n first last e
    → now ≤ first + t.window
    → IsTally t (n + 1) first now (punished t now (counted t now (some e)))
unfolding punished counted
next-IsTally t n first last now e h near = ground arith

Within-le : (now end : ℕ) (times : List ℕ) → Within now end times → now ≤ end
Within-le now end [] w = w
Within-le now end (at ∷ times) w = omega (arith, Within-le at end times w.1)

entry_after-IsTally :
    (t : Throttler) (times : List ℕ) (n first last : ℕ) (e : Entry)
    → IsTally t n first last e
    → Within last (first + t.window) times
    → (e' : Entry) × (entry_after t (some e) times ≡ some e')
      × IsTally t (n + length times) first (last_or last times) e'
unfolding entry_after
entry_after-IsTally t [] n first last e h w = (e, refl, rw add-zero h)
entry_after-IsTally t (now ∷ times) n first last e h w =
    let near = Within-le now (first + t.window) times w.1 in
    let move : n + suc (length times) ≡ n + 1 + length times = omega arith in
    rw move (
      entry_after-IsTally t times (n + 1) first now _ (next-IsTally t n first last now e h near)
        w.1)

-- The entry after a first failure and more in its window.
run-IsTally :
    (t : Throttler) (now : ℕ) (times : List ℕ)
    → Within now (now + t.window) times
    → (e : Entry) × (entry_after t none (now ∷ times) ≡ some e)
      × IsTally t (1 + length times) now (last_or now times) e
unfolding entry_after
run-IsTally t now times w =
    unfold counted in entry_after-IsTally t times 1 now now _ (first-IsTally t now) w

check_tally-locked :
    (t : Throttler) (n first last later : ℕ) (e : Entry)
    → IsTally t n first last e
    → t.lockout_threshold ≤ n
    → later < last + t.lockout_duration
    → check_entry t later (some e) ≡ record {
      allowed = false;
      locked_until = last + t.lockout_duration;
      delay = 0;
      failure_count = n;
    }
unfolding check_entry
check_tally-locked t n first last later e h full soon = ground arith

check_tally-open :
    (t : Throttler) (n first last later : ℕ) (e : Entry)
    → IsTally t n first last e
    → n < t.lockout_threshold
    → later ≤ first + t.window
    → check_entry t later (some e) ≡ record {
      allowed = true;
      locked_until = 0;
      delay = backoff_for n t.backoff_max;
      failure_count = n;
    }
unfolding check_entry
check_tally-open t n first last later e h few soon = ground arith

check_tally-allowed :
    (t : Throttler) (n first last later : ℕ) (e : Entry)
    → IsTally t n first last e
    → last + t.lockout_duration ≤ later
    → (check_entry t later (some e)).allowed ≡ true
unfolding check_entry
check_tally-allowed t n first last later e h late = ground arith

module _ (t : Throttler) (u : Text) (now : ℕ) (times : List ℕ)
    (named : text_eq (normalise_username u) [] ≡ false)
    (absent : lookup text_discrete (normalise_username u) t.entries ≡ none)
    (near : Within now (now + t.window) times) where
  -- As many failures as the threshold, in one window that the first of them opens, lock the account:
  -- until the lockout has run from the last of them, `Check` refuses and reports that time and the
  -- count.
  pub check-fail_at_locked :
      (later : ℕ)
      → t.lockout_threshold ≤ 1 + length times
      → later < last_or now times + t.lockout_duration
      → check (fail_at t u (now ∷ times)) later u ≡ record {
        allowed = false;
        locked_until = last_or now times + t.lockout_duration;
        delay = 0;
        failure_count = 1 + length times;
      }
  check-fail_at_locked later full soon =
      let (e, run, tally) = run-IsTally t now times near in
      check-fail_at t u (now ∷ times) later named
      ∙ rw (absent, run) (check_tally-locked t _ now _ later e tally full soon)

  -- Fewer failures than the threshold never lock: within the window `Check` allows, and asks for the
  -- delay that belongs to their number.
  pub check-fail_at_open :
      (later : ℕ)
      → 1 + length times < t.lockout_threshold
      → later ≤ now + t.window
      → check (fail_at t u (now ∷ times)) later u ≡ record {
        allowed = true;
        locked_until = 0;
        delay = backoff_for (1 + length times) t.backoff_max;
        failure_count = 1 + length times;
      }
  check-fail_at_open later few soon =
      let (e, run, tally) = run-IsTally t now times near in
      check-fail_at t u (now ∷ times) later named
      ∙ rw (absent, run) (check_tally-open t _ now _ later e tally few soon)

  -- Whatever their number, the account is open again once the lockout has run from the last failure.
  pub check-fail_at_expired :
      (later : ℕ)
      → last_or now times + t.lockout_duration ≤ later
      → (check (fail_at t u (now ∷ times)) later u).allowed ≡ true
  check-fail_at_expired later late =
      let (e, run, tally) = run-IsTally t now times near in
      ap (λ (v : Verdict). v.allowed) (check-fail_at t u (now ∷ times) later named)
      ∙ rw (absent, run) (check_tally-allowed t _ now _ later e tally late)
