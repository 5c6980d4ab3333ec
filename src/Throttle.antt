-- ===== src/Throttle.antt =====
-- The per-account brute-force throttle, api/internal/middleware/account_throttle.go.
-- A `time.Time` is the nanoseconds since Go's zero time, so `IsZero` is a test with 0; a duration is
-- a number of nanoseconds. `now.Sub(t)` stops at 0 here: the code compares it with a window that is
-- not negative, and both answer alike below 0. The mutex makes each method one step.
pub mod Backoff
pub mod Lockout
pub mod Sweep
pub mod History
pub mod Isolation
mod Examples
use alluredeck.Prelude.{
  ℕ, ◌+◌, ◌-◌, ◌*◌, ◌%◌, ◌^◌, min, Bool, true, false, not, ◌&&◌, ◌||◌, Option, none, some, List, [],
  ◌∷◌, Text, text_discrete, ltb, leb, ◌==◌, if◌then◌else◌, text_eq,
}
use alluredeck.Prelude.Maps.{lookup, insert, delete, retain}
use alluredeck.Prelude.Texts.{to_lower, trim_space}

pub record Entry : Type 0 where
  pub failure_count : ℕ
  pub first_failure : ℕ
  pub last_failure : ℕ
  pub locked_until : ℕ

pub record Throttler : Type 0 where
  pub window : ℕ
  pub soft_threshold : ℕ
  pub lockout_threshold : ℕ
  pub lockout_duration : ℕ
  pub backoff_max : ℕ
  pub entries : List (Text × Entry)

-- `AccountThrottleResult`. Go leaves the fields that a literal does not name at zero.
pub record Verdict : Type 0 where
  pub allowed : Bool
  pub locked_until : ℕ
  pub delay : ℕ
  pub failure_count : ℕ

abbrev pub clean : Verdict
clean = record { allowed = true; locked_until = 0; delay = 0; failure_count = 0 }

unfoldable pub new_throttler : ℕ → ℕ → ℕ → ℕ → ℕ → Throttler
new_throttler window soft lockout duration backoff = record {
  window = window;
  soft_threshold = soft;
  lockout_threshold = lockout;
  lockout_duration = duration;
  backoff_max = backoff;
  entries = [];
}

unfoldable pub normalise_username : Text → Text
normalise_username s = to_lower (trim_space s)

abbrev pub second : ℕ
second = 1_000_000_000

-- An `int64` product is kept modulo 2^64; it is negative from 2^63 on.
abbrev pub is_negative : ℕ → Bool
is_negative d = leb (2 ^ 63) d

unfoldable pub backoff_for : ℕ → ℕ → ℕ
backoff_for count backoff_max =
    let exp = min (count - 1) 30 in
    let d = (second * (2 ^ exp % 2 ^ 64)) % 2 ^ 64 in
    if leb count 0
    then 0
    else (if (ltb backoff_max d && not (is_negative d)) || is_negative d then backoff_max else d)

abbrev pub is_locked : Entry → ℕ → Bool
is_locked e now = not (e.locked_until == 0) && ltb now e.locked_until

abbrev pub is_stale : Throttler → Entry → ℕ → Bool
is_stale t e now = ltb t.window (now - e.first_failure)

-- The part of `Check` behind the lookup.
unfoldable pub check_entry : Throttler → ℕ → Option Entry → Verdict
check_entry t now none = clean
check_entry t now (some e) =
    if is_locked e now
    then record {
      allowed = false;
      locked_until = e.locked_until;
      delay = 0;
      failure_count = e.failure_count;
    }
    else (if is_stale t e now then clean else record {
      allowed = true;
      locked_until = 0;
      delay = backoff_for e.failure_count t.backoff_max;
      failure_count = e.failure_count;
    })

unfoldable pub check : Throttler → ℕ → Text → Verdict
unfolding check_entry
check t now username =
    let key = normalise_username username in
    if text_eq key [] then clean else check_entry t now (lookup text_discrete key t.entries)

abbrev pub fresh : ℕ → Entry
fresh now = record { failure_count = 1; first_failure = now; last_failure = now; locked_until = 0 }

-- The entry that `RecordFailure` counts the failure in.
unfoldable pub counted : Throttler → ℕ → Option Entry → Entry
counted t now none = fresh now
counted t now (some e) =
    if is_stale t e now
    then fresh now
    else record e { failure_count = e.failure_count + 1; last_failure = now }

-- The lockout test of `RecordFailure`.
unfoldable pub punished : Throttler → ℕ → Entry → Entry
punished t now e =
    if leb t.lockout_threshold e.failure_count
    then record e { locked_until = now + t.lockout_duration }
    else e

unfoldable pub failure_verdict : Throttler → Entry → Verdict
failure_verdict t e =
    if leb t.lockout_threshold e.failure_count
    then record {
      allowed = false;
      locked_until = e.locked_until;
      delay = 0;
      failure_count = e.failure_count;
    }
    else record {
      allowed = true;
      locked_until = 0;
      delay = backoff_for e.failure_count t.backoff_max;
      failure_count = e.failure_count;
    }

unfoldable pub record_failure : Throttler → ℕ → Text → Throttler × Verdict
unfolding counted punished failure_verdict
record_failure t now username =
    let key = normalise_username username in
    let e = punished t now (counted t now (lookup text_discrete key t.entries)) in
    if text_eq key []
    then (t, clean)
    else (record t { entries = insert text_discrete key e t.entries }, failure_verdict t e)

unfoldable pub record_success : Throttler → Text → Throttler
record_success t username =
    let key = normalise_username username in
    if text_eq key [] then t else record t { entries = delete text_discrete key t.entries }

-- Whether `Cleanup` leaves the entry.
abbrev pub survives : Throttler → ℕ → Entry → Bool
survives t now e = is_locked e now || not (ltb t.window (now - e.last_failure))

unfoldable pub cleanup : Throttler → ℕ → Throttler
cleanup t now = record t { entries = retain (survives t now) t.entries }
