-- ===== src/Triage.antt =====
-- Triage signals, api/internal/triage/triage.go. The two regular expressions are parameters:
-- `find_statuses` gives the groups of each match of `statusRe` (the three digits, and the duration
-- unit or the empty text), `find_endpoint` those of the first match of `endpointRe` (the whole match,
-- and the path). The ratio of two durations is kept as the pair of them; the test `ratio < 0.2` is
-- exact on it, as the code's is on durations below 2^50 ms.
pub mod Analyze
pub mod Status
pub mod Hint
pub mod History
mod Examples
use alluredeck.Prelude.{
  ℕ, ◌+◌, ◌*◌, Bool, true, false, not, ◌&&◌, ◌||◌, Option, none, some, List, [], ◌∷◌, Text, text_eq,
  codes, ltb, leb, ◌==◌, if◌then◌else◌, length, all,
}
use alluredeck.Prelude.Ints.{ℤ, pos, negsuc, parse_int}
use alluredeck.Prelude.Texts.{to_lower, trim_space, contains}

abbrev pub status_passed : Text
status_passed = codes "passed"

-- The phases, and `other_phase` for the empty string of signals never computed.
pub data Phase : Type 0 where
  before_hooks setup_fixture test_body after_hooks other_phase : Phase

pub data RetryConsistency : Type 0 where
  single consistent varying : RetryConsistency

pub record RetryAttempt : Type 0 where
  pub error_key : Text
  pub error_message : Text

pub record BuildHistoryEntry : Type 0 where
  pub status : Text
  pub duration_ms : ℤ

pub record Input : Type 0 where
  pub duration_ms : ℤ
  pub error_message : Text
  pub failed_step_path : List Text
  pub retry_attempts : List RetryAttempt
  pub build_history : List BuildHistoryEntry
  pub previous_build_status : Text
  pub category : Text

pub record FastFailSignal : Type 0 where
  pub fast_fail : Bool
  pub duration_ms : ℤ
  pub last_passing_duration_ms : Option ℤ
  pub duration_ratio : Option (ℤ × ℤ)

pub record StatusPattern : Type 0 where
  pub status_code : ℕ
  pub endpoint : Text
  pub same_status_across_retries : Bool

pub data HintConfidence : Type 0 where
  low medium : HintConfidence

pub data HintSource : Type 0 where
  heuristic from_signals : HintSource

pub record CategoryHint : Type 0 where
  pub value : Text
  pub confidence : HintConfidence
  pub source : HintSource

pub record Signals : Type 0 where
  pub fast_fail : FastFailSignal
  pub failure_phase : Phase
  pub retry_consistency : RetryConsistency
  pub repeated_status_pattern : Option StatusPattern
  pub last_status : Text
  pub builds_since_pass : ℕ
  pub category_hint : CategoryHint

-- The duration of the first passing build of the history, most recent first.
unfoldable pub last_passing_duration : List BuildHistoryEntry → Option ℤ
last_passing_duration [] = none
last_passing_duration (e ∷ h) =
    if text_eq e.status status_passed then some e.duration_ms else last_passing_duration h

-- duration / passing < 0.2 and duration <= 5000, for a positive `passing`.
abbrev pub is_fast : ℤ → ℕ → Bool
is_fast (negsuc n) passing = true
is_fast (pos n) passing = ltb (5 * n) passing && leb n 5000

-- A passing duration that is not positive gives no ratio.
unfoldable pub fast_fail_against : ℤ → Option ℤ → FastFailSignal
fast_fail_against d none = record {
  fast_fail = false;
  duration_ms = d;
  last_passing_duration_ms = none;
  duration_ratio = none;
}
fast_fail_against d (some (negsuc p)) = record {
  fast_fail = false;
  duration_ms = d;
  last_passing_duration_ms = some (negsuc p);
  duration_ratio = none;
}
fast_fail_against d (some (pos p)) =
    if leb p 0
    then record {
      fast_fail = false;
      duration_ms = d;
      last_passing_duration_ms = some (pos p);
      duration_ratio = none;
    }
    else record {
      fast_fail = is_fast d p;
      duration_ms = d;
      last_passing_duration_ms = some (pos p);
      duration_ratio = some (d, pos p);
    }

unfoldable pub compute_fast_fail : Input → FastFailSignal
compute_fast_fail i = fast_fail_against i.duration_ms (last_passing_duration i.build_history)

-- The phase that a step names, if any.
unfoldable pub phase_of_step : Text → Option Phase
phase_of_step step =
    let lower = to_lower (trim_space step) in
    if contains lower (codes "after hooks")
    then some after_hooks
    else (if contains lower (codes "before hooks")
        then some before_hooks
        else (if contains lower (codes "fixture:") || contains lower (codes "setup")
            then some setup_fixture
            else none))

abbrev pub phase_or : Option Phase → Phase → Phase
phase_or (some p) q = p
phase_or none q = q

unfoldable pub compute_failure_phase : List Text → Phase
compute_failure_phase [] = test_body
compute_failure_phase (step ∷ path) = phase_or (phase_of_step step) (compute_failure_phase path)

unfoldable pub compute_retry_consistency : List RetryAttempt → RetryConsistency
compute_retry_consistency [] = single
compute_retry_consistency (a ∷ []) = single
compute_retry_consistency (a ∷ b ∷ rest) =
    if all (λ (x : RetryAttempt). text_eq x.error_key a.error_key) (b ∷ rest)
    then consistent
    else varying

unfoldable pub compute_builds_since_pass : List BuildHistoryEntry → ℕ
compute_builds_since_pass [] = 0
compute_builds_since_pass (e ∷ h) =
    let rest = compute_builds_since_pass h in if text_eq e.status status_passed then 0 else rest + 1

-- The code of a match: none for a duration, for what is no number, and outside 100 to 599.
unfoldable pub code_of : Text × Text → Option ℕ
code_of (digits, unit) = if not (text_eq unit []) then none else (elim (parse_int digits) [
  | some (pos n) ↦ if ltb n 100 || ltb 599 n then none else some n
  | _ ↦ none
])

-- The loop's two variables are 0 until a code is found.
abbrev pub chosen : ℕ → ℕ → Option ℕ
chosen first_in_range first_client_error =
    if not (first_client_error == 0)
    then some first_client_error
    else (if not (first_in_range == 0) then some first_in_range else none)

unfoldable pub scan_codes : ℕ → ℕ → List (Option ℕ) → Option ℕ
scan_codes first_in_range first_client_error [] = chosen first_in_range first_client_error
scan_codes first_in_range first_client_error (none ∷ ms) =
    scan_codes first_in_range first_client_error ms
scan_codes first_in_range first_client_error (some code ∷ ms) =
    let rest =
      scan_codes (if first_in_range == 0 then code else first_in_range)
        (if first_client_error == 0 && leb 400 code then code else first_client_error) ms in
    if leb 500 code then some code else rest

abbrev pub Matches : Type 0
Matches = List (Text × Text)

unfoldable pub codes_of : Matches → List (Option ℕ)
unfolding code_of
codes_of [] = []
codes_of (m ∷ ms) = code_of m ∷ codes_of ms

abbrev pub same_code : ℕ → Option ℕ → Bool
same_code code none = false
same_code code (some c) = c == code

abbrev pub endpoint_of : Option (Text × Text) → Text
endpoint_of none = []
endpoint_of (some (whole, path)) = if not (text_eq path []) then path else trim_space whole

unfoldable pub extract_status_code : (Text → Matches) → Text → Option ℕ
extract_status_code find_statuses msg = scan_codes 0 0 (codes_of (find_statuses msg))

unfoldable pub extract_endpoint : (Text → Option (Text × Text)) → Text → Text
extract_endpoint find_endpoint msg = endpoint_of (find_endpoint msg)
