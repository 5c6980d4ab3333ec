-- ===== src/Triage/Analyze.antt =====
-- The status pattern, the hint of a category and AnalyzeSignals of api/internal/triage/triage.go.
use alluredeck.Prelude.{
  ℕ, Bool, true, false, ◌&&◌, Option, none, some, List, [], Text, text_eq, codes, leb,
  if◌then◌else◌, length, all,
}
use alluredeck.Prelude.Texts.{trim_space}
use alluredeck.Triage.{
  Phase, before_hooks, RetryAttempt, Input, FastFailSignal, StatusPattern, low, medium, heuristic,
  from_signals, CategoryHint, Signals, compute_fast_fail, compute_failure_phase,
  compute_retry_consistency, compute_builds_since_pass, Matches, same_code, extract_status_code,
  extract_endpoint,
}

module _ (find_statuses : Text → Matches) (find_endpoint : Text → Option (Text × Text)) where
  pattern_for : Text → List RetryAttempt → Option ℕ → Option StatusPattern
  unfolding extract_status_code extract_endpoint
  pattern_for msg attempts none = none
  pattern_for msg attempts (some code) = some (record {
    status_code = code;
    endpoint = extract_endpoint find_endpoint msg;
    same_status_across_retries =
        leb 2 (length attempts)
        && all
            (λ (a : RetryAttempt).
              same_code code (extract_status_code find_statuses a.error_message))
            attempts;
  })

  unfoldable pub compute_status_pattern : Text → List RetryAttempt → Option StatusPattern
  unfolding pattern_for
  compute_status_pattern msg attempts =
      pattern_for msg attempts (extract_status_code find_statuses msg)

abbrev pub is_before_hooks : Phase → Bool
is_before_hooks before_hooks = true
is_before_hooks _ = false

abbrev pub is_server_error : Option StatusPattern → Bool
is_server_error none = false
is_server_error (some p) = leb 500 p.status_code

-- The test reads three of the signals, of which the hint is none.
unfoldable pub signals_say_infrastructure : Phase → FastFailSignal → Option StatusPattern → Bool
signals_say_infrastructure phase fast pattern =
    is_before_hooks phase && fast.fast_fail && is_server_error pattern

abbrev pub to_investigate : Text
to_investigate = codes "to_investigate"

-- The caller's category, with the default for a blank one.
unfoldable pub category_value : Text → Text
category_value category =
    let value = trim_space category in if text_eq value [] then to_investigate else value

unfoldable pub compute_category_hint :
    Text → Phase → FastFailSignal → Option StatusPattern → CategoryHint
unfolding category_value
compute_category_hint category phase fast pattern =
    if text_eq (category_value category) to_investigate
      && signals_say_infrastructure phase fast pattern
    then record { value = codes "infrastructure"; confidence = medium; source = from_signals }
    else record { value = category_value category; confidence = low; source = heuristic }

unfoldable pub analyze : (Text → Matches) → (Text → Option (Text × Text)) → Input → Signals
analyze find_statuses find_endpoint i =
    let fast = compute_fast_fail i in
    let phase = compute_failure_phase i.failed_step_path in
    let pattern =
      compute_status_pattern find_statuses find_endpoint i.error_message i.retry_attempts in
    record {
      fast_fail = fast;
      failure_phase = phase;
      retry_consistency = compute_retry_consistency i.retry_attempts;
      repeated_status_pattern = pattern;
      last_status = i.previous_build_status;
      builds_since_pass = compute_builds_since_pass i.build_history;
      category_hint = compute_category_hint i.category phase fast pattern;
    }
