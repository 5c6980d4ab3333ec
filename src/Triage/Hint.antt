-- ===== src/Triage/Hint.antt =====
-- When the category hint is the triage's own.
use alluredeck.Prelude.{ℕ, ◌≡◌, ◌≢◌, refl, ◌⊎◌, true, Option, none, some, [], arith, Text}
use alluredeck.Prelude.Ints.{ℤ, pos, negsuc}
use alluredeck.Prelude.Texts.{trim_space}
use alluredeck.Triage.{
  Matches, Input, Phase, before_hooks, FastFailSignal, StatusPattern, low, heuristic, from_signals,
  fast_fail_against, compute_fast_fail, last_passing_duration, is_fast, compute_failure_phase,
}
use alluredeck.Triage.Analyze.{
  compute_category_hint, signals_say_infrastructure, to_investigate, analyze, is_server_error,
  compute_status_pattern,
}

-- A category that a human has stored is passed through, trimmed and with low confidence, however loud
-- the signals are.
pub analyze-stored_category :
    (find_statuses : Text → Matches) (find_endpoint : Text → Option (Text × Text)) (i : Input)
    → trim_space i.category ≢ []
    → trim_space i.category ≢ to_investigate
    → (analyze find_statuses find_endpoint i).category_hint
      ≡ record { value = trim_space i.category; confidence = low; source = heuristic }
unfolding analyze compute_category_hint
analyze-stored_category find_statuses find_endpoint i given stored = ground arith

-- What a hint derived from the signals rests on.
pub record IsInfrastructure (i : Input) (pattern : Option StatusPattern) : Type 0 where
  pub passing : ℕ
  pub unset : (trim_space i.category ≡ []) ⊎ (trim_space i.category ≡ to_investigate)
  pub phase : compute_failure_phase i.failed_step_path ≡ before_hooks
  pub passed_before : last_passing_duration i.build_history ≡ some (pos passing)
  pub fast : is_fast i.duration_ms passing ≡ true
  pub server_error : is_server_error pattern ≡ true

fast_fail_against-fast :
    (d : ℤ) (o : Option ℤ)
    → (fast_fail_against d o).fast_fail ≡ true
    → (p : ℕ) × (o ≡ some (pos p)) × (is_fast d p ≡ true)
unfolding fast_fail_against
fast_fail_against-fast d none h = absurd (cc)
fast_fail_against-fast d (some (negsuc p)) h = absurd (cc)
fast_fail_against-fast d (some (pos p)) h = (p, refl, ground arith)

hint-from_signals :
    (category : Text) (phase : Phase) (fast : FastFailSignal) (pattern : Option StatusPattern)
    → (compute_category_hint category phase fast pattern).source ≡ from_signals
    → ((trim_space category ≡ []) ⊎ (trim_space category ≡ to_investigate))
      × (phase ≡ before_hooks)
      × (fast.fast_fail ≡ true)
      × (is_server_error pattern ≡ true)
unfolding compute_category_hint signals_say_infrastructure
hint-from_signals category phase fast pattern h =
    (ground arith, ground arith, ground arith, ground arith)

-- The triage asserts a category of its own only for a test without a stored one that failed in its
-- before hooks, at under a fifth of its last passing run and within five seconds, with a server error
-- in its message.
pub analyze-from_signals :
    (find_statuses : Text → Matches) (find_endpoint : Text → Option (Text × Text)) (i : Input)
    → (analyze find_statuses find_endpoint i).category_hint.source ≡ from_signals
    → IsInfrastructure i
        (compute_status_pattern find_statuses find_endpoint i.error_message i.retry_attempts)
unfolding analyze compute_fast_fail
analyze-from_signals find_statuses find_endpoint i h =
    let (unset, phase, fast, server) = hint-from_signals i.category _ _ _ h in
    let (p, passed, quick) = fast_fail_against-fast i.duration_ms _ fast in
    record {
      passing = p;
      unset = unset;
      phase = phase;
      passed_before = passed;
      fast = quick;
      server_error = server;
    }
