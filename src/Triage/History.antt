-- ===== src/Triage/History.antt =====
-- The build history and the failed step path.
use alluredeck.Prelude.{
  ◌≡◌, true, false, none, some, List, [], ◌∷◌, ◌++◌, arith, Text, text_eq, length, All,
}
use alluredeck.Triage.{
  BuildHistoryEntry, Phase, status_passed, last_passing_duration, compute_builds_since_pass,
  phase_of_step, compute_failure_phase,
}

abbrev pub HasNotPassed : BuildHistoryEntry → Type 0
HasNotPassed e = text_eq e.status status_passed ≡ false

-- After builds that did not pass comes one that did: their number is what is counted, and the
-- duration of that build is the one that is compared.
pub history-passed :
    (before : List BuildHistoryEntry) (e : BuildHistoryEntry) (after : List BuildHistoryEntry)
    → All HasNotPassed before
    → text_eq e.status status_passed ≡ true
    → (compute_builds_since_pass (before ++ e ∷ after) ≡ length before)
      × (last_passing_duration (before ++ e ∷ after) ≡ some e.duration_ms)
unfolding compute_builds_since_pass last_passing_duration
history-passed [] e after n p = (rw p, rw p)
history-passed (b ∷ before) e after n p =
    let (count, last) = history-passed before e after n.1 p in
    (rw (n.0, count) (omega arith), rw (n.0, last))

abbrev pub NamesNone : Text → Type 0
NamesNone step = phase_of_step step ≡ none

-- The outermost step that names a phase decides it, whatever the steps below it say.
pub compute_failure_phase-outermost :
    (outer : List Text) (step : Text) (inner : List Text) (p : Phase)
    → All NamesNone outer
    → phase_of_step step ≡ some p
    → compute_failure_phase (outer ++ step ∷ inner) ≡ p
unfolding compute_failure_phase
compute_failure_phase-outermost [] step inner p n e = rw e
compute_failure_phase-outermost (s ∷ outer) step inner p n e =
    rw n.0 (compute_failure_phase-outermost outer step inner p n.1 e)
