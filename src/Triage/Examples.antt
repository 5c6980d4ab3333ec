-- ===== src/Triage/Examples.antt =====
-- Runs of the triage on small inputs, with a finder that answers the same matches for every message.
use alluredeck.Prelude.{ℕ, ◌≡◌, Option, some, [], ◌∷◌, Text, codes, map, ◌↔◌}
use alluredeck.Prelude.Ints.{pos}
use alluredeck.Triage.{
  Matches, Input, BuildHistoryEntry, status_passed, code_of, extract_status_code,
}
use alluredeck.Triage.Status.{IsStatus, extract_status_code_lem, preferred}

-- The matches of "404 after 503ms, then 502".
abbrev three_matches : Text → Matches
three_matches msg = (codes "404", []) ∷ (codes "503", codes "ms") ∷ (codes "502", []) ∷ []

abbrev api_endpoint : Text → Option (Text × Text)
api_endpoint msg = some (codes "GET /api", codes "/api")

abbrev gateway_message : Text
gateway_message = codes "GET /api: 404 after 503ms, then 502"

extract_status_code_lem_example :
    (extract_status_code three_matches gateway_message
      ≡ preferred (map code_of (three_matches gateway_message)))
    × ((m : Text × Text) (c : ℕ) → (code_of m ≡ some c) ↔ IsStatus m c)
extract_status_code_lem_example = extract_status_code_lem three_matches gateway_message

abbrev build : Text → ℕ → BuildHistoryEntry
build status ms = record { status = status; duration_ms = pos ms }

-- A test that failed in its before hooks within 100 ms, where it took 2000 ms when it last passed.
abbrev died_early : Text → Input
died_early category = record {
  duration_ms = pos 100;
  error_message = gateway_message;
  failed_step_path = codes "Before Hooks" ∷ codes "goto" ∷ [];
  retry_attempts = [];
  build_history = build (codes "failed") 90 ∷ build status_passed 2000 ∷ [];
  previous_build_status = codes "failed";
  category = category;
}
