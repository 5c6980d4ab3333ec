-- ===== src/Proposals/Examples.antt =====
-- Reviews at concrete inputs.
use alluredeck.Prelude.{
  ◌≡◌, refl, true, false, none, some, [], ◌∷◌, codes, text_discrete, ℕ_discrete, arith, ap, length,
}
use alluredeck.Prelude.Ints.{pos, ℤ_discrete, parse_int, parse_nonempty, parse_digits, in_range_pos}
use alluredeck.Prelude.Maps.{lookup, insert}
use alluredeck.Users.{Account}
use alluredeck.Signed.{Codec}
use alluredeck.Confirm.{ConfirmState, evaluate_write_gate, gate_hashed, first_leg}
use alluredeck.Proposals.Propose.{
  as_string, as_int64, TokenInfo, ProposeInput, ProposeFaults, duplicate_of, ProposeReply, proposed,
  check_mutating_auth, find_pending_duplicate, create_proposal, propose_classify_defect,
}
use alluredeck.Proposals.Proposed.{IsOutcome, propose_classify_defect-IsOutcome}
use alluredeck.Proposals.Once.{propose_classify_defect-once}
use alluredeck.Proposals.{pending, approved, Proposal, DefectClaim, IssueClaim, defect, Db}
use alluredeck.Proposals.Review.{
  Actor, check_pending, approve, approve_read, approval, mark_reviewed, approval_row,
}
use alluredeck.Proposals.Handlers.{migrated_indexes, defect_kind, approve_proposal, reject_proposal}
use alluredeck.Proposals.Atomic.{IsAtomic, approve-IsAtomic}
use alluredeck.Proposals.Kinds.{defect_kind-IsKind}
use alluredeck.Proposals.Refused.{IsRefused, approve_proposal-IsRefused}
use alluredeck.Proposals.Steps.{turn_down, Reach, start, later}
use alluredeck.Proposals.Attributed.{IsAttributed}
use alluredeck.Proposals.Interleaved.{Reach-IsAttributed}
use alluredeck.Proposals.Race.{calm, turned_down, overruled, quiet, IsOverruled, reject-IsOverruled}
use alluredeck.Proposals.Pages.{walk, order_by_id, such}
use alluredeck.Proposals.Walk.{walk-listed}

abbrev account : Account
account = record {
  email = codes "ann@example.org";
  name = codes "ann";
  provider = codes "local";
  provider_sub = [];
  password_hash = codes "h";
  role = codes "admin";
  is_active = true;
  last_login = none;
  created_at = 1;
  updated_at = 1;
}

abbrev proposal : Proposal DefectClaim
proposal = record {
  project_id = 3;
  claim = record {
    fingerprint_hash = codes "f1";
    proposed_category = codes "test_bug";
    proposed_resolution = [];
  };
  rationale = codes "selector changed";
  proposer_user_id = pos 7;
  status = pending;
  reviewed_by = none;
  reviewed_at = none;
  created_at = 2;
}

abbrev db : Db
db = record {
  users = (pos 7, account) ∷ (pos 8, account) ∷ [];
  fingerprints =
      record {
        project_id = 3;
        hash = codes "f1";
        category = codes "to_investigate";
        resolution = codes "open";
        updated_at = 1;
      }
      ∷ [];
  known_issues = [];
  known_issue_indexes = migrated_indexes;
  results = [];
  defect_proposals = (5, proposal) ∷ (6, proposal) ∷ [];
  known_issue_proposals = [];
  flaky_proposals = [];
  audit_log = [];
}

abbrev ann : Actor
ann = record { id = some (pos 7); label = codes "7" }

abbrev bob : Actor
bob = record { id = some (pos 8); label = codes "8" }

approve_runs : (approve_proposal calm (some (codes "7")) 9 (codes "defect") (codes "5") db).1 ≡ 200
unfolding approve_proposal approve check_pending approve_read approval mark_reviewed lookup insert
    ℕ_discrete ℤ_discrete text_discrete parse_int parse_nonempty parse_digits in_range_pos
approve_runs = refl

approve-IsAtomic_example :
    IsAtomic defect_kind defect_kind-IsKind approved ann 9 5
      (approval_row defect_kind ann 5)
      (λ p. defect_kind.apply 9 p db)
      db
      (approve defect_kind calm ann 9 5 db)
approve-IsAtomic_example = approve-IsAtomic defect_kind defect_kind-IsKind calm ann 9 5 db

-- The configured admin.
approve_proposal-IsRefused_example :
    IsRefused db (approve_proposal calm (some (codes "admin")) 9 (codes "defect") (codes "5") db)
    × IsRefused db
        (reject_proposal calm (some (codes "admin")) (codes "no") 9 (codes "defect") (codes "5") db)
unfolding lookup ℤ_discrete parse_int parse_nonempty parse_digits
approve_proposal-IsRefused_example =
    approve_proposal-IsRefused calm (codes "admin") (codes "no") 9 (codes "defect") (codes "5") db
      refl refl

abbrev issue_proposal : Proposal IssueClaim
issue_proposal = record {
  project_id = 3;
  rationale = codes "flaky network";
  proposer_user_id = pos 7;
  status = pending;
  reviewed_by = none;
  reviewed_at = none;
  created_at = 2;
  claim = record {
    error_message_sample = codes "timeout";
    regex_pattern = codes "time.*";
    dry_run_match_count = 4;
  };
}

abbrev issue_db : Db
issue_db = record db { known_issue_proposals = (1, issue_proposal) ∷ [] }

fresh-IsAttributed : IsAttributed db
unfolding lookup
fresh-IsAttributed = record {
  defects = λ id p found closed. absurd (ground (arith, found, closed));
  issues = λ id p found closed. absurd (cc);
  flakies = λ id p found closed. absurd (cc);
}

Reach-IsAttributed_example : IsAttributed (turned_down bob (codes "no") 9 5 db).0
Reach-IsAttributed_example =
    Reach-IsAttributed {s = quiet db} fresh-IsAttributed
      (later start (turn_down calm defect bob (codes "no") 9 5))

reject-IsOverruled_example :
    ((turned_down bob (codes "no") 9 5 db).1 ≡ 200)
    × (((overruled ann 10 5 proposal (turned_down bob (codes "no") 9 5 db).0).1 ≡ 200)
        × (Reach
              (quiet db)
              (quiet (overruled ann 10 5 proposal (turned_down bob (codes "no") 9 5 db).0).0)
            × IsOverruled 5 ann bob
                (codes "no")
                proposal
                db
                (overruled ann 10 5 proposal (turned_down bob (codes "no") 9 5 db).0).0))
unfolding lookup ℕ_discrete ℤ_discrete
reject-IsOverruled_example =
    reject-IsOverruled 5 proposal ann bob account account (codes "no") 9 10 db refl refl refl refl

walk-listed_example :
    walk 3 3 (pos 1) [] db.defect_proposals ≡ some ((6, proposal) ∷ (5, proposal) ∷ [])
unfolding order_by_id such
walk-listed_example =
    walk-listed 3 (pos 1) db.defect_proposals (((λ e. omega (arith, e)), tt), (tt, tt)) 3
      (omega arith, (omega arith, tt)) (omega arith)

-- Without a signing key nothing is sealed.
abbrev no_codec : Codec ConfirmState
no_codec = record {
  mac = λ key message. [];
  encode = λ s. s;
  decode = λ s. some s;
  marshal = λ v. some [];
  unmarshal = λ s. none;
}

abbrev no_faults : ProposeFaults
no_faults = record { find_down = false; create_down = false; audit_down = false }

abbrev token_info : TokenInfo
token_info = record {
  role = codes "editor";
  allow_mcp_writes = as_string (codes "true");
  extra_user_id = codes "ann@example.org";
  user_id = codes "7";
  user_db_id = as_int64 (pos 7);
}

abbrev input : ProposeInput
input = record {
  project_id = pos 3;
  fingerprint_hash = codes "f2";
  proposed_category = codes "test_bug";
  proposed_resolution = [];
  rationale = codes "selector changed";
}

-- The call at time 9 under the id 11.
abbrev first_proposal : Db × ProposeReply
first_proposal =
    propose_classify_defect no_codec (λ i. some i.rationale) (λ s. s) [] no_faults none token_info
      input 9 11 db

first_proposal_runs : first_proposal.1 ≡ proposed 11
unfolding propose_classify_defect check_mutating_auth find_pending_duplicate create_proposal
    evaluate_write_gate gate_hashed first_leg lookup insert ℕ_discrete ℤ_discrete text_discrete
first_proposal_runs = refl

propose_classify_defect-IsOutcome_example :
    IsOutcome no_codec
      (λ i. some i.rationale)
      (λ s. s)
      []
      no_faults
      none
      token_info
      input
      9
      11
      db
      first_proposal
propose_classify_defect-IsOutcome_example =
    propose_classify_defect-IsOutcome no_codec (λ i. some i.rationale) (λ s. s) [] no_faults none
      token_info input 9 11 db

propose_classify_defect-once_example :
    propose_classify_defect no_codec
      (λ i. some i.rationale)
      (λ s. s)
      []
      no_faults
      none
      token_info
      (record input { rationale = codes "again" })
      10
      12
      first_proposal.0
    ≡ (first_proposal.0, duplicate_of 11)
unfolding propose_classify_defect check_mutating_auth find_pending_duplicate create_proposal
    evaluate_write_gate gate_hashed first_leg lookup insert ℕ_discrete ℤ_discrete text_discrete
propose_classify_defect-once_example =
    propose_classify_defect-once no_codec (λ i. some i.rationale) (λ s. s) [] no_faults none
      token_info input 9 11 db no_faults none token_info
      (record input { rationale = codes "again" }) 10 12
      (record { label = codes "ann@example.org"; id = pos 7 }) refl
      (λ e. omega (arith, ap (λ d. length d.audit_log) e)) refl refl refl refl refl refl
