-- ===== src/Proposals/Propose.antt =====
-- The tool propose_classify_defect: execProposeClassifyDefect of api/internal/mcp/tools/mutating.go, with
-- Create and FindPendingDuplicate of api/internal/store/pg/defect_proposal.go. The id of the API key is
-- left out, as are the address of the review and the text of the prompt.
use alluredeck.Prelude.{
  ℕ, zero, Bool, true, false, not, ◌&&◌, ◌||◌, Option, none, some, [], ◌∷◌, Text, text_eq, codes,
  ◌==◌, if◌then◌else◌, ℕ_discrete, is_some,
}
use alluredeck.Prelude.Ints.{ℤ, pos}
use alluredeck.Prelude.Maps.{insert}
use alluredeck.Users.{find}
use alluredeck.Signed.{Codec}
use alluredeck.Confirm.{
  ConfirmState, CallRequest, GateError, WriteGate, gate_write, gate_ask, gate_declined, gate_error,
  evaluate_write_gate,
}
use alluredeck.Proposals.{
  pending, Proposal, DefectClaim, Table, AuditRow, of_classification, propose_defect_classify, Db,
}
use alluredeck.Proposals.Review.{is_pending, audited}
use alluredeck.Proposals.Handlers.{positive}

-- A value of the token's information, by its type in Go; a float64 has the number that it converts to.
pub data ExtraFlag : Type 0 where
  as_string : Text → ExtraFlag
  as_bool : Bool → ExtraFlag
  other_flag : ExtraFlag

pub data ExtraNumber : Type 0 where
  as_int64 : ℤ → ExtraNumber
  as_float64 : ℤ → ExtraNumber
  as_int : ℤ → ExtraNumber
  other_number : ExtraNumber

abbrev pub allows_writes : ExtraFlag → Bool
allows_writes (as_string v) = text_eq v (codes "true")
allows_writes (as_bool v) = v
allows_writes other_flag = false

abbrev pub extra_int64 : ExtraNumber → ℤ
extra_int64 (as_int64 v) = v
extra_int64 (as_float64 v) = v
extra_int64 (as_int v) = v
extra_int64 other_number = pos 0

-- The parts of the token's information that the tool reads; a string that is absent is empty.
pub record TokenInfo : Type 0 where
  pub role : Text
  pub allow_mcp_writes : ExtraFlag
  pub extra_user_id : Text
  pub user_id : Text
  pub user_db_id : ExtraNumber

pub record Proposer : Type 0 where
  pub label : Text
  pub id : ℤ

pub record ProposeInput : Type 0 where
  pub project_id : ℤ
  pub fingerprint_hash : Text
  pub proposed_category : Text
  pub proposed_resolution : Text
  pub rationale : Text

-- Which statements of one call the database fails; an insert fails for a project that is not there.
pub record ProposeFaults : Type 0 where
  pub find_down : Bool
  pub create_down : Bool
  pub audit_down : Bool

pub data ProposeError : Type 0 where
  forbidden bad_project no_fingerprint no_category unattributed find_failed create_failed
        audit_failed :
      ProposeError
  gate_failed : GateError → ProposeError

pub data ProposeReply : Type 0 where
  failed : ProposeError → ProposeReply
  duplicate_of : ℕ → ProposeReply
  asks : Text → ProposeReply
  declined : ProposeReply
  proposed : ℕ → ProposeReply

abbrev pub kind_classify_defect : Text
kind_classify_defect = codes "propose_classify_defect"

abbrev pub is_mutating_role : Text → Bool
is_mutating_role role = text_eq role (codes "editor") || text_eq role (codes "admin")

unfoldable pub check_mutating_auth : TokenInfo → Option Proposer
check_mutating_auth t =
    if not (is_mutating_role t.role) || not (allows_writes t.allow_mcp_writes)
    then none
    else some (record {
      label = if text_eq t.extra_user_id [] then t.user_id else t.extra_user_id;
      id = extra_int64 t.user_db_id;
    })

abbrev pub is_unattributed : ℤ → Bool
is_unattributed (pos zero) = true
is_unattributed id = false

-- `WHERE project_id = $1 AND fingerprint_hash = $2 AND proposed_category = $3 AND status = $4`
abbrev pub is_duplicate : ℕ → Text → Text → Proposal DefectClaim → Bool
is_duplicate project hash category p =
    p.project_id == project
    && (text_eq p.claim.fingerprint_hash hash
        && (text_eq p.claim.proposed_category category && is_pending p.status))

-- `LIMIT 1`, here of the rows in the order of the table.
unfoldable pub find_pending_duplicate : ℕ → Text → Text → Table DefectClaim → Option ℕ
find_pending_duplicate project hash category [] = none
find_pending_duplicate project hash category ((id, p) ∷ t) =
    if is_duplicate project hash category p
    then some id
    else find_pending_duplicate project hash category t

abbrev pub proposal_of : ℕ → ℤ → ProposeInput → ℕ → Proposal DefectClaim
proposal_of project user i now = record {
  project_id = project;
  claim = record {
    fingerprint_hash = i.fingerprint_hash;
    proposed_category = i.proposed_category;
    proposed_resolution = i.proposed_resolution;
  };
  rationale = i.rationale;
  proposer_user_id = user;
  status = pending;
  reviewed_by = none;
  reviewed_at = none;
  created_at = now;
}

abbrev pub proposal_row : Proposer → ℕ → ProposeInput → ℕ → AuditRow
proposal_row who project i id = record {
  actor_id = none;
  actor_label = who.label;
  target_id = id;
  action = propose_defect_classify;
  metadata = of_classification project i.fingerprint_hash i.proposed_category;
}

-- The audit row, after the insert has been committed.
abbrev pub recorded : ProposeFaults → Proposer → ℕ → ProposeInput → ℕ → Db → Db × ProposeReply
recorded f who project i id db =
    if f.audit_down
    then (db, failed audit_failed)
    else (audited (proposal_row who project i id) db, proposed id)

-- The insert, with the id that the sequence gives; the proposer has to be a row of the users table.
unfoldable pub create_proposal :
    ProposeFaults → Proposer → ℕ → ProposeInput → ℕ → ℕ → Db → Db × ProposeReply
create_proposal f who project i now id db =
    if f.create_down || not (is_some (find who.id db.users))
    then (db, failed create_failed)
    else recorded f who project i id (record db {
      defect_proposals =
          insert ℕ_discrete id (proposal_of project who.id i now) db.defect_proposals;
    })

abbrev pub gated :
    ProposeFaults → Proposer → ℕ → ProposeInput → ℕ → ℕ → WriteGate → Db → Db × ProposeReply
gated f who project i now id gate_write db = create_proposal f who project i now id db
gated f who project i now id (gate_ask token) db = (db, asks token)
gated f who project i now id gate_declined db = (db, declined)
gated f who project i now id (gate_error e) db = (db, failed (gate_failed e))

module _ (k : Codec ConfirmState) (marshal_args : ProposeInput → Option Text) (digest : Text → Text)
    (key : Text) where
  abbrev pub unless_duplicate :
      ProposeFaults
      → Option CallRequest
      → Proposer
      → ℕ
      → ProposeInput
      → ℕ
      → ℕ
      → Option ℕ
      → Db
      → Db × ProposeReply
  unless_duplicate f req who project i now id (some other) db = (db, duplicate_of other)
  unless_duplicate f req who project i now id none db =
      gated f who project i now id
        (evaluate_write_gate k marshal_args digest req key kind_classify_defect who.label i now) db

  -- From the check of the arguments on.
  abbrev pub propose_for :
      ProposeFaults
      → Option CallRequest
      → ProposeInput
      → ℕ
      → ℕ
      → Option Proposer
      → Option ℕ
      → Db
      → Db × ProposeReply
  propose_for f req i now id none project db = (db, failed forbidden)
  propose_for f req i now id (some who) none db = (db, failed bad_project)
  propose_for f req i now id (some who) (some project) db =
      if text_eq i.fingerprint_hash []
      then (db, failed no_fingerprint)
      else (if text_eq i.proposed_category []
          then (db, failed no_category)
          else (if is_unattributed who.id
              then (db, failed unattributed)
              else (if f.find_down
                  then (db, failed find_failed)
                  else unless_duplicate f req who project i now id
                      (find_pending_duplicate project i.fingerprint_hash i.proposed_category
                        db.defect_proposals)
                      db)))

  unfoldable pub propose_classify_defect :
      ProposeFaults → Option CallRequest → TokenInfo → ProposeInput → ℕ → ℕ → Db → Db × ProposeReply
  unfolding check_mutating_auth find_pending_duplicate create_proposal evaluate_write_gate
  propose_classify_defect f req info i now id db =
      propose_for f req i now id (check_mutating_auth info) (positive (some i.project_id)) db
