-- ===== src/Proposals.antt =====
-- The proposals of MCP clients and their review: api/internal/handlers/proposals.go, the stores
-- api/internal/store/pg/defect_proposal.go, known_issue_proposal.go and flaky_proposal.go, and the tables
-- of store/pg/migrations/0041_mcp_audit_and_proposals.sql. What the three kinds of proposal share is
-- written once, and a `Kind` has what differs: its table, the change that an approval makes, and the
-- metadata of its audit row. A transaction takes effect as a whole when it commits.
pub mod Review
pub mod Handlers
pub mod Effects
pub mod Atomic
pub mod Kinds
pub mod Refused
pub mod Steps
pub mod Attributed
pub mod Interleaved
pub mod Race
pub mod Propose
pub mod Proposed
pub mod Once
pub mod Pages
pub mod Ordered
pub mod Cuts
pub mod Walk
mod Examples
use alluredeck.Prelude.{ℕ, Bool, Option, none, some, List, [], ◌∷◌, Text, ℕ_discrete}
use alluredeck.Prelude.Ints.{ℤ}
use alluredeck.Users.{Accounts}

pub data ProposalStatus : Type 0 where
  pending approved rejected : ProposalStatus

-- A row of a proposal table, with what the proposal claims.
pub record Proposal (C : Type 0) : Type 0 where
  pub project_id : ℕ
  pub claim : C
  pub rationale : Text
  pub proposer_user_id : ℤ
  pub status : ProposalStatus
  pub reviewed_by : Option ℤ
  pub reviewed_at : Option ℕ
  pub created_at : ℕ

pub record DefectClaim : Type 0 where
  pub fingerprint_hash : Text
  pub proposed_category : Text
  pub proposed_resolution : Text

pub record IssueClaim : Type 0 where
  pub error_message_sample : Text
  pub regex_pattern : Text
  pub dry_run_match_count : ℕ

pub record FlakyClaim : Type 0 where
  pub test_full_name : Text
  pub history_id : Text

abbrev pub Table : Type 0 → Type 0
Table C = List (ℕ × Proposal C)

pub record Fingerprint : Type 0 where
  pub project_id : ℕ
  pub hash : Text
  pub category : Text
  pub resolution : Text
  pub updated_at : ℕ

pub record KnownIssue : Type 0 where
  pub project_id : ℕ
  pub test_name : Text
  pub pattern : Text
  pub ticket_url : Text
  pub description : Text
  pub is_active : Bool
  pub updated_at : ℕ

pub record TestResult : Type 0 where
  pub project_id : ℕ
  pub history_id : Text
  pub full_name : Text
  pub flaky : Bool

pub data ProposalType : Type 0 where
  defect known_issue flaky : ProposalType

-- The metadata of an audit row.
pub data Metadata : Type 0 where
  of_defect : ℕ → Text → Text → Metadata
  of_known_issue : ℕ → Text → ℕ → Metadata
  of_flaky : ℕ → Text → Text → Metadata
  of_rejection : ℕ → ProposalType → Text → Metadata
  of_classification : ℕ → Text → Text → Metadata

pub data AuditAction : Type 0 where
  proposal_approve proposal_reject propose_defect_classify propose_known_issue propose_flaky :
      AuditAction

pub record AuditRow : Type 0 where
  pub actor_id : Option ℤ
  pub actor_label : Text
  pub target_id : ℕ
  pub action : AuditAction
  pub metadata : Metadata

-- The tables. The results stand by their id, the latest first; `known_issue_indexes` has the columns of
-- each unique index of the known issues.
pub record Db : Type 0 where
  pub users : Accounts
  pub fingerprints : List Fingerprint
  pub known_issues : List KnownIssue
  pub known_issue_indexes : List (List Text)
  pub results : List TestResult
  pub defect_proposals : Table DefectClaim
  pub known_issue_proposals : Table IssueClaim
  pub flaky_proposals : Table FlakyClaim
  pub audit_log : List AuditRow
