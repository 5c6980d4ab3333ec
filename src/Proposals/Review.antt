-- ===== src/Proposals/Review.antt =====
-- The review of a proposal of any kind: the transactions of ApproveProposal and RejectProposal of
-- api/internal/handlers/proposals.go.
use alluredeck.Prelude.{
  ℕ, Bool, true, false, ◌||◌, Option, none, some, [], ◌∷◌, Text, if◌then◌else◌, ℕ_discrete, is_some,
}
use alluredeck.Prelude.Ints.{ℤ, pos, parse_int}
use alluredeck.Prelude.Maps.{lookup, insert}
use alluredeck.Users.{find}
use alluredeck.Proposals.{
  ProposalStatus, pending, approved, rejected, Proposal, Table, ProposalType, Metadata,
  of_rejection, proposal_approve, proposal_reject, AuditRow, Db,
}

-- The caller as the token's claims name it; without claims there is no subject.
pub record Actor : Type 0 where
  pub id : Option ℤ
  pub label : Text

abbrev pub actor_from_context : Option Text → Actor
actor_from_context none = record { id = none; label = [] }
actor_from_context (some sub) = record { id = parse_int sub; label = sub }

-- The id that is written for the reviewer.
abbrev pub resolved : Option ℤ → ℤ
resolved none = pos 0
resolved (some id) = id

-- Where the database fails in a request.
pub record Faults : Type 0 where
  pub get : Bool
  pub begin : Bool
  pub apply : Bool
  pub mark : Bool
  pub audit : Bool
  pub commit : Bool

-- A step of a transaction, with `none` for a statement that fails.
abbrev pub attempt : Bool → Option Db → Option Db
attempt true r = none
attempt false r = r

abbrev pub then_do : Option Db → (Db → Option Db) → Option Db
then_do none f = none
then_do (some db) f = f db

abbrev pub is_pending : ProposalStatus → Bool
is_pending pending = true
is_pending _ = false

abbrev pub audited : AuditRow → Db → Db
audited r db = record db { audit_log = r ∷ db.audit_log }

-- The end of a transaction, with the status of the reply.
abbrev pub commit : Bool → Db → Option Db → Db × ℕ
commit fails db none = (db, 500)
commit fails db (some after) = if fails then (db, 500) else (after, 200)

-- What differs between the kinds of proposal.
pub record Kind (C : Type 0) : Type 0 where
  pub name : ProposalType
  pub table : Db → Table C
  pub put : Table C → Db → Db
  pub apply : ℕ → Proposal C → Db → Option Db
  pub metadata : ℕ → Proposal C → Metadata

pub data Checked (C : Type 0) : Type 0 where
  stop : ℕ → Checked C
  go : Proposal C → Checked C

module _ {C : Type 0} (k : Kind C) where
  abbrev pub reviewed : ProposalStatus → ℤ → ℕ → Proposal C → Proposal C
  reviewed status by now p = record p {
    status = status;
    reviewed_by = some by;
    reviewed_at = some now;
  }

  -- The row is written if its reviewer is a row of the users table.
  abbrev pub write_review : ProposalStatus → ℤ → ℕ → ℕ → Proposal C → Db → Option Db
  write_review status by now id p db =
      if is_some (find by db.users)
      then some (k.put (insert ℕ_discrete id (reviewed status by now p) (k.table db)) db)
      else none

  abbrev pub write_review_of : ProposalStatus → ℤ → ℕ → ℕ → Option (Proposal C) → Db → Option Db
  write_review_of status by now id none db = some db
  write_review_of status by now id (some p) db = write_review status by now id p db

  -- `UPDATE ... WHERE id = $4`, which changes nothing where there is no such row.
  unfoldable pub mark_reviewed : ProposalStatus → ℤ → ℕ → ℕ → Db → Option Db
  mark_reviewed status by now id db =
      write_review_of status by now id (lookup ℕ_discrete id (k.table db)) db

  abbrev pub approval_row : Actor → ℕ → Proposal C → AuditRow
  approval_row actor id p = record {
    actor_id = actor.id;
    actor_label = actor.label;
    target_id = id;
    action = proposal_approve;
    metadata = k.metadata id p;
  }

  -- The statements of an approval.
  unfoldable pub approval : Faults → Actor → ℕ → ℕ → Proposal C → Db → Option Db
  unfolding mark_reviewed
  approval f actor now id p db = then_do (attempt f.apply (k.apply now p db)) (λ applied.
      then_do (attempt f.mark (mark_reviewed approved (resolved actor.id) now id applied))
        (λ marked. attempt f.audit (some (audited (approval_row actor id p) marked))))

  -- The transaction of an approval, for the proposal as it was read.
  unfoldable pub approve_read : Faults → Actor → ℕ → ℕ → Proposal C → Db → Db × ℕ
  unfolding approval
  approve_read f actor now id p db =
      if f.begin then (db, 500) else commit f.commit db (approval f actor now id p db)

  abbrev pub check_found : Option (Proposal C) → Checked C
  check_found none = stop 404
  check_found (some p) = if is_pending p.status then go p else stop 409

  -- What is done before the transaction.
  unfoldable pub check_pending : Bool → ℕ → Db → Checked C
  check_pending down id db =
      if down then stop 404 else check_found (lookup ℕ_discrete id (k.table db))

  abbrev pub approve_checked : Faults → Actor → ℕ → ℕ → Checked C → Db → Db × ℕ
  approve_checked f actor now id (stop code) db = (db, code)
  approve_checked f actor now id (go p) db = approve_read f actor now id p db

  unfoldable pub approve : Faults → Actor → ℕ → ℕ → Db → Db × ℕ
  unfolding approve_read check_pending
  approve f actor now id db = approve_checked f actor now id (check_pending f.get id db) db

  abbrev pub rejection_row : Actor → Text → ℕ → AuditRow
  rejection_row actor reason id = record {
    actor_id = actor.id;
    actor_label = actor.label;
    target_id = id;
    action = proposal_reject;
    metadata = of_rejection id k.name reason;
  }

  -- The statements of a rejection, for the row that is pending.
  abbrev pub rejection : Faults → Actor → Text → ℕ → ℕ → Proposal C → Db → Option Db
  rejection f actor reason now id p db =
      then_do (write_review rejected (resolved actor.id) now id p db)
        (λ marked. attempt f.audit (some (audited (rejection_row actor reason id) marked)))

  abbrev pub reject_found : Faults → Actor → Text → ℕ → ℕ → Option (Proposal C) → Db → Db × ℕ
  reject_found f actor reason now id none db = (db, 409)
  reject_found f actor reason now id (some p) db =
      if is_pending p.status
      then commit f.commit db (rejection f actor reason now id p db)
      else (db, 409)

  -- `UPDATE ... WHERE id = $4 AND status = $5`, the audit row, and the commit.
  unfoldable pub reject : Faults → Actor → Text → ℕ → ℕ → Db → Db × ℕ
  reject f actor reason now id db =
      if f.begin || f.mark
      then (db, 500)
      else reject_found f actor reason now id (lookup ℕ_discrete id (k.table db)) db
