-- ===== src/Proposals/Attributed.antt =====
-- Every decision on a proposal has its reviewer and its audit row, whatever is handled at the same time.
use alluredeck.Prelude.{
  ℕ, ◌≡◌, refl, sym, ◌∙◌, ap, subst, inl, inr, Bool, true, false, ◌&&◌, some, List, ◌∷◌, arith, any,
  ◌==◌, ℕ_discrete,
}
use alluredeck.Prelude.Ints.{ℤ}
use alluredeck.Prelude.Maps.{lookup, insert, lookup-insert_cases}
use alluredeck.Users.{Accounts, Account, find}
use alluredeck.Proposals.{
  ProposalStatus, approved, rejected, Proposal, Table, ProposalType, defect, known_issue, flaky,
  Metadata, of_defect, of_known_issue, of_flaky, of_rejection, of_classification, AuditAction,
  proposal_approve, proposal_reject, AuditRow, Db,
}
use alluredeck.Proposals.Review.{is_pending, audited, Kind, reviewed, write_review}
use alluredeck.Proposals.Handlers.{defect_kind, issue_kind, flaky_kind}
use alluredeck.Proposals.Atomic.{write_review-some}
use alluredeck.Proposals.Effects.{IsKind}
use alluredeck.Proposals.Kinds.{
  kept_by, kept_if, defect_kind-IsKind, issue_kind-IsKind, flaky_kind-IsKind,
}
use alluredeck.Proposals.Steps.{kind_of}

abbrev pub same_type : ProposalType → ProposalType → Bool
same_type defect defect = true
same_type known_issue known_issue = true
same_type flaky flaky = true
same_type _ _ = false

abbrev pub type_of : Metadata → ProposalType
type_of (of_defect id hash category) = defect
type_of (of_known_issue id pattern project) = known_issue
type_of (of_flaky id name history) = flaky
type_of (of_rejection id t reason) = t
type_of (of_classification project hash category) = defect

-- The action that an audit row of the decision has.
abbrev pub decides : ProposalStatus → AuditAction → Bool
decides approved proposal_approve = true
decides rejected proposal_reject = true
decides _ _ = false

abbrev pub is_about : ProposalType → ℕ → ProposalStatus → AuditRow → Bool
is_about t id s r = r.target_id == id && (decides s r.action && same_type (type_of r.metadata) t)

-- A decision has a reviewer in the users table and a row in the audit log.
pub record IsDecided {C : Type 0} (t : ProposalType) (id : ℕ) (p : Proposal C) (users : Accounts)
    (log : List AuditRow) : Type 0 where
  pub by : ℤ
  pub reviewed_by : p.reviewed_by ≡ some by
  pub reviewer : Account
  pub has_reviewer : find by users ≡ some reviewer
  pub logged : any (is_about t id p.status) log ≡ true

abbrev pub IsTable : {C : Type 0} → ProposalType → Table C → Accounts → List AuditRow → Type 0
IsTable {C} t table users log =
    (id : ℕ) (p : Proposal C)
    → lookup ℕ_discrete id table ≡ some p
    → is_pending p.status ≡ false
    → IsDecided t id p users log

pub record IsAttributed (db : Db) : Type 0 where
  pub defects : IsTable defect db.defect_proposals db.users db.audit_log
  pub issues : IsTable known_issue db.known_issue_proposals db.users db.audit_log
  pub flakies : IsTable flaky db.flaky_proposals db.users db.audit_log

log-IsTable :
    {C : Type 0} (t : ProposalType) (table : Table C) (users : Accounts) (r : AuditRow)
    (log : List AuditRow)
    → IsTable t table users log
    → IsTable t table users (r ∷ log)
log-IsTable t table users r log h = λ id p found closed.
    let d = h id p found closed in
    record {
      by = d.by;
      reviewed_by = d.reviewed_by;
      reviewer = d.reviewer;
      has_reviewer = d.has_reviewer;
      logged = ground (arith, d.logged);
    }

pub insert-IsTable :
    {C : Type 0} (t : ProposalType) (table : Table C) (users : Accounts) (log : List AuditRow)
    (id : ℕ) (p : Proposal C)
    → (is_pending p.status ≡ false → IsDecided t id p users log)
    → IsTable t table users log
    → IsTable t (insert ℕ_discrete id p table) users log
insert-IsTable t table users log id p new h = λ i q found closed.
    elim (lookup-insert_cases ℕ_discrete id i p q table found) [
      | inl (same, e) ↦
          let d = new (ap (λ x. is_pending x.status) e ∙ closed) in
          subst (λ x. IsDecided t x q users log) same (subst (λ x. IsDecided t id x users log) e d)
      | inr (other, old) ↦ h i q old closed
    ]

pub audited-IsAttributed : (r : AuditRow) (db : Db) → IsAttributed db → IsAttributed (audited r db)
audited-IsAttributed r db h = record {
  defects = log-IsTable defect db.defect_proposals db.users r db.audit_log h.defects;
  issues = log-IsTable known_issue db.known_issue_proposals db.users r db.audit_log h.issues;
  flakies = log-IsTable flaky db.flaky_proposals db.users r db.audit_log h.flakies;
}

-- What is used of a kind.
pub record IsFair {C : Type 0} (k : Kind C) : Type 0 where
  pub laws : IsKind k
  pub table-IsTable :
      (db : Db) → IsAttributed db → IsTable k.name (k.table db) db.users db.audit_log
  pub put-IsAttributed :
      (table : Table C) (db : Db)
      → IsTable k.name table db.users db.audit_log
      → IsAttributed db
      → IsAttributed (k.put table db)
  pub put-audited :
      (r : AuditRow) (table : Table C) (db : Db)
      → audited r (k.put table db) ≡ k.put table (audited r db)
  pub apply-IsAttributed :
      (now : ℕ) (p : Proposal C) (db mid : Db)
      → k.apply now p db ≡ some mid
      → IsAttributed db
      → IsAttributed mid
  pub metadata-name :
      (id : ℕ) (p : Proposal C) → same_type (type_of (k.metadata id p)) k.name ≡ true
  pub name : same_type k.name k.name ≡ true

defect_kind-IsFair : IsFair defect_kind
defect_kind-IsFair = record {
  laws = defect_kind-IsKind;
  table-IsTable = λ db h. h.defects;
  put-IsAttributed =
      λ table db new h. record { defects = new; issues = h.issues; flakies = h.flakies };
  put-audited = λ r table db. refl;
  apply-IsAttributed = λ now p db mid e h.
      kept_by IsAttributed _ mid e
        (record { defects = h.defects; issues = h.issues; flakies = h.flakies });
  metadata-name = λ id p. refl;
  name = refl;
}

issue_kind-IsFair : IsFair issue_kind
issue_kind-IsFair = record {
  laws = issue_kind-IsKind;
  table-IsTable = λ db h. h.issues;
  put-IsAttributed =
      λ table db new h. record { defects = h.defects; issues = new; flakies = h.flakies };
  put-audited = λ r table db. refl;
  apply-IsAttributed = λ now p db mid e h.
      kept_if IsAttributed _ _ mid e
        (record { defects = h.defects; issues = h.issues; flakies = h.flakies });
  metadata-name = λ id p. refl;
  name = refl;
}

flaky_kind-IsFair : IsFair flaky_kind
flaky_kind-IsFair = record {
  laws = flaky_kind-IsKind;
  table-IsTable = λ db h. h.flakies;
  put-IsAttributed =
      λ table db new h. record { defects = h.defects; issues = h.issues; flakies = new };
  put-audited = λ r table db. refl;
  apply-IsAttributed = λ now p db mid e h.
      kept_by IsAttributed _ mid e
        (record { defects = h.defects; issues = h.issues; flakies = h.flakies });
  metadata-name = λ id p. refl;
  name = refl;
}

pub kind_of-IsFair : (t : ProposalType) → IsFair (kind_of t)
kind_of-IsFair defect = defect_kind-IsFair
kind_of-IsFair known_issue = issue_kind-IsFair
kind_of-IsFair flaky = flaky_kind-IsFair

module _ {C : Type 0} (k : Kind C) (fair : IsFair k) where
  -- A review that is written together with its audit row.
  pub write_review-IsAttributed :
      (status : ProposalStatus) (by : ℤ) (now id : ℕ) (p : Proposal C) (db marked : Db)
      (r : AuditRow)
      → write_review k status by now id p db ≡ some marked
      → is_about k.name id status r ≡ true
      → IsAttributed db
      → IsAttributed (audited r marked)
  write_review-IsAttributed status by now id p db marked r h about ok =
      let (u, (there, e)) = write_review-some k fair.laws status by now id p db marked h in
      let T = insert ℕ_discrete id (reviewed k status by now p) (k.table db) in
      let log = audited-IsAttributed r db ok in
      let kept = fair.laws.put-IsKept in
      let same = fair.laws.table-audited r db in
      let old : IsTable k.name (k.table db) db.users (r ∷ db.audit_log) =
        subst (λ t. IsTable k.name t db.users (r ∷ db.audit_log)) same
          (fair.table-IsTable (audited r db) log) in
      let new : IsTable k.name T db.users (r ∷ db.audit_log) =
        insert-IsTable k.name (k.table db) db.users (r ∷ db.audit_log) id
          (reviewed k status by now p)
          (λ closed. record {
            by = by;
            reviewed_by = refl;
            reviewer = u;
            has_reviewer = there;
            logged = rw about refl;
          })
          old in
      subst IsAttributed (sym (ap (audited r) e ∙ fair.put-audited r T db))
        (fair.put-IsAttributed T (audited r db) new log)
