-- ===== src/Proposals/Effects.antt =====
-- What a review leaves behind, and the laws of a kind of proposal.
use alluredeck.Prelude.{
  ℕ, ◌≡◌, ◌≢◌, refl, inl, inr, ◌⊎◌, Bool, true, false, Option, none, some, ◌∷◌, arith, ℕ_discrete,
}
use alluredeck.Prelude.Maps.{lookup, insert}
use alluredeck.Users.{Account, find}
use alluredeck.Proposals.{
  ProposalStatus, pending, approved, rejected, Proposal, Table, AuditRow, Db,
}
use alluredeck.Proposals.Review.{
  Actor, resolved, attempt, then_do, is_pending, audited, commit, Kind, reviewed,
}

-- The part of a database that a change to a kind's table, or the change that an approval makes, leaves
-- as it is.
pub record IsKept (db after : Db) : Type 0 where
  pub users : after.users ≡ db.users
  pub audit_log : after.audit_log ≡ db.audit_log

pub record IsKind {C : Type 0} (k : Kind C) : Type 0 where
  pub put-IsKept : (t : Table C) (db : Db) → IsKept db (k.put t db)
  pub table-audited : (r : AuditRow) (db : Db) → k.table (audited r db) ≡ k.table db
  pub table-put : (t : Table C) (db : Db) → k.table (k.put t db) ≡ t
  pub apply-IsKept :
      (now : ℕ) (p : Proposal C) (db after : Db) → k.apply now p db ≡ some after → IsKept db after
  pub table-apply :
      (now : ℕ) (p : Proposal C) (db after : Db)
      → k.apply now p db ≡ some after
      → k.table after ≡ k.table db

-- Of a proposal that was pending, the change is made, the review is written under a reviewer of the
-- users table, and one row is added to the audit log.
pub record IsReviewed {C : Type 0} (k : Kind C) (status : ProposalStatus) (actor : Actor)
    (now id : ℕ) (row : Proposal C → AuditRow) (change : Proposal C → Option Db) (db after : Db)
    : Type 0 where
  pub p : Proposal C
  pub found : lookup ℕ_discrete id (k.table db) ≡ some p
  pub was_pending : p.status ≡ pending
  pub reviewer : Account
  pub has_reviewer : find (resolved actor.id) db.users ≡ some reviewer
  pub written :
      k.table after
      ≡ insert ℕ_discrete id (reviewed k status (resolved actor.id) now p) (k.table db)
  pub logged : after.audit_log ≡ row p ∷ db.audit_log
  pub same_users : after.users ≡ db.users
  pub mid : Db
  pub changed : change p ≡ some mid
  pub whole :
      after
      ≡ audited (row p) (
          k.put
            (insert ℕ_discrete id (reviewed k status (resolved actor.id) now p) (k.table mid))
            mid)

pub then_do-some :
    (o : Option Db) (f : Db → Option Db) (after : Db)
    → then_do o f ≡ some after
    → (mid : Db) × ((o ≡ some mid) × (f mid ≡ some after))
then_do-some none f after h = absurd (cc)
then_do-some (some mid) f after h = (mid, (refl, h))

pub attempt-some :
    (down : Bool) (o : Option Db) (after : Db) → attempt down o ≡ some after → o ≡ some after
attempt-some true o after h = absurd (cc)
attempt-some false o after h = h

pub commit-cases :
    (fails : Bool) (db : Db) (o : Option Db)
    → (((commit fails db o).0 ≡ db) × ((commit fails db o).1 ≢ 200))
      ⊎ (((commit fails db o).1 ≡ 200) × (o ≡ some (commit fails db o).0))
commit-cases fails db none = inl (refl, λ e. omega (arith, e))
commit-cases true db (some after) = inl (refl, λ e. omega (arith, e))
commit-cases false db (some after) = inr (refl, refl)

pub is_pending-true : (s : ProposalStatus) → is_pending s ≡ true → s ≡ pending
is_pending-true pending h = refl
is_pending-true approved h = absurd (cc)
is_pending-true rejected h = absurd (cc)
