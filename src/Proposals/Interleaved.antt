-- ===== src/Proposals/Interleaved.antt =====
-- What holds of the reviews however they interleave, and what does not.
use alluredeck.Prelude.{
  ℕ, ◌≡◌, refl, sym, subst, inl, inr, true, ◌||◌, Option, none, some, Text, arith, ◌==◌, ℕ_discrete,
  Bool-cases, Option-cases,
}
use alluredeck.Prelude.Ints.{ℤ}
use alluredeck.Prelude.Maps.{lookup, insert}
use alluredeck.Proposals.{pending, approved, rejected, Proposal, AuditRow, Db}
use alluredeck.Proposals.Review.{
  Actor, resolved, Faults, is_pending, audited, Kind, mark_reviewed, approval_row, approval,
  approve_read, rejection_row, rejection, reject_found, reject,
}
use alluredeck.Proposals.Effects.{then_do-some, attempt-some, commit-cases}
use alluredeck.Proposals.Attributed.{
  is_about, IsAttributed, audited-IsAttributed, insert-IsTable, IsFair, kind_of-IsFair,
  write_review-IsAttributed,
}
use alluredeck.Proposals.Steps.{
  kind_of, System, Step, check, finish, turn_down, submit, Reach, start, later,
}

same_number : (n : ℕ) → (n == n) ≡ true
same_number n = ground arith

module _ {C : Type 0} (k : Kind C) (fair : IsFair k) where
  approval_row-is_about :
      (actor : Actor) (id : ℕ) (p : Proposal C)
      → is_about k.name id approved (approval_row k actor id p) ≡ true
  approval_row-is_about actor id p = rw (same_number id, fair.metadata-name id p) refl

  rejection_row-is_about :
      (actor : Actor) (reason : Text) (id : ℕ)
      → is_about k.name id rejected (rejection_row k actor reason id) ≡ true
  rejection_row-is_about actor reason id = rw (same_number id, fair.name) refl

  mark_reviewed-IsAttributed :
      (by : ℤ) (now id : ℕ) (db marked : Db) (r : AuditRow)
      → mark_reviewed k approved by now id db ≡ some marked
      → is_about k.name id approved r ≡ true
      → IsAttributed db
      → IsAttributed (audited r marked)
  unfolding mark_reviewed
  mark_reviewed-IsAttributed by now id db marked r h about ok =
      elim (Option-cases (lookup ℕ_discrete id (k.table db))) [
        | inl missing ↦
            let e : db ≡ marked = ground (arith, rw missing at h) in
            subst (λ d. IsAttributed (audited r d)) e (audited-IsAttributed r db ok)
        | inr (p, found) ↦
            write_review-IsAttributed k fair approved by now id p db marked r (rw found at h) about
              ok
      ]

  approval-IsAttributed :
      (f : Faults) (actor : Actor) (now id : ℕ) (p : Proposal C) (db after : Db)
      → approval k f actor now id p db ≡ some after
      → IsAttributed db
      → IsAttributed after
  unfolding approval
  approval-IsAttributed f actor now id p db after h ok =
      let (applied, (apply_did, rest)) = then_do-some _ _ after h in
      let (marked, (mark_did, audit_did)) = then_do-some _ _ after rest in
      let mid =
        fair.apply-IsAttributed now p db applied (attempt-some f.apply _ applied apply_did) ok in
      let e : audited (approval_row k actor id p) marked ≡ after =
        ground (arith, attempt-some f.audit _ after audit_did) in
      subst IsAttributed e (
        mark_reviewed-IsAttributed (resolved actor.id) now id applied marked
          (approval_row k actor id p) (attempt-some f.mark _ marked mark_did)
          (approval_row-is_about actor id p) mid)

  approve_read-IsAttributed :
      (f : Faults) (actor : Actor) (now id : ℕ) (p : Proposal C) (db : Db)
      → IsAttributed db
      → IsAttributed (approve_read k f actor now id p db).0
  unfolding approve_read
  approve_read-IsAttributed f actor now id p db ok = elim (Bool-cases f.begin) [
    | inl down ↦ rw down ok
    | inr up ↦ rw up (elim (commit-cases f.commit db (approval k f actor now id p db)) [
      | inl (kept, _) ↦ subst IsAttributed (sym kept) ok
      | inr (_, did) ↦ approval-IsAttributed f actor now id p db _ did ok
    ])
  ]

  rejection-IsAttributed :
      (f : Faults) (actor : Actor) (reason : Text) (now id : ℕ) (p : Proposal C) (db after : Db)
      → rejection k f actor reason now id p db ≡ some after
      → IsAttributed db
      → IsAttributed after
  rejection-IsAttributed f actor reason now id p db after h ok =
      let (marked, (mark_did, audit_did)) = then_do-some _ _ after h in
      let e : audited (rejection_row k actor reason id) marked ≡ after =
        ground (arith, attempt-some f.audit _ after audit_did) in
      subst IsAttributed e (
        write_review-IsAttributed k fair rejected (resolved actor.id) now id p db marked
          (rejection_row k actor reason id) mark_did (rejection_row-is_about actor reason id) ok)

  reject_found-IsAttributed :
      (f : Faults) (actor : Actor) (reason : Text) (now id : ℕ) (o : Option (Proposal C)) (db : Db)
      → IsAttributed db
      → IsAttributed (reject_found k f actor reason now id o db).0
  reject_found-IsAttributed f actor reason now id none db ok = ok
  reject_found-IsAttributed f actor reason now id (some p) db ok =
      elim (Bool-cases (is_pending p.status)) [
        | inr closed ↦ rw closed ok
        | inl open' ↦
            rw open' (elim (commit-cases f.commit db (rejection k f actor reason now id p db)) [
              | inl (kept, _) ↦ subst IsAttributed (sym kept) ok
              | inr (_, did) ↦ rejection-IsAttributed f actor reason now id p db _ did ok
            ])
      ]

  reject-IsAttributed :
      (f : Faults) (actor : Actor) (reason : Text) (now id : ℕ) (db : Db)
      → IsAttributed db
      → IsAttributed (reject k f actor reason now id db).0
  unfolding reject
  reject-IsAttributed f actor reason now id db ok = elim (Bool-cases (f.begin || f.mark)) [
    | inl down ↦ rw down ok
    | inr up ↦
        rw up (
          reject_found-IsAttributed f actor reason now id (lookup ℕ_discrete id (k.table db)) db ok)
  ]

  submit-IsAttributed :
      (id : ℕ) (p : Proposal C) (db : Db)
      → p.status ≡ pending
      → IsAttributed db
      → IsAttributed (k.put (insert ℕ_discrete id p (k.table db)) db)
  submit-IsAttributed id p db open' ok =
      fair.put-IsAttributed (insert ℕ_discrete id p (k.table db)) db
        (insert-IsTable k.name (k.table db) db.users db.audit_log id p
          (λ closed. absurd (cc (open', closed))) (fair.table-IsTable db ok))
        ok

Step-IsAttributed : {s t : System} → Step s t → IsAttributed s.db → IsAttributed t.db
Step-IsAttributed (check h e) ok = ok
Step-IsAttributed {s} (finish f now before h after e) ok =
    approve_read-IsAttributed (kind_of h.type) (kind_of-IsFair h.type) f h.actor now h.id h.proposal
      s.db ok
Step-IsAttributed {s} (turn_down f t actor reason now id) ok =
    reject-IsAttributed (kind_of t) (kind_of-IsFair t) f actor reason now id s.db ok
Step-IsAttributed {s} (submit t id p open' fresh) ok =
    submit-IsAttributed (kind_of t) (kind_of-IsFair t) id p s.db open' ok

-- Every decision is on record: where each proposal that is not pending has a reviewer in the users
-- table and a row of the audit log about it, with an action that is its status, this stays so, in
-- whatever order approvals, rejections and new proposals interleave and wherever the database fails.
pub Reach-IsAttributed : {s t : System} → IsAttributed s.db → Reach s t → IsAttributed t.db
Reach-IsAttributed ok start = ok
Reach-IsAttributed ok (later r st) = Step-IsAttributed st (Reach-IsAttributed ok r)
