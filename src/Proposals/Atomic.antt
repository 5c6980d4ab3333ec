-- ===== src/Proposals/Atomic.antt =====
-- A review takes effect as a whole or not at all.
use alluredeck.Prelude.{
  ℕ, ◌≡◌, ◌≢◌, refl, sym, ◌∙◌, ap, subst, inl, inr, ◌⊎◌, ◌||◌, Option, none, some, ◌∷◌, Text, arith,
  ℕ_discrete, Bool-cases, Option-cases,
}
use alluredeck.Prelude.Ints.{ℤ}
use alluredeck.Prelude.Maps.{lookup, insert}
use alluredeck.Users.{Account, find}
use alluredeck.Proposals.{ProposalStatus, pending, approved, rejected, Proposal, AuditRow, Db}
use alluredeck.Proposals.Review.{
  Actor, resolved, Faults, is_pending, audited, Kind, reviewed, write_review, mark_reviewed,
  approval_row, approval, approve_read, check_found, check_pending, approve_checked, approve,
  rejection_row, rejection, reject_found, reject,
}
use alluredeck.Proposals.Effects.{
  IsKept, IsKind, IsReviewed, then_do-some, attempt-some, commit-cases, is_pending-true,
}

module _ {C : Type 0} (k : Kind C) (laws : IsKind k) where
  -- Either nothing has changed and the reply is an error, or the review is done and the reply is 200.
  abbrev pub IsAtomic :
      ProposalStatus
      → Actor
      → ℕ
      → ℕ
      → (Proposal C → AuditRow)
      → (Proposal C → Option Db)
      → Db
      → Db × ℕ
      → Type 0
  IsAtomic status actor now id row change db out =
      ((out.0 ≡ db) × (out.1 ≢ 200))
      ⊎ ((out.1 ≡ 200) × IsReviewed k status actor now id row change db out.0)

  pub write_review-some :
      (status : ProposalStatus) (by : ℤ) (now id : ℕ) (p : Proposal C) (db after : Db)
      → write_review k status by now id p db ≡ some after
      → (u : Account) × ((find by db.users ≡ some u)
          × (after ≡ k.put (insert ℕ_discrete id (reviewed k status by now p) (k.table db)) db))
  write_review-some status by now id p db after h = elim (Option-cases (find by db.users)) [
    | inl missing ↦ absurd (cc (rw missing at h))
    | inr (u, there) ↦ (u, (there, ground (arith, rw there at h)))
  ]

  -- The review is written to the database `mid`, which keeps the users, the log and the table.
  written-IsReviewed :
      (status : ProposalStatus) (actor : Actor) (now id : ℕ) (row : Proposal C → AuditRow)
      (change : Proposal C → Option Db) (p : Proposal C) (db mid marked : Db)
      → lookup ℕ_discrete id (k.table db) ≡ some p
      → p.status ≡ pending
      → IsKept db mid
      → k.table mid ≡ k.table db
      → change p ≡ some mid
      → write_review k status (resolved actor.id) now id p mid ≡ some marked
      → IsReviewed k status actor now id row change db (audited (row p) marked)
  written-IsReviewed status actor now id row change p db mid marked found was kept same did h =
      let (u, (there, e)) = write_review-some status (resolved actor.id) now id p mid marked h in
      let rest =
        laws.put-IsKept
          (insert ℕ_discrete id (reviewed k status (resolved actor.id) now p) (k.table mid)) mid in
      record {
        p = p;
        found = found;
        was_pending = was;
        reviewer = u;
        has_reviewer = ap (λ us. find (resolved actor.id) us) (sym kept.users) ∙ there;
        mid = mid;
        changed = did;
        whole = ap (audited (row p)) e;
        written =
            laws.table-audited (row p) marked
            ∙ ap k.table e
            ∙ laws.table-put
                (insert ℕ_discrete id (reviewed k status (resolved actor.id) now p) (k.table mid))
                mid
            ∙ ap (insert ℕ_discrete id (reviewed k status (resolved actor.id) now p)) same;
        logged = ap (λ l. row p ∷ l) (ap (λ d. d.audit_log) e ∙ rest.audit_log ∙ kept.audit_log);
        same_users = ap (λ d. d.users) e ∙ rest.users ∙ kept.users;
      }

  approval-IsReviewed :
      (f : Faults) (actor : Actor) (now id : ℕ) (p : Proposal C) (db after : Db)
      → lookup ℕ_discrete id (k.table db) ≡ some p
      → p.status ≡ pending
      → approval k f actor now id p db ≡ some after
      → IsReviewed k approved actor now id
          (approval_row k actor id)
          (λ p. k.apply now p db)
          db
          after
  unfolding approval mark_reviewed
  approval-IsReviewed f actor now id p db after found was h =
      let (applied, (apply_did, rest)) = then_do-some _ _ after h in
      let (marked, (mark_did, audit_did)) = then_do-some _ _ after rest in
      let did = attempt-some f.apply _ applied apply_did in
      let same = laws.table-apply now p db applied did in
      let wrote = attempt-some f.mark _ marked mark_did in
      let wrote' : write_review k approved (resolved actor.id) now id p applied ≡ some marked =
        rw (same, found) at wrote in
      let e : audited (approval_row k actor id p) marked ≡ after =
        ground (arith, attempt-some f.audit _ after audit_did) in
      subst
        (IsReviewed k approved actor now id (approval_row k actor id) (λ p. k.apply now p db) db) e
        (written-IsReviewed approved actor now id (approval_row k actor id) (λ p. k.apply now p db)
          p db applied marked found was (laws.apply-IsKept now p db applied did) same did wrote')

  approve_read-IsAtomic :
      (f : Faults) (actor : Actor) (now id : ℕ) (p : Proposal C) (db : Db)
      → lookup ℕ_discrete id (k.table db) ≡ some p
      → p.status ≡ pending
      → IsAtomic approved actor now id
          (approval_row k actor id)
          (λ p. k.apply now p db)
          db
          (approve_read k f actor now id p db)
  unfolding approve_read
  approve_read-IsAtomic f actor now id p db found was = elim (Bool-cases f.begin) [
    | inl down ↦ rw down (inl (refl, λ e. omega (arith, e)))
    | inr up ↦ rw up (elim (commit-cases f.commit db (approval k f actor now id p db)) [
      | inl kept ↦ inl kept
      | inr (done, did) ↦ inr (done, approval-IsReviewed f actor now id p db _ found was did)
    ])
  ]

  check_found-IsAtomic :
      (f : Faults) (actor : Actor) (now id : ℕ) (o : Option (Proposal C)) (db : Db)
      → lookup ℕ_discrete id (k.table db) ≡ o
      → IsAtomic approved actor now id
          (approval_row k actor id)
          (λ p. k.apply now p db)
          db
          (approve_checked k f actor now id (check_found k o) db)
  check_found-IsAtomic f actor now id none db found = inl (refl, λ e. omega (arith, e))
  check_found-IsAtomic f actor now id (some p) db found = elim (Bool-cases (is_pending p.status)) [
    | inl open' ↦
        rw open' (approve_read-IsAtomic f actor now id p db found (is_pending-true p.status open'))
    | inr closed ↦ rw closed (inl (refl, λ e. omega (arith, e)))
  ]

  -- An approval takes effect as a whole or not at all, for a kind of proposal that keeps its laws:
  -- unless the reply is 200, the database is as it was; and when it is 200, the proposal was pending,
  -- the change that its kind makes has been made, it is now approved in the name of a row of the users
  -- table, the audit log has one more row, which is about it, and nothing else has changed.
  pub approve-IsAtomic :
      (f : Faults) (actor : Actor) (now id : ℕ) (db : Db)
      → IsAtomic approved actor now id
          (approval_row k actor id)
          (λ p. k.apply now p db)
          db
          (approve k f actor now id db)
  unfolding approve check_pending
  approve-IsAtomic f actor now id db = elim (Bool-cases f.get) [
    | inl down ↦ rw down (inl (refl, λ e. omega (arith, e)))
    | inr up ↦
        rw up (check_found-IsAtomic f actor now id (lookup ℕ_discrete id (k.table db)) db refl)
  ]

  reject_found-IsAtomic :
      (f : Faults) (actor : Actor) (reason : Text) (now id : ℕ) (o : Option (Proposal C)) (db : Db)
      → lookup ℕ_discrete id (k.table db) ≡ o
      → IsAtomic rejected actor now id
          (λ p. rejection_row k actor reason id)
          (λ p. some db)
          db
          (reject_found k f actor reason now id o db)
  reject_found-IsAtomic f actor reason now id none db found = inl (refl, λ e. omega (arith, e))
  reject_found-IsAtomic f actor reason now id (some p) db found =
      elim (Bool-cases (is_pending p.status)) [
        | inr closed ↦ rw closed (inl (refl, λ e. omega (arith, e)))
        | inl open' ↦
            rw open' (elim (commit-cases f.commit db (rejection k f actor reason now id p db)) [
              | inl kept ↦ inl kept
              | inr (done, did) ↦
                  let (marked, (mark_did, audit_did)) = then_do-some _ _ _ did in
                  let e : audited (rejection_row k actor reason id) marked ≡ _ =
                    ground (arith, attempt-some f.audit _ _ audit_did) in
                  inr (
                    done,
                    subst
                        (IsReviewed k rejected actor now id (λ p. rejection_row k actor reason id)
                          (λ p. some db) db)
                        e
                        (written-IsReviewed rejected actor now id
                          (λ p. rejection_row k actor reason id) (λ p. some db) p db db marked found
                          (is_pending-true p.status open')
                          (record { users = refl; audit_log = refl }) refl refl mark_did),
                  )
            ])
      ]

  -- So does a rejection, of any kind that keeps its laws.
  pub reject-IsAtomic :
      (f : Faults) (actor : Actor) (reason : Text) (now id : ℕ) (db : Db)
      → IsAtomic rejected actor now id
          (λ p. rejection_row k actor reason id)
          (λ p. some db)
          db
          (reject k f actor reason now id db)
  unfolding reject
  reject-IsAtomic f actor reason now id db = elim (Bool-cases (f.begin || f.mark)) [
    | inl down ↦ rw down (inl (refl, λ e. omega (arith, e)))
    | inr up ↦
        rw up
          (reject_found-IsAtomic f actor reason now id (lookup ℕ_discrete id (k.table db)) db refl)
  ]
