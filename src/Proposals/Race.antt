-- ===== src/Proposals/Race.antt =====
-- An approval whose proposal is rejected before its transaction.
use alluredeck.Prelude.{
  ℕ, ◌≡◌, refl, sym, ◌∙◌, ap, subst, false, some, [], ◌∷◌, Text, map, ℕ_discrete,
}
use alluredeck.Prelude.Maps.{lookup, insert, lookup-insert_self}
use alluredeck.Users.{Account, find}
use alluredeck.Proposals.{pending, approved, rejected, Proposal, DefectClaim, defect, Db}
use alluredeck.Proposals.Review.{
  Actor, resolved, Faults, audited, go, reviewed, mark_reviewed, approval_row, approval,
  approve_read, check_pending, rejection_row, reject,
}
use alluredeck.Proposals.Handlers.{reclassified, defect_kind}
use alluredeck.Proposals.Steps.{System, check, finish, turn_down, Reach, start, later}

-- The database does not fail.
abbrev pub calm : Faults
calm = record {
  get = false;
  begin = false;
  apply = false;
  mark = false;
  audit = false;
  commit = false;
}

module _ (id : ℕ) (now : ℕ) (actor : Actor) (db : Db) (u : Account)
    (there : find (resolved actor.id) db.users ≡ some u) where
  check-calm :
      (p : Proposal DefectClaim)
      → lookup ℕ_discrete id db.defect_proposals ≡ some p
      → p.status ≡ pending
      → check_pending defect_kind false id db ≡ go p
  unfolding check_pending
  check-calm p found open' = rw (found, open') refl

  rejected_db : Text → Proposal DefectClaim → Db
  rejected_db reason p = audited (rejection_row defect_kind actor reason id) (record db {
    defect_proposals =
        insert ℕ_discrete id (reviewed defect_kind rejected (resolved actor.id) now p)
          db.defect_proposals;
  })

  reject-calm :
      (reason : Text) (p : Proposal DefectClaim)
      → lookup ℕ_discrete id db.defect_proposals ≡ some p
      → p.status ≡ pending
      → reject defect_kind calm actor reason now id db ≡ (rejected_db reason p, 200)
  unfolding reject rejected_db
  reject-calm reason p found open' = rw (found, open', there) refl

  approved_db : Proposal DefectClaim → Proposal DefectClaim → Db
  approved_db p q = audited (approval_row defect_kind actor id p) (record db {
    fingerprints = map (reclassified now p) db.fingerprints;
    defect_proposals =
        insert ℕ_discrete id (reviewed defect_kind approved (resolved actor.id) now q)
          db.defect_proposals;
  })

  approve-calm :
      (p q : Proposal DefectClaim)
      → lookup ℕ_discrete id db.defect_proposals ≡ some q
      → approve_read defect_kind calm actor now id p db ≡ (approved_db p q, 200)
  unfolding approve_read approval mark_reviewed approved_db
  approve-calm p q found = rw (found, there) refl

-- The proposal stands as approved, and the log has both decisions on it.
pub record IsOverruled (id : ℕ) (a b : Actor) (reason : Text) (p : Proposal DefectClaim)
    (db after : Db) : Type 0 where
  pub last : Proposal DefectClaim
  pub stands : lookup ℕ_discrete id after.defect_proposals ≡ some last
  pub approved_last : (last.status ≡ approved) × (last.reviewed_by ≡ some (resolved a.id))
  pub logged :
      after.audit_log
      ≡ approval_row defect_kind a id p ∷ (rejection_row defect_kind b reason id ∷ db.audit_log)

abbrev pub turned_down : Actor → Text → ℕ → ℕ → Db → Db × ℕ
turned_down b reason now id db = reject defect_kind calm b reason now id db

abbrev pub overruled : Actor → ℕ → ℕ → Proposal DefectClaim → Db → Db × ℕ
overruled a now id p db = approve_read defect_kind calm a now id p db

abbrev pub quiet : Db → System
quiet db = record { db = db; held = [] }

-- A rejection can be overruled unseen: where a pending proposal about a defect is approved by one user
-- and rejected by another, both in the users table, the approval can pass its check, the rejection
-- commit, and the approval then commit; both replies are 200, the proposal stands as approved, and
-- the log has both decisions.
pub reject-IsOverruled :
    (id : ℕ) (p : Proposal DefectClaim) (a b : Actor) (u v : Account) (reason : Text) (t1 t2 : ℕ)
    (db : Db)
    → lookup ℕ_discrete id db.defect_proposals ≡ some p
    → p.status ≡ pending
    → find (resolved a.id) db.users ≡ some u
    → find (resolved b.id) db.users ≡ some v
    → ((turned_down b reason t1 id db).1 ≡ 200)
      × (((overruled a t2 id p (turned_down b reason t1 id db).0).1 ≡ 200)
          × (Reach (quiet db) (quiet (overruled a t2 id p (turned_down b reason t1 id db).0).0)
              × IsOverruled id a b reason p db
                  (overruled a t2 id p (turned_down b reason t1 id db).0).0))
unfolding rejected_db approved_db
reject-IsOverruled id p a b u v reason t1 t2 db found open' has_a has_b =
    let q = reviewed defect_kind rejected (resolved b.id) t1 p in
    let one = reject-calm id t1 b db v has_b reason p found open' in
    let db1 = rejected_db id t1 b db v has_b reason p in
    let now_there : lookup ℕ_discrete id db1.defect_proposals ≡ some q =
      lookup-insert_self ℕ_discrete id q db.defect_proposals in
    let two = approve-calm id t2 a db1 u has_a p q now_there in
    let both : overruled a t2 id p (turned_down b reason t1 id db).0
        ≡ (approved_db id t2 a db1 u has_a p q, 200) =
      ap (λ o. overruled a t2 id p o.0) one ∙ two in
    (
      ap (λ o. o.1) one,
      (
        ap (λ o. o.1) both,
        (
          later
              (later
                (later start (
                  check (record { type = defect; actor = a; id = id; proposal = p })
                    (check-calm id t1 b db v has_b p found open')))
                (turn_down calm defect b reason t1 id))
              (finish calm t2 [] (record { type = defect; actor = a; id = id; proposal = p }) []
                refl),
          subst (λ o. IsOverruled id a b reason p db o.0) (sym both)
              (record {
                last = reviewed defect_kind approved (resolved a.id) t2 q;
                stands =
                    lookup-insert_self ℕ_discrete id
                      (reviewed defect_kind approved (resolved a.id) t2 q) db1.defect_proposals;
                approved_last = (refl, refl);
                logged = refl;
              }),
        ),
      ),
    )
