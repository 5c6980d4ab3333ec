-- ===== src/Proposals/Refused.antt =====
-- Reviews that cannot succeed.
use alluredeck.Prelude.{ℕ, ◌≡◌, ◌≢◌, refl, ◌∙◌, ap, inl, inr, Option, some, none, Text, arith, ◌∷◌}
use alluredeck.Prelude.Ints.{pos, parse_int}
use alluredeck.Users.{find}
use alluredeck.Proposals.{
  ProposalStatus, approved, rejected, Proposal, ProposalType, defect, known_issue, flaky, AuditRow,
  Db,
}
use alluredeck.Proposals.Review.{Actor, actor_from_context, resolved, Faults, Kind}
use alluredeck.Proposals.Handlers.{
  conflict_target, approve_kind, reject_kind, parse_proposal_type, positive, on_path,
  approve_proposal, reject_proposal,
}
use alluredeck.Proposals.Atomic.{IsAtomic, approve-IsAtomic, reject-IsAtomic}
use alluredeck.Proposals.Effects.{IsKind}
use alluredeck.Proposals.Kinds.{defect_kind-IsKind, issue_kind-IsKind, flaky_kind-IsKind}

-- Nothing has changed, and the reply is an error.
abbrev pub IsRefused : Db → Db × ℕ → Type 0
IsRefused db out = (out.0 ≡ db) × (out.1 ≢ 200)

module _ {C : Type 0} (k : Kind C) (laws : IsKind k) where
  atomic-IsRefused :
      (status : ProposalStatus) (actor : Actor) (now id : ℕ) (row : Proposal C → AuditRow)
      (change : Proposal C → Option Db) (db : Db) (out : Db × ℕ)
      → find (resolved actor.id) db.users ≡ none
      → IsAtomic k laws status actor now id row change db out
      → IsRefused db out
  atomic-IsRefused status actor now id row change db out nobody (inl kept) = kept
  atomic-IsRefused status actor now id row change db out nobody (inr (done, r)) =
      absurd (cc (nobody, r.has_reviewer))

on_path-IsRefused :
    (handle : ProposalType → ℕ → Db → Db × ℕ) (t : Option ProposalType) (id : Option ℕ) (db : Db)
    → ((u : ProposalType) (i : ℕ) → IsRefused db (handle u i db))
    → IsRefused db (on_path handle t id db)
on_path-IsRefused handle (some t) (some id) db h = h t id
on_path-IsRefused handle (some t) none db h = (refl, λ e. omega (arith, e))
on_path-IsRefused handle none id db h = (refl, λ e. omega (arith, e))

module _ (f : Faults) (actor : Actor) (now : ℕ) (db : Db)
    (nobody : find (resolved actor.id) db.users ≡ none) where
  approve_kind-IsRefused :
      (t : ProposalType) (id : ℕ) → IsRefused db (approve_kind f actor now t id db)
  approve_kind-IsRefused defect id =
      atomic-IsRefused _ defect_kind-IsKind approved actor now id _ _ db _ nobody
        (approve-IsAtomic _ defect_kind-IsKind f actor now id db)
  approve_kind-IsRefused known_issue id =
      atomic-IsRefused _ issue_kind-IsKind approved actor now id _ _ db _ nobody
        (approve-IsAtomic _ issue_kind-IsKind f actor now id db)
  approve_kind-IsRefused flaky id =
      atomic-IsRefused _ flaky_kind-IsKind approved actor now id _ _ db _ nobody
        (approve-IsAtomic _ flaky_kind-IsKind f actor now id db)

  reject_kind-IsRefused :
      (reason : Text) (t : ProposalType) (id : ℕ)
      → IsRefused db (reject_kind f actor reason now t id db)
  reject_kind-IsRefused reason defect id =
      atomic-IsRefused _ defect_kind-IsKind rejected actor now id _ _ db _ nobody
        (reject-IsAtomic _ defect_kind-IsKind f actor reason now id db)
  reject_kind-IsRefused reason known_issue id =
      atomic-IsRefused _ issue_kind-IsKind rejected actor now id _ _ db _ nobody
        (reject-IsAtomic _ issue_kind-IsKind f actor reason now id db)
  reject_kind-IsRefused reason flaky id =
      atomic-IsRefused _ flaky_kind-IsKind rejected actor now id _ _ db _ nobody
        (reject-IsAtomic _ flaky_kind-IsKind f actor reason now id db)

-- No review by an unnumbered admin: where the subject of the caller's token is not a number, as it is
-- for the configured admin and for an outside login, and no user has the id 0, no approval and no
-- rejection succeeds; the database stays as it is and the reply is an error.
pub approve_proposal-IsRefused :
    (f : Faults) (sub reason : Text) (now : ℕ) (type_path id_path : Text) (db : Db)
    → parse_int sub ≡ none
    → find (pos 0) db.users ≡ none
    → IsRefused db (approve_proposal f (some sub) now type_path id_path db)
      × IsRefused db (reject_proposal f (some sub) reason now type_path id_path db)
unfolding approve_proposal reject_proposal
approve_proposal-IsRefused f sub reason now type_path id_path db unnumbered nobody =
    let who = actor_from_context (some sub) in
    let e : find (resolved who.id) db.users ≡ none =
      ap (λ i. find (resolved i) db.users) unnumbered ∙ nobody in
    (
      on_path-IsRefused _ (parse_proposal_type type_path) (positive (parse_int id_path)) db
          (approve_kind-IsRefused f who now db e),
      on_path-IsRefused _ (parse_proposal_type type_path) (positive (parse_int id_path)) db
          (reject_kind-IsRefused f who now db e reason),
    )

-- The database with the index that the approval wants.
abbrev pub with_index : Db → Db
with_index db = record db { known_issue_indexes = conflict_target ∷ db.known_issue_indexes }
