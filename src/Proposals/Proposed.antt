-- ===== src/Proposals/Proposed.antt =====
-- What a call of propose_classify_defect writes.
use alluredeck.Prelude.{
  ℕ, ◌≡◌, ◌≢◌, refl, sym, ap, inl, inr, ◌⊎◌, Bool, true, false, ◌&&◌, Option, none, some, [], ◌∷◌,
  Text, text_eq, ℕ_discrete, if◌then◌else◌, Bool-cases, Option-cases,
}
use alluredeck.Prelude.Ints.{ℤ, pos}
use alluredeck.Prelude.Maps.{insert}
use alluredeck.Users.{Account, find}
use alluredeck.Signed.{Codec}
use alluredeck.Confirm.{
  ConfirmState, CallRequest, WriteGate, gate_write, gate_ask, gate_declined, gate_error,
  evaluate_write_gate,
}
use alluredeck.Proposals.{Db}
use alluredeck.Proposals.Handlers.{positive}
use alluredeck.Proposals.Propose.{
  allows_writes, extra_int64, TokenInfo, Proposer, ProposeInput, ProposeFaults, find_failed,
  audit_failed, ProposeReply, failed, proposed, kind_classify_defect, is_mutating_role,
  check_mutating_auth, is_unattributed, find_pending_duplicate, proposal_of, proposal_row, recorded,
  create_proposal, gated, unless_duplicate, propose_for, propose_classify_defect,
}

abbrev id_of : Option Proposer → ℤ
id_of none = pos 0
id_of (some who) = who.id

check_mutating_auth-some :
    (info : TokenInfo) (who : Proposer)
    → check_mutating_auth info ≡ some who
    → ((is_mutating_role info.role && allows_writes info.allow_mcp_writes) ≡ true)
      × (who.id ≡ extra_int64 info.user_db_id)
unfolding check_mutating_auth
check_mutating_auth-some info who h = elim (Bool-cases (is_mutating_role info.role)) [
  | inl role ↦ elim (Bool-cases (allows_writes info.allow_mcp_writes)) [
    | inl writes ↦ (rw (role, writes) refl, sym (ap id_of (rw (role, writes) at h)))
    | inr reads ↦ absurd (cc (rw (role, reads) at h))
  ]
  | inr other ↦ absurd (cc (rw other at h))
]

module _ (k : Codec ConfirmState) (marshal_args : ProposeInput → Option Text) (digest : Text → Text)
    (key : Text) where
  -- A proposal that was written: the caller may propose and is a user, the input is complete, the same
  -- was not pending yet, and the gate let the write through; one pending row is new, and the audit log
  -- has a row for it, or the reply says that it could not be written.
  pub record IsProposed (req : Option CallRequest) (info : TokenInfo) (i : ProposeInput)
      (now id : ℕ) (db after : Db) (reply : ProposeReply) : Type 0 where
    pub who : Proposer
    pub project : ℕ
    pub account : Account
    pub may_write : (is_mutating_role info.role && allows_writes info.allow_mcp_writes) ≡ true
    pub named : check_mutating_auth info ≡ some who
    pub same_user : who.id ≡ extra_int64 info.user_db_id
    pub positive_project : positive (some i.project_id) ≡ some project
    pub has_hash : text_eq i.fingerprint_hash [] ≡ false
    pub has_category : text_eq i.proposed_category [] ≡ false
    pub attributed : find who.id db.users ≡ some account
    pub new :
        find_pending_duplicate project i.fingerprint_hash i.proposed_category db.defect_proposals
        ≡ none
    pub confirmed :
        evaluate_write_gate k marshal_args digest req key kind_classify_defect who.label i now
        ≡ gate_write
    pub written :
        after.defect_proposals
        ≡ insert ℕ_discrete id (proposal_of project who.id i now) db.defect_proposals
    pub unapplied : after.fingerprints ≡ db.fingerprints
    pub logged :
        ((reply ≡ proposed id) × (after.audit_log ≡ proposal_row who project i id ∷ db.audit_log))
        ⊎ ((reply ≡ failed audit_failed) × (after.audit_log ≡ db.audit_log))

  module _ (f : ProposeFaults) (req : Option CallRequest) (info : TokenInfo) (i : ProposeInput)
      (now id : ℕ) (db : Db) where
    -- Nothing is written and no proposal is named as new, or the proposal was written.
    abbrev pub IsOutcome : Db × ProposeReply → Type 0
    IsOutcome r =
        ((r.0 ≡ db) × ((n : ℕ) → r.1 ≢ proposed n)) ⊎ IsProposed req info i now id db r.0 r.1

    module _ (who : Proposer) (project : ℕ) (may_write : check_mutating_auth info ≡ some who)
        (positive_project : positive (some i.project_id) ≡ some project)
        (has_hash : text_eq i.fingerprint_hash [] ≡ false)
        (has_category : text_eq i.proposed_category [] ≡ false)
        (new : find_pending_duplicate project i.fingerprint_hash i.proposed_category
            db.defect_proposals
          ≡ none) where
      stored :
          (confirmed : evaluate_write_gate k marshal_args digest req key kind_classify_defect
              who.label i now
            ≡ gate_write)
          (account : Account) (attributed : find who.id db.users ≡ some account)
          → IsOutcome (
              recorded f who project i id (record db {
                defect_proposals =
                    insert ℕ_discrete id (proposal_of project who.id i now) db.defect_proposals;
              }))
      stored confirmed account attributed = elim (Bool-cases f.audit_down) [
        | inl lost ↦ rw lost (inr (with_log refl refl (inr (refl, refl))))
        | inr kept ↦ rw kept (inr (with_log refl refl (inl (refl, refl))))
      ]
        where
          with_log :
              {after : Db} {reply : ProposeReply}
              → after.defect_proposals
                ≡ insert ℕ_discrete id (proposal_of project who.id i now) db.defect_proposals
              → after.fingerprints ≡ db.fingerprints
              → ((reply ≡ proposed id)
                  × (after.audit_log ≡ proposal_row who project i id ∷ db.audit_log))
                ⊎ ((reply ≡ failed audit_failed) × (after.audit_log ≡ db.audit_log))
              → IsProposed req info i now id db after reply
          with_log written unapplied logged = record {
            who = who;
            project = project;
            account = account;
            may_write = (check_mutating_auth-some info who may_write).0;
            named = may_write;
            same_user = (check_mutating_auth-some info who may_write).1;
            positive_project = positive_project;
            has_hash = has_hash;
            has_category = has_category;
            attributed = attributed;
            new = new;
            confirmed = confirmed;
            written = written;
            unapplied = unapplied;
            logged = logged;
          }

      create_proposal-IsOutcome :
          evaluate_write_gate k marshal_args digest req key kind_classify_defect who.label i now
            ≡ gate_write
          → IsOutcome (create_proposal f who project i now id db)
      unfolding create_proposal
      create_proposal-IsOutcome confirmed = elim (Bool-cases f.create_down) [
        | inl down ↦ rw down (inl (refl, λ n h. absurd (cc)))
        | inr up ↦ elim (Option-cases (find who.id db.users)) [
          | inl nobody ↦ rw (up, nobody) (inl (refl, λ n h. absurd (cc)))
          | inr (account, attributed) ↦ rw (up, attributed) (stored confirmed account attributed)
        ]
      ]

      gated-IsOutcome :
          (w : WriteGate)
          → evaluate_write_gate k marshal_args digest req key kind_classify_defect who.label i now
            ≡ w
          → IsOutcome (gated f who project i now id w db)
      gated-IsOutcome gate_write h = create_proposal-IsOutcome h
      gated-IsOutcome (gate_ask token) h = inl (refl, λ n h. absurd (cc))
      gated-IsOutcome gate_declined h = inl (refl, λ n h. absurd (cc))
      gated-IsOutcome (gate_error e) h = inl (refl, λ n h. absurd (cc))

    propose_for-IsOutcome :
        (who : Option Proposer) (project : Option ℕ)
        → check_mutating_auth info ≡ who
        → positive (some i.project_id) ≡ project
        → IsOutcome (propose_for k marshal_args digest key f req i now id who project db)
    propose_for-IsOutcome none project may there = inl (refl, λ n h. absurd (cc))
    propose_for-IsOutcome (some who) none may there = inl (refl, λ n h. absurd (cc))
    propose_for-IsOutcome (some who) (some project) may there =
        elim (Bool-cases (text_eq i.fingerprint_hash [])) [
          | inl bare ↦ rw bare (inl (refl, λ n h. absurd (cc)))
          | inr hash ↦ elim (Bool-cases (text_eq i.proposed_category [])) [
            | inl bare ↦ rw (hash, bare) (inl (refl, λ n h. absurd (cc)))
            | inr category ↦ elim (Bool-cases (is_unattributed who.id)) [
              | inl nobody ↦ rw (hash, category, nobody) (inl (refl, λ n h. absurd (cc)))
              | inr user ↦ rw (hash, category, user) (looked f.find_down hash category)
            ]
          ]
        ]
      where
        unless :
            (o : Option ℕ)
            → find_pending_duplicate project i.fingerprint_hash i.proposed_category
                db.defect_proposals
              ≡ o
            → text_eq i.fingerprint_hash [] ≡ false
            → text_eq i.proposed_category [] ≡ false
            → IsOutcome (unless_duplicate k marshal_args digest key f req who project i now id o db)
        unless (some other) h hash category = inl (refl, λ n e. absurd (cc))
        unless none h hash category = gated-IsOutcome who project may there hash category h _ refl

        looked :
            (down : Bool)
            → text_eq i.fingerprint_hash [] ≡ false
            → text_eq i.proposed_category [] ≡ false
            → IsOutcome (
                if down
                then (db, failed find_failed)
                else unless_duplicate k marshal_args digest key f req who project i now id
                    (find_pending_duplicate project i.fingerprint_hash i.proposed_category
                      db.defect_proposals)
                    db)
        looked true hash category = inl (refl, λ n e. absurd (cc))
        looked false hash category = unless _ refl hash category

    -- Soundness of proposing: a call leaves every table as it was and names no new proposal, or the
    -- proposal was written, by a caller with an editor's or admin's role and leave to write whose id is
    -- a row of the users table, for a complete input that is not pending yet, and past the gate; then
    -- the one new row is pending, no fingerprint has changed, and there is an audit row or an error
    -- that says that there is none.
    pub propose_classify_defect-IsOutcome :
        IsOutcome (propose_classify_defect k marshal_args digest key f req info i now id db)
    unfolding propose_classify_defect
    propose_classify_defect-IsOutcome =
        propose_for-IsOutcome (check_mutating_auth info) (positive (some i.project_id)) refl refl
