-- ===== src/Proposals/Once.antt =====
-- The same classification is proposed once.
use alluredeck.Prelude.{
  ℕ, ◌≡◌, ◌≢◌, refl, inl, inr, true, false, Option, none, some, [], ◌∷◌, Text, text_eq, text_eq_iff,
  arith, ℕ_discrete, Bool-cases, ite,
}
use alluredeck.Prelude.Ints.{ℤ}
use alluredeck.Prelude.Maps.{lookup, insert}
use alluredeck.Signed.{Codec}
use alluredeck.Confirm.{ConfirmState, CallRequest}
use alluredeck.Proposals.{Proposal, DefectClaim, Table, Db}
use alluredeck.Proposals.Handlers.{positive}
use alluredeck.Proposals.Propose.{
  TokenInfo, Proposer, ProposeInput, ProposeFaults, duplicate_of, check_mutating_auth,
  is_unattributed, is_duplicate, find_pending_duplicate, proposal_of, propose_classify_defect,
}
use alluredeck.Proposals.Proposed.{propose_classify_defect-IsOutcome}

is_duplicate-proposal_of :
    (project : ℕ) (user : ℤ) (i : ProposeInput) (now : ℕ)
    → is_duplicate project i.fingerprint_hash i.proposed_category (proposal_of project user i now)
      ≡ true
is_duplicate-proposal_of project user i now =
    rw (self i.fingerprint_hash, self i.proposed_category) (ground arith)
  where
    self : (t : Text) → text_eq t t ≡ true
    self t = (text_eq_iff t t).1 refl

-- Where a proposal that is not among those of the table is inserted, it is the one that is found.
find_pending_duplicate-insert :
    (project : ℕ) (hash category : Text) (id : ℕ) (p : Proposal DefectClaim) (t : Table DefectClaim)
    → is_duplicate project hash category p ≡ true
    → find_pending_duplicate project hash category t ≡ none
    → lookup ℕ_discrete id t ≡ none
    → find_pending_duplicate project hash category (insert ℕ_discrete id p t) ≡ some id
unfolding find_pending_duplicate lookup insert
find_pending_duplicate-insert project hash category id p [] same none_yet fresh = rw same refl
find_pending_duplicate-insert project hash category id p ((j, q) ∷ t) same none_yet fresh =
    elim (Bool-cases (is_duplicate project hash category q)) [
      | inl hit ↦ absurd (cc (rw hit at none_yet))
      | inr miss ↦
          let later : find_pending_duplicate project hash category t ≡ none = rw miss at none_yet in
          elim (ℕ_discrete j id)
              as (λ (d : Dec (j ≡ id)).
                ite d (some q) (lookup ℕ_discrete id t) ≡ none
                → find_pending_duplicate project hash category
                    (ite d ((j, p) ∷ t) ((j, q) ∷ insert ℕ_discrete id p t))
                  ≡ some id) [
                    | yes e ↦ λ taken. absurd (cc)
                    | no n ↦ λ free.
                        rw miss (
                          find_pending_duplicate-insert project hash category id p t same later
                            free)
                  ]
            fresh
    ]

module _ (k : Codec ConfirmState) (marshal_args : ProposeInput → Option Text) (digest : Text → Text)
    (key : Text) where
  -- Where the same is pending already, the caller is told so.
  told :
      (f : ProposeFaults) (req : Option CallRequest) (info : TokenInfo) (i : ProposeInput)
      (now id : ℕ) (who : Proposer) (project other : ℕ) (db : Db)
      → check_mutating_auth info ≡ some who
      → positive (some i.project_id) ≡ some project
      → text_eq i.fingerprint_hash [] ≡ false
      → text_eq i.proposed_category [] ≡ false
      → is_unattributed who.id ≡ false
      → f.find_down ≡ false
      → find_pending_duplicate project i.fingerprint_hash i.proposed_category db.defect_proposals
        ≡ some other
      → propose_classify_defect k marshal_args digest key f req info i now id db
        ≡ (db, duplicate_of other)
  unfolding propose_classify_defect
  told f req info i now id who project other db may there hash category user up found =
      rw (may, there, hash, category, user, up, found) refl

  module _ (f : ProposeFaults) (req : Option CallRequest) (info : TokenInfo) (i : ProposeInput)
      (now id : ℕ) (db : Db) where
    -- A proposal is written once: after a call that changed the tables, under an id that was free, a
    -- call by whoever may propose for the same project, fingerprint and category, whatever the rest of
    -- its input, changes nothing and is told the id of the first, also where the first was answered
    -- with the error of its audit row.
    pub propose_classify_defect-once :
        (f' : ProposeFaults) (req' : Option CallRequest) (info' : TokenInfo) (i' : ProposeInput)
        (now' id' : ℕ) (who' : Proposer)
        → lookup ℕ_discrete id db.defect_proposals ≡ none
        → (propose_classify_defect k marshal_args digest key f req info i now id db).0 ≢ db
        → check_mutating_auth info' ≡ some who'
        → is_unattributed who'.id ≡ false
        → f'.find_down ≡ false
        → i'.project_id ≡ i.project_id
        → i'.fingerprint_hash ≡ i.fingerprint_hash
        → i'.proposed_category ≡ i.proposed_category
        → propose_classify_defect k marshal_args digest key f' req' info' i' now' id'
            (propose_classify_defect k marshal_args digest key f req info i now id db).0
          ≡ (
            (propose_classify_defect k marshal_args digest key f req info i now id db).0,
            duplicate_of id,
          )
    propose_classify_defect-once f' req' info' i' now' id' who' free wrote may user up project hash
          category =
        elim (propose_classify_defect-IsOutcome k marshal_args digest key f req info i now id db) [
          | inl (same, _) ↦ absurd (wrote same)
          | inr made ↦
              told f' req' info' i' now' id' who' made.project id _ may
                (rw project made.positive_project) (rw hash made.has_hash)
                (rw category made.has_category) user up
                (rw (hash, category, made.written)
                  (find_pending_duplicate-insert made.project i.fingerprint_hash i.proposed_category
                    id (proposal_of made.project made.who.id i now) db.defect_proposals
                    (is_duplicate-proposal_of made.project made.who.id i now) made.new free))
        ]
