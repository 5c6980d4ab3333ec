-- ===== src/Proposals/Steps.antt =====
-- Reviews that are handled at the same time. An approval reads the proposal before its transaction, so
-- what other requests commit in between is not in what it has read.
use alluredeck.Prelude.{ℕ, ◌≡◌, false, none, List, ◌∷◌, ◌++◌, Text, ℕ_discrete}
use alluredeck.Prelude.Maps.{lookup, insert}
use alluredeck.Proposals.{
  pending, Proposal, DefectClaim, IssueClaim, FlakyClaim, ProposalType, defect, known_issue, flaky,
  Db,
}
use alluredeck.Proposals.Review.{Actor, Faults, Kind, go, check_pending, approve_read, reject}
use alluredeck.Proposals.Handlers.{defect_kind, issue_kind, flaky_kind}

abbrev pub ClaimOf : ProposalType → Type 0
ClaimOf defect = DefectClaim
ClaimOf known_issue = IssueClaim
ClaimOf flaky = FlakyClaim

abbrev pub kind_of : (t : ProposalType) → Kind (ClaimOf t)
kind_of defect = defect_kind
kind_of known_issue = issue_kind
kind_of flaky = flaky_kind

-- An approval between its check and its transaction.
pub record Held : Type 0 where
  pub type : ProposalType
  pub actor : Actor
  pub id : ℕ
  pub proposal : Proposal (ClaimOf type)

pub record System : Type 0 where
  pub db : Db
  pub held : List Held

abbrev pub decide : Faults → ℕ → Held → Db → Db
decide f now h db = (approve_read (kind_of h.type) f h.actor now h.id h.proposal db).0

-- One step of the server: an approval passes its check, or goes through its transaction; a proposal is
-- rejected; or a client makes a new one.
pub data Step (s : System) : System → Type 0 where
  check :
      (h : Held)
      → check_pending (kind_of h.type) false h.id s.db ≡ go h.proposal
      → Step s (record { db = s.db; held = h ∷ s.held })
  finish :
      (f : Faults) (now : ℕ) (before : List Held) (h : Held) (after : List Held)
      → s.held ≡ before ++ (h ∷ after)
      → Step s (record { db = decide f now h s.db; held = before ++ after })
  turn_down :
      (f : Faults) (t : ProposalType) (actor : Actor) (reason : Text) (now id : ℕ)
      → Step s (record { db = (reject (kind_of t) f actor reason now id s.db).0; held = s.held })
  submit :
      (t : ProposalType) (id : ℕ) (p : Proposal (ClaimOf t))
      → p.status ≡ pending
      → lookup ℕ_discrete id ((kind_of t).table s.db) ≡ none
      → Step s (record {
        db = (kind_of t).put (insert ℕ_discrete id p ((kind_of t).table s.db)) s.db;
        held = s.held;
      })

pub data Reach (s : System) : System → Type 0 where
  start : Reach s s
  later : {t u : System} → Reach s t → Step t u → Reach s u
