-- ===== src/Proposals/Handlers.antt =====
-- The three kinds of proposal, and the handlers ApproveProposal and RejectProposal of
-- api/internal/handlers/proposals.go on the paths of the requests.
use alluredeck.Prelude.{
  ℕ, zero, suc, Bool, true, ◌&&◌, Option, none, some, List, [], ◌∷◌, map, any, all, Text, text_eq,
  codes, ◌==◌, if◌then◌else◌,
}
use alluredeck.Prelude.Ints.{ℤ, pos, negsuc, parse_int}
use alluredeck.Proposals.{
  Proposal, DefectClaim, IssueClaim, FlakyClaim, Fingerprint, KnownIssue, TestResult, ProposalType,
  defect, known_issue, flaky, of_defect, of_known_issue, of_flaky, Db,
}
use alluredeck.Proposals.Review.{Actor, actor_from_context, Faults, Kind, approve, reject}

-- Of a defect: category and resolution of the fingerprint, where an empty resolution leaves it as it is.
abbrev pub is_fingerprint : Proposal DefectClaim → Fingerprint → Bool
is_fingerprint p d = d.project_id == p.project_id && text_eq d.hash p.claim.fingerprint_hash

abbrev pub coalesce : Text → Text → Text
coalesce new old = if text_eq new [] then old else new

unfoldable pub reclassified : ℕ → Proposal DefectClaim → Fingerprint → Fingerprint
reclassified now p d =
    if is_fingerprint p d
    then record d {
      category = p.claim.proposed_category;
      resolution = coalesce p.claim.proposed_resolution d.resolution;
      updated_at = now;
    }
    else d

abbrev pub defect_kind : Kind DefectClaim
defect_kind = record {
  name = defect;
  table = λ db. db.defect_proposals;
  put = λ t db. record db { defect_proposals = t };
  apply = λ now p db. some (record db { fingerprints = map (reclassified now p) db.fingerprints });
  metadata = λ id p. of_defect id p.claim.fingerprint_hash p.claim.proposed_category;
}

-- Of a known issue: `ON CONFLICT (project_id, test_name)` wants a unique index on the two columns.
abbrev pub conflict_target : List Text
conflict_target = codes "project_id" ∷ codes "test_name" ∷ []

-- The unique indexes of the known issues under the migrations: the primary key.
abbrev pub migrated_indexes : List (List Text)
migrated_indexes = (codes "id" ∷ []) ∷ []

abbrev pub same_columns : List Text → List Text → Bool
same_columns a b = all (λ x. any (text_eq x) b) a && all (λ x. any (text_eq x) a) b

unfoldable pub has_unique_index : List Text → List (List Text) → Bool
has_unique_index columns indexes = any (same_columns columns) indexes

abbrev pub issue_name : Proposal IssueClaim → Text
issue_name p = coalesce p.claim.error_message_sample p.claim.regex_pattern

abbrev pub is_issue : Proposal IssueClaim → KnownIssue → Bool
is_issue p i = i.project_id == p.project_id && text_eq i.test_name (issue_name p)

unfoldable pub upsert_issue : ℕ → Proposal IssueClaim → List KnownIssue → List KnownIssue
upsert_issue now p is =
    if any (is_issue p) is
    then map
        (λ i.
          if is_issue p i
          then record i {
            pattern = p.claim.regex_pattern;
            description = p.rationale;
            is_active = true;
            updated_at = now;
          }
          else i)
        is
    else record {
      project_id = p.project_id;
      test_name = issue_name p;
      pattern = p.claim.regex_pattern;
      ticket_url = [];
      description = p.rationale;
      is_active = true;
      updated_at = now;
    }
      ∷ is

abbrev pub issue_kind : Kind IssueClaim
issue_kind = record {
  name = known_issue;
  table = λ db. db.known_issue_proposals;
  put = λ t db. record db { known_issue_proposals = t };
  apply = λ now p db.
      if has_unique_index conflict_target db.known_issue_indexes
      then some (record db { known_issues = upsert_issue now p db.known_issues })
      else none;
  metadata = λ id p. of_known_issue id p.claim.regex_pattern p.project_id;
}

-- Of a flaky test: its latest result in the project.
abbrev pub is_result : Proposal FlakyClaim → TestResult → Bool
is_result p r =
    r.project_id == p.project_id
    && (text_eq r.history_id p.claim.history_id && text_eq r.full_name p.claim.test_full_name)

unfoldable pub mark_latest : Proposal FlakyClaim → List TestResult → List TestResult
mark_latest p [] = []
mark_latest p (r ∷ rs) =
    let rest = mark_latest p rs in
    if is_result p r then record r { flaky = true } ∷ rs else r ∷ rest

abbrev pub flaky_kind : Kind FlakyClaim
flaky_kind = record {
  name = flaky;
  table = λ db. db.flaky_proposals;
  put = λ t db. record db { flaky_proposals = t };
  apply = λ now p db. some (record db { results = mark_latest p db.results });
  metadata = λ id p. of_flaky id p.claim.test_full_name p.claim.history_id;
}

-- The paths of the requests.
abbrev pub parse_proposal_type : Text → Option ProposalType
parse_proposal_type t =
    if text_eq t (codes "defect")
    then some defect
    else (if text_eq t (codes "known_issue")
        then some known_issue
        else (if text_eq t (codes "flaky") then some flaky else none))

-- A number from 1 on.
abbrev pub positive : Option ℤ → Option ℕ
positive none = none
positive (some (pos zero)) = none
positive (some (pos (suc n))) = some (suc n)
positive (some (negsuc n)) = none

abbrev pub approve_kind : Faults → Actor → ℕ → ProposalType → ℕ → Db → Db × ℕ
approve_kind f actor now defect id db = approve defect_kind f actor now id db
approve_kind f actor now known_issue id db = approve issue_kind f actor now id db
approve_kind f actor now flaky id db = approve flaky_kind f actor now id db

abbrev pub reject_kind : Faults → Actor → Text → ℕ → ProposalType → ℕ → Db → Db × ℕ
reject_kind f actor reason now defect id db = reject defect_kind f actor reason now id db
reject_kind f actor reason now known_issue id db = reject issue_kind f actor reason now id db
reject_kind f actor reason now flaky id db = reject flaky_kind f actor reason now id db

abbrev pub on_path : (ProposalType → ℕ → Db → Db × ℕ) → Option ProposalType → Option ℕ → Db → Db × ℕ
on_path handle (some t) (some id) db = handle t id db
on_path handle (some t) none db = (db, 400)
on_path handle none id db = (db, 400)

unfoldable pub approve_proposal : Faults → Option Text → ℕ → Text → Text → Db → Db × ℕ
unfolding approve
approve_proposal f sub now type_path id_path db =
    on_path (approve_kind f (actor_from_context sub) now) (parse_proposal_type type_path)
      (positive (parse_int id_path)) db

unfoldable pub reject_proposal : Faults → Option Text → Text → ℕ → Text → Text → Db → Db × ℕ
unfolding reject
reject_proposal f sub reason now type_path id_path db =
    on_path (reject_kind f (actor_from_context sub) reason now) (parse_proposal_type type_path)
      (positive (parse_int id_path)) db
