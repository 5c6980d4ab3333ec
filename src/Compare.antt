-- ===== src/Compare.antt =====
-- The comparison of two builds: CompareBuildsByHistoryID and its helpers of
-- api/internal/store/pg/compare.go on the rows of its query, and BuildLastGoodDiff of
-- api/internal/failure/lastgood.go. A row has an empty status for a build that lacks the test.
pub mod Collapse
pub mod LastGood
pub mod Sample
mod Examples
use alluredeck.Prelude.{
  ℕ, suc, ◌+◌, ◌-◌, Bool, true, false, not, ◌&&◌, ◌||◌, Option, none, some, List, [], ◌∷◌, ◌++◌,
  Text, text_eq, text_discrete, codes, ltb, leb, if◌then◌else◌, length,
}
use alluredeck.Prelude.Ints.{ℤ, pos, negsuc}
use alluredeck.Prelude.Maps.{lookup, insert}

pub data DiffCategory : Type 0 where
  regressed fixed added removed : DiffCategory

pub record Row : Type 0 where
  pub test_name : Text
  pub full_name : Text
  pub history_id : Text
  pub status_a : Text
  pub status_b : Text
  pub duration_a : ℤ
  pub duration_b : ℤ

pub record DiffEntry : Type 0 where
  pub row : Row
  pub category : DiffCategory

unfoldable pub is_failure : Text → Bool
is_failure status = text_eq status (codes "failed") || text_eq status (codes "broken")

-- `none` for a test that has not changed.
unfoldable pub classify_diff : Text → Text → Option DiffCategory
classify_diff a b =
    if text_eq a []
    then some added
    else (if text_eq b []
        then some removed
        else (if text_eq a (codes "passed") && is_failure b
            then some regressed
            else (if is_failure a && text_eq b (codes "passed") then some fixed else none)))

abbrev pub with_category : Option DiffCategory → Row → List DiffEntry → List DiffEntry
with_category none r es = es
with_category (some c) r es = record { row = r; category = c } ∷ es

unfoldable pub classify_rows : List Row → List DiffEntry
classify_rows [] = []
classify_rows (r ∷ rs) = with_category (classify_diff r.status_a r.status_b) r (classify_rows rs)

-- The full name and the test name.
abbrev pub Key : Type 0
Key = Text × Text

unfoldable pub key_discrete : Discrete Key
key_discrete = hlevel text_discrete

abbrev pub key_of : DiffEntry → Key
key_of e = (e.row.full_name, e.row.test_name)

abbrev pub is_both : DiffEntry → Bool
is_both e = not (text_eq e.row.status_a []) && not (text_eq e.row.status_b [])

-- Whether the entry takes the place of the one under its key.
abbrev pub supersedes : DiffEntry → Option DiffEntry → Bool
supersedes e none = true
supersedes e (some old) = is_both e && not (is_both old)

-- The map `seen`, whose keys stand in the order in which they first came, as those of `order` do.
abbrev pub Seen : Type 0
Seen = List (Key × DiffEntry)

unfoldable pub see : DiffEntry → Seen → Seen
see e seen =
    if supersedes e (lookup key_discrete (key_of e) seen)
    then insert key_discrete (key_of e) e seen
    else seen

unfoldable pub see_all : List DiffEntry → Seen → Seen
unfolding see
see_all [] seen = seen
see_all (e ∷ es) seen = see_all es (see e seen)

abbrev pub values : Seen → List DiffEntry
values [] = []
values ((k, e) ∷ seen) = e ∷ values seen

unfoldable pub collapse_by_full_name : List DiffEntry → List DiffEntry
unfolding see_all
collapse_by_full_name es = values (see_all es [])

unfoldable pub compare_builds_by_history_id : List Row → List DiffEntry
unfolding classify_rows collapse_by_full_name
compare_builds_by_history_id rows = collapse_by_full_name (classify_rows rows)

abbrev pub minus : ℤ → ℤ → ℤ
minus (pos m) (pos n) = if leb n m then pos (m - n) else negsuc (n - m - 1)
minus (pos m) (negsuc n) = pos (m + n + 1)
minus (negsuc m) (pos n) = negsuc (m + n)
minus (negsuc m) (negsuc n) = if leb m n then pos (n - m) else negsuc (m - n - 1)

pub record DiffView : Type 0 where
  pub history_id : Text
  pub full_name : Text
  pub status_from : Text
  pub status_to : Text
  pub duration_delta : ℤ

abbrev pub no_view : DiffView
no_view = record {
  history_id = [];
  full_name = [];
  status_from = [];
  status_to = [];
  duration_delta = pos 0;
}

pub record LastGoodDiff : Type 0 where
  pub from_build_id : ℕ
  pub to_build_id : ℕ
  pub this_test : DiffView
  pub regressed_count : ℕ
  pub fixed_count : ℕ
  pub added_count : ℕ
  pub sample_regressed : List DiffView

abbrev pub diff_entry_to_view : DiffEntry → DiffView
diff_entry_to_view e = record {
  history_id = e.row.history_id;
  full_name = e.row.full_name;
  status_from = e.row.status_a;
  status_to = e.row.status_b;
  duration_delta = minus e.row.duration_b e.row.duration_a;
}

abbrev pub last_good_sample_cap : ℕ
last_good_sample_cap = 10

abbrev pub is_this : Text → DiffEntry → Bool
is_this this e = text_eq e.row.history_id this

unfoldable pub note_this : Text → DiffEntry → DiffView → DiffView
note_this this e v = if is_this this e then diff_entry_to_view e else v

unfoldable pub note_sample : Text → DiffEntry → List DiffView → List DiffView
note_sample this e vs =
    if not (is_this this e) && ltb (length vs) last_good_sample_cap
    then vs ++ (diff_entry_to_view e ∷ [])
    else vs

-- The switch on the category.
abbrev pub count_category : DiffCategory → Text → DiffEntry → LastGoodDiff → LastGoodDiff
count_category regressed this e out = record out {
  regressed_count = out.regressed_count + 1;
  sample_regressed = note_sample this e out.sample_regressed;
}
count_category fixed this e out = record out { fixed_count = out.fixed_count + 1 }
count_category added this e out = record out { added_count = out.added_count + 1 }
count_category removed this e out = out

unfoldable pub note_entry : Text → DiffEntry → LastGoodDiff → LastGoodDiff
unfolding note_this note_sample
note_entry this e out =
    count_category e.category this e (record out { this_test = note_this this e out.this_test })

unfoldable pub note_entries : Text → List DiffEntry → LastGoodDiff → LastGoodDiff
unfolding note_entry
note_entries this [] out = out
note_entries this (e ∷ es) out = note_entries this es (note_entry this e out)

unfoldable pub build_last_good_diff : List DiffEntry → Text → ℕ → ℕ → LastGoodDiff
unfolding note_entries
build_last_good_diff diffs this from_build_id to_build_id = note_entries this diffs (record {
  from_build_id = from_build_id;
  to_build_id = to_build_id;
  this_test = no_view;
  regressed_count = 0;
  fixed_count = 0;
  added_count = 0;
  sample_regressed = [];
})
