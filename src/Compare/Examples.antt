-- ===== src/Compare/Examples.antt =====
-- Comparisons at concrete inputs.
use alluredeck.Prelude.{◌≡◌, refl, List, [], ◌∷◌, Text, codes, text_discrete}
use alluredeck.Prelude.Ints.{pos, negsuc}
use alluredeck.Prelude.Maps.{lookup, insert}
use alluredeck.Compare.{
  regressed, added, Row, DiffEntry, Key, key_discrete, see, see_all, is_failure, classify_diff,
  classify_rows, collapse_by_full_name, compare_builds_by_history_id, build_last_good_diff,
  note_entries, note_entry, note_this, note_sample,
}
use alluredeck.Compare.Collapse.{IsOnce, first_at, chosen, collapse_by_full_name-chosen}
use alluredeck.Compare.Sample.{IsRegression, build_last_good_diff-IsRegression}
use alluredeck.Prelude.{All}

abbrev row : Text → Text → Text → Text → Row
row name id a b = record {
  test_name = name;
  full_name = name;
  history_id = id;
  status_a = a;
  status_b = b;
  duration_a = pos 30;
  duration_b = pos 10;
}

abbrev passed : Text
passed = codes "passed"

abbrev failed : Text
failed = codes "failed"

-- The second row is the first test under another history id.
abbrev rows : List Row
rows =
    row (codes "login") (codes "id-1") [] failed
    ∷ row (codes "login") (codes "id-2") passed failed
    ∷ row (codes "logout") (codes "id-3") passed (codes "broken")
    ∷ row (codes "search") (codes "id-4") passed passed
    ∷ []

abbrev first_come : List DiffEntry
first_come =
    record { row = row (codes "login") (codes "id-1") [] failed; category = added }
    ∷ record { row = row (codes "login") (codes "id-2") passed failed; category = regressed }
    ∷ record {
      row = row (codes "logout") (codes "id-3") passed (codes "broken");
      category = regressed;
    }
    ∷ []

abbrev kept : List DiffEntry
kept =
    record { row = row (codes "login") (codes "id-2") passed failed; category = regressed }
    ∷ record {
      row = row (codes "logout") (codes "id-3") passed (codes "broken");
      category = regressed;
    }
    ∷ []

compare_runs : compare_builds_by_history_id rows ≡ kept
unfolding compare_builds_by_history_id classify_rows classify_diff is_failure collapse_by_full_name
    see_all see lookup insert key_discrete text_discrete
compare_runs = refl

collapse_by_full_name-chosen_example :
    IsOnce (collapse_by_full_name first_come)
    × ((k : Key) → first_at k (collapse_by_full_name first_come) ≡ chosen k first_come)
collapse_by_full_name-chosen_example = collapse_by_full_name-chosen first_come

summary_runs :
    (build_last_good_diff kept (codes "id-2") 3 7).sample_regressed
    ≡ record {
      history_id = codes "id-3";
      full_name = codes "logout";
      status_from = passed;
      status_to = codes "broken";
      duration_delta = negsuc 19;
    }
      ∷ []
unfolding build_last_good_diff note_entries note_entry note_this note_sample text_discrete
summary_runs = refl

build_last_good_diff-IsRegression_example :
    All IsRegression
      (build_last_good_diff (compare_builds_by_history_id rows) (codes "id-2") 3 7).sample_regressed
build_last_good_diff-IsRegression_example =
    build_last_good_diff-IsRegression rows (codes "id-2") 3 7
