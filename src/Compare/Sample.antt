-- ===== src/Compare/Sample.antt =====
-- What the sample of a comparison of two builds shows.
use alluredeck.Prelude.{
  ℕ, zero, suc, ◌≡◌, refl, sym, ◌∙◌, ap, subst, inl, inr, Bool, true, false, ◌&&◌, Option, some,
  none, List, [], ◌∷◌, arith, Text, text_eq_iff, codes, ite, All, Bool-cases, take,
}
use alluredeck.Prelude.Maps.{lookup, insert}
use alluredeck.Compare.{
  DiffCategory, regressed, fixed, added, removed, Row, DiffEntry, DiffView, is_failure,
  classify_diff, with_category, classify_rows, Key, key_of, key_discrete, supersedes, Seen, see,
  see_all, values, collapse_by_full_name, compare_builds_by_history_id, build_last_good_diff,
  diff_entry_to_view,
}
use alluredeck.Compare.LastGood.{
  such, views, says_regressed, is_co_regressed, build_last_good_diff-IsSummary,
}

-- The category is that of the two statuses.
abbrev pub IsClassified : DiffEntry → Type 0
IsClassified e = classify_diff e.row.status_a e.row.status_b ≡ some e.category

with_category-IsClassified :
    (o : Option DiffCategory) (r : Row) (es : List DiffEntry)
    → classify_diff r.status_a r.status_b ≡ o
    → All IsClassified es
    → All IsClassified (with_category o r es)
with_category-IsClassified none r es h hs = hs
with_category-IsClassified (some c) r es h hs = (h, hs)

classify_rows-IsClassified : (rows : List Row) → All IsClassified (classify_rows rows)
unfolding classify_rows
classify_rows-IsClassified [] = tt
classify_rows-IsClassified (r ∷ rows) =
    with_category-IsClassified (classify_diff r.status_a r.status_b) r (classify_rows rows) refl
      (classify_rows-IsClassified rows)

insert-IsClassified :
    (k : Key) (e : DiffEntry) (seen : Seen)
    → IsClassified e
    → All IsClassified (values seen)
    → All IsClassified (values (insert key_discrete k e seen))
unfolding insert
insert-IsClassified k e [] h hs = (h, tt)
insert-IsClassified k e ((j, w) ∷ seen) h hs =
    elim (key_discrete j k)
      as (λ (d : Dec (j ≡ k)).
        All IsClassified (values (ite d ((j, e) ∷ seen) ((j, w) ∷ insert key_discrete k e seen)))) [
          | yes same ↦ (h, hs.1)
          | no other ↦ (hs.0, insert-IsClassified k e seen h hs.1)
        ]

see-IsClassified :
    (e : DiffEntry) (seen : Seen)
    → IsClassified e
    → All IsClassified (values seen)
    → All IsClassified (values (see e seen))
unfolding see
see-IsClassified e seen h hs =
    elim (Bool-cases (supersedes e (lookup key_discrete (key_of e) seen))) [
      | inl wins ↦ rw wins (insert-IsClassified (key_of e) e seen h hs)
      | inr stays ↦ rw stays hs
    ]

see_all-IsClassified :
    (es : List DiffEntry) (seen : Seen)
    → All IsClassified es
    → All IsClassified (values seen)
    → All IsClassified (values (see_all es seen))
unfolding see_all
see_all-IsClassified [] seen h hs = hs
see_all-IsClassified (e ∷ es) seen h hs =
    see_all-IsClassified es (see e seen) h.1 (see-IsClassified e seen h.0 hs)

-- From a pass to a failure.
abbrev pub IsRegression : DiffView → Type 0
IsRegression v = (v.status_from ≡ codes "passed") × (is_failure v.status_to ≡ true)

classify_diff-regressed :
    (a b : Text) → classify_diff a b ≡ some regressed → (a ≡ codes "passed") × (is_failure b ≡ true)
unfolding classify_diff
classify_diff-regressed a b h = ground (arith, h, text_eq_iff a (codes "passed"))

co_regressed-IsRegression :
    (this : Text) (e : DiffEntry)
    → IsClassified e
    → is_co_regressed this e ≡ true
    → IsRegression (diff_entry_to_view e)
co_regressed-IsRegression this e h t =
    classify_diff-regressed e.row.status_a e.row.status_b
      (h ∙ ap some (only e.category (first_true (says_regressed e.category) _ t)))
  where
    only : (c : DiffCategory) → says_regressed c ≡ true → c ≡ regressed
    only regressed t = refl
    only fixed t = absurd (cc)
    only added t = absurd (cc)
    only removed t = absurd (cc)

    first_true : (x y : Bool) → (x && y) ≡ true → x ≡ true
    first_true true y t = refl
    first_true false y t = absurd (cc)

such-IsRegression :
    (this : Text) (es : List DiffEntry)
    → All IsClassified es
    → All IsRegression (views (such (is_co_regressed this) es))
such-IsRegression this [] h = tt
such-IsRegression this (e ∷ es) h = elim (Bool-cases (is_co_regressed this e)) [
  | inl in_it ↦ rw in_it (co_regressed-IsRegression this e h.0 in_it, such-IsRegression this es h.1)
  | inr out_of_it ↦ rw out_of_it (such-IsRegression this es h.1)
]

take-All : (n : ℕ) (vs : List DiffView) → All IsRegression vs → All IsRegression (take n vs)
take-All zero vs h = tt
take-All (suc n) [] h = tt
take-All (suc n) (v ∷ vs) h = (h.0, take-All n vs h.1)

-- Every test that the summary of two builds shows as a sample passed in the first and failed, or was
-- broken, in the second.
pub build_last_good_diff-IsRegression :
    (rows : List Row) (this : Text) (from_id to_id : ℕ)
    → All IsRegression
        (build_last_good_diff
          (compare_builds_by_history_id rows)
          this
          from_id
          to_id).sample_regressed
unfolding compare_builds_by_history_id collapse_by_full_name
build_last_good_diff-IsRegression rows this from_id to_id =
    let es = compare_builds_by_history_id rows in
    subst (All IsRegression) (sym (build_last_good_diff-IsSummary es this from_id to_id).sample) (
      take-All 10 _ (
        such-IsRegression this es
          (see_all-IsClassified (classify_rows rows) [] (classify_rows-IsClassified rows) tt)))
