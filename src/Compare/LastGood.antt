-- ===== src/Compare/LastGood.antt =====
-- What the summary of a comparison says of its entries.
use alluredeck.Prelude.{
  ℕ, zero, suc, ◌+◌, ◌-◌, ◌≤◌, ◌<◌, ◌≡◌, refl, sym, ◌∙◌, ap, inl, inr, Bool, true, false, not, ◌&&◌,
  List, [], ◌∷◌, ◌++◌, arith, Text, ltb, if◌then◌else◌, Bool-cases, length, length-append, take,
  map,
}
use mathlib.Core.List.{append_assoc, append-nil}
use alluredeck.Compare.{
  DiffCategory, regressed, fixed, added, removed, DiffEntry, DiffView, LastGoodDiff, no_view,
  diff_entry_to_view, is_this, last_good_sample_cap, note_this, note_sample, count_category,
  note_entry, note_entries, build_last_good_diff,
}

-- The entries that pass a test, in order.
abbrev pub such : (DiffEntry → Bool) → List DiffEntry → List DiffEntry
such p [] = []
such p (e ∷ es) = let rest = such p es in if p e then e ∷ rest else rest

abbrev pub says_regressed : DiffCategory → Bool
says_regressed regressed = true
says_regressed _ = false

abbrev pub is_regressed : DiffEntry → Bool
is_regressed e = says_regressed e.category

abbrev says_fixed : DiffCategory → Bool
says_fixed fixed = true
says_fixed _ = false

abbrev pub is_fixed : DiffEntry → Bool
is_fixed e = says_fixed e.category

abbrev says_added : DiffCategory → Bool
says_added added = true
says_added _ = false

abbrev pub is_added : DiffEntry → Bool
is_added e = says_added e.category

abbrev pub is_co_regressed : Text → DiffEntry → Bool
is_co_regressed this e = is_regressed e && not (is_this this e)

abbrev pub views : List DiffEntry → List DiffView
views = map diff_entry_to_view

abbrev pub last_or : DiffView → List DiffView → DiffView
last_or v [] = v
last_or v (w ∷ vs) = last_or w vs

-- What the entries add to a summary.
record IsAdded (this : Text) (es : List DiffEntry) (from out : LastGoodDiff) : Type 0 where
  builds : (out.from_build_id ≡ from.from_build_id) × (out.to_build_id ≡ from.to_build_id)
  this_test : out.this_test ≡ last_or from.this_test (views (such (is_this this) es))
  regressions : out.regressed_count ≡ from.regressed_count + length (such is_regressed es)
  fixes : out.fixed_count ≡ from.fixed_count + length (such is_fixed es)
  additions : out.added_count ≡ from.added_count + length (such is_added es)
  sample :
      out.sample_regressed
      ≡ from.sample_regressed
        ++ take
            (last_good_sample_cap - length from.sample_regressed)
            (views (such (is_co_regressed this) es))

note_this-last :
    (this : Text) (e : DiffEntry) (es : List DiffEntry) (v : DiffView)
    → last_or (note_this this e v) (views (such (is_this this) es))
      ≡ last_or v (views (such (is_this this) (e ∷ es)))
unfolding note_this
note_this-last this e es v = elim (Bool-cases (is_this this e)) [
  | inl same ↦ rw same refl
  | inr other ↦ rw other refl
]

take_more :
    (n : ℕ) (v : DiffView) (vs ws : List DiffView)
    → length vs < n
    → take (n - length vs) (v ∷ ws) ≡ v ∷ take (n - length (vs ++ (v ∷ []))) ws
take_more n v vs ws h =
    let e : n - length vs ≡ suc (n - length (vs ++ (v ∷ []))) =
      omega (arith, length-append vs (v ∷ [])) in
    ap (λ k. take k (v ∷ ws)) e

take_none : (n : ℕ) (vs ws : List DiffView) → n ≤ length vs → take (n - length vs) ws ≡ []
take_none n vs ws h = let e : n - length vs ≡ 0 = omega arith in ap (λ k. take k ws) e

abbrev no_views : List DiffView
no_views = []

take_nil : (n : ℕ) → take n no_views ≡ no_views
take_nil zero = refl
take_nil (suc n) = refl

-- One regressed entry.
note_sample-take :
    (this : Text) (e : DiffEntry) (vs : List DiffView) (ws : List DiffView)
    → note_sample this e vs ++ take (last_good_sample_cap - length (note_sample this e vs)) ws
      ≡ vs
        ++ take
            (last_good_sample_cap - length vs)
            (if is_this this e then ws else diff_entry_to_view e ∷ ws)
unfolding note_sample
note_sample-take this e vs ws = elim (Bool-cases (is_this this e)) [
  | inl same ↦ rw same refl
  | inr other ↦ elim (Bool-cases (ltb (length vs) last_good_sample_cap)) [
    | inl room ↦
        rw (other, room)
          (append_assoc vs (diff_entry_to_view e ∷ []) _
            ∙ ap (λ x. vs ++ x)
                (sym (take_more 10 (diff_entry_to_view e) vs ws (ground (arith, room)))))
    | inr full ↦
        let many : 10 ≤ length vs = ground (arith, full) in
        rw (other, full)
          (ap (λ x. vs ++ x)
            (take_none 10 vs ws many ∙ sym (take_none 10 vs (diff_entry_to_view e ∷ ws) many)))
  ]
]

module _ (this : Text) (e : DiffEntry) (es : List DiffEntry) (from out : LastGoodDiff) where
  abbrev seen_this : LastGoodDiff
  seen_this = record from { this_test = note_this this e from.this_test }

  entry-IsAdded :
      (c : DiffCategory)
      → e.category ≡ c
      → IsAdded this es (count_category c this e seen_this) out
      → IsAdded this (e ∷ es) from out
  entry-IsAdded regressed h r = record {
    builds = r.builds;
    this_test = r.this_test ∙ note_this-last this e es from.this_test;
    regressions = r.regressions ∙ rw h (omega arith);
    fixes = r.fixes ∙ rw h refl;
    additions = r.additions ∙ rw h refl;
    sample =
        r.sample
        ∙ note_sample-take this e from.sample_regressed (views (such (is_co_regressed this) es))
        ∙ elim (Bool-cases (is_this this e)) [
          | inl same ↦ rw (h, same) refl
          | inr other ↦ rw (h, other) refl
        ];
  }
  entry-IsAdded fixed h r = record {
    builds = r.builds;
    this_test = r.this_test ∙ note_this-last this e es from.this_test;
    regressions = r.regressions ∙ rw h refl;
    fixes = r.fixes ∙ rw h (omega arith);
    additions = r.additions ∙ rw h refl;
    sample = r.sample ∙ rw h refl;
  }
  entry-IsAdded added h r = record {
    builds = r.builds;
    this_test = r.this_test ∙ note_this-last this e es from.this_test;
    regressions = r.regressions ∙ rw h refl;
    fixes = r.fixes ∙ rw h refl;
    additions = r.additions ∙ rw h (omega arith);
    sample = r.sample ∙ rw h refl;
  }
  entry-IsAdded removed h r = record {
    builds = r.builds;
    this_test = r.this_test ∙ note_this-last this e es from.this_test;
    regressions = r.regressions ∙ rw h refl;
    fixes = r.fixes ∙ rw h refl;
    additions = r.additions ∙ rw h refl;
    sample = r.sample ∙ rw h refl;
  }

note_entries-IsAdded :
    (this : Text) (es : List DiffEntry) (from : LastGoodDiff)
    → IsAdded this es from (note_entries this es from)
unfolding note_entries note_entry
note_entries-IsAdded this [] from = record {
  builds = (refl, refl);
  this_test = refl;
  regressions = omega arith;
  fixes = omega arith;
  additions = omega arith;
  sample = sym (
      ap (λ ws. from.sample_regressed ++ ws)
        (take_nil (last_good_sample_cap - length from.sample_regressed))
      ∙ append-nil from.sample_regressed);
}
note_entries-IsAdded this (e ∷ es) from =
    entry-IsAdded this e es from _ e.category refl
      (note_entries-IsAdded this es (note_entry this e from))

-- A summary read off the list of entries.
pub record IsSummary (this : Text) (es : List DiffEntry) (from_id to_id : ℕ) (out : LastGoodDiff)
    : Type 0 where
  pub builds : (out.from_build_id ≡ from_id) × (out.to_build_id ≡ to_id)
  pub this_test : out.this_test ≡ last_or no_view (views (such (is_this this) es))
  pub regressions : out.regressed_count ≡ length (such is_regressed es)
  pub fixes : out.fixed_count ≡ length (such is_fixed es)
  pub additions : out.added_count ≡ length (such is_added es)
  pub sample : out.sample_regressed ≡ take 10 (views (such (is_co_regressed this) es))

-- The summary says of a list of entries, for one test: the view of the last entry that is this test's,
-- an empty view if none is; how many entries have regressed, are fixed and are new; and the views of
-- the first ten that have regressed and are not this test's.
pub build_last_good_diff-IsSummary :
    (diffs : List DiffEntry) (this : Text) (from_id to_id : ℕ)
    → IsSummary this diffs from_id to_id (build_last_good_diff diffs this from_id to_id)
unfolding build_last_good_diff
build_last_good_diff-IsSummary diffs this from_id to_id =
    let r = note_entries-IsAdded this diffs _ in
    record {
      builds = r.builds;
      this_test = r.this_test;
      regressions = omega (arith, r.regressions);
      fixes = omega (arith, r.fixes);
      additions = omega (arith, r.additions);
      sample = r.sample;
    }
