-- ===== src/Compare/Collapse.antt =====
-- Which entry stands for a test that a comparison has more than once.
use alluredeck.Prelude.{
  ◌≡◌, ◌≢◌, refl, sym, ◌∙◌, ap, subst, inl, inr, Bool, true, Option, none, some, List, [], ◌∷◌,
  arith, ite, if_pos, if_neg, if◌then◌else◌, Bool-cases,
}
use alluredeck.Prelude.Maps.{
  lookup, insert, Distinct, insert-Distinct, lookup-insert_self, lookup-insert_ne,
}
use alluredeck.Compare.{
  DiffEntry, Key, key_of, key_discrete, is_both, supersedes, Seen, see, see_all, values,
  collapse_by_full_name,
}

-- The first entry under the key that passes the test.
abbrev pub first_where : (DiffEntry → Bool) → Key → List DiffEntry → Option DiffEntry
first_where p k [] = none
first_where p k (e ∷ es) =
    let rest = first_where p k es in
    ite (key_discrete (key_of e) k) (if p e then some e else rest) rest

abbrev pub or_else : Option DiffEntry → Option DiffEntry → Option DiffEntry
or_else none y = y
or_else (some e) y = some e

abbrev pub first_both : Key → List DiffEntry → Option DiffEntry
first_both = first_where is_both

-- The first entry with both statuses, or the first one if there is none.
abbrev pub chosen : Key → List DiffEntry → Option DiffEntry
chosen k es = or_else (first_both k es) (first_where (λ e. true) k es)

-- What is found in the end under a key that is taken.
abbrev settled : Key → Option DiffEntry → List DiffEntry → Option DiffEntry
settled k none es = chosen k es
settled k (some old) es = if is_both old then some old else or_else (first_both k es) (some old)

-- Under another key nothing changes.
lookup-see_other :
    (k : Key) (e : DiffEntry) (seen : Seen)
    → key_of e ≢ k
    → lookup key_discrete k (see e seen) ≡ lookup key_discrete k seen
unfolding see
lookup-see_other k e seen other =
    elim (Bool-cases (supersedes e (lookup key_discrete (key_of e) seen))) [
      | inl wins ↦ rw wins (lookup-insert_ne key_discrete (key_of e) k e seen other)
      | inr stays ↦ rw stays refl
    ]

lookup-see_same :
    (e : DiffEntry) (seen : Seen)
    → lookup key_discrete (key_of e) (see e seen) ≡ (
        if supersedes e (lookup key_discrete (key_of e) seen)
        then some e
        else lookup key_discrete (key_of e) seen)
unfolding see
lookup-see_same e seen = elim (Bool-cases (supersedes e (lookup key_discrete (key_of e) seen))) [
  | inl wins ↦ rw wins (lookup-insert_self key_discrete (key_of e) e seen)
  | inr stays ↦ rw stays refl
]

first_where_same :
    (p : DiffEntry → Bool) (e : DiffEntry) (es : List DiffEntry)
    → first_where p (key_of e) (e ∷ es) ≡ (if p e then some e else first_where p (key_of e) es)
first_where_same p e es = if_pos (key_discrete (key_of e) (key_of e)) refl _ _

first_where_other :
    (p : DiffEntry → Bool) (k : Key) (e : DiffEntry) (es : List DiffEntry)
    → key_of e ≢ k
    → first_where p k (e ∷ es) ≡ first_where p k es
first_where_other p k e es other = if_neg (key_discrete (key_of e) k) other _ _

or_else-some :
    (x : Option DiffEntry) (e : DiffEntry) (y : Option DiffEntry)
    → x ≡ some e
    → or_else x y ≡ some e
or_else-some none e y h = absurd (cc)
or_else-some (some d) e y h = h

settled-same :
    (e : DiffEntry) (es : List DiffEntry) (o : Option DiffEntry)
    → settled (key_of e) (if supersedes e o then some e else o) es ≡ settled (key_of e) o (e ∷ es)
settled-same e es none =
    let both = first_where_same is_both e es in
    let any' = first_where_same (λ d. true) e es in
    elim (Bool-cases (is_both e)) [ inl full ↦ cc (both, full) | inr half ↦ cc (both, any', half) ]
settled-same e es (some old) =
    let both = first_where_same is_both e es in
    elim (Bool-cases (is_both old)) [
      | inl kept ↦ elim (Bool-cases (is_both e)) [
        | inl full ↦ cc (kept, full)
        | inr half ↦ cc (kept, half)
      ]
      | inr lost ↦ elim (Bool-cases (is_both e)) [
        | inl full ↦ cc (both, lost, full)
        | inr half ↦ cc (both, lost, half)
      ]
    ]

settled-other :
    (k : Key) (e : DiffEntry) (es : List DiffEntry) (o : Option DiffEntry)
    → key_of e ≢ k
    → settled k o es ≡ settled k o (e ∷ es)
settled-other k e es none other =
    cc (first_where_other is_both k e es other, first_where_other (λ d. true) k e es other)
settled-other k e es (some old) other = cc (first_where_other is_both k e es other)

settled-nil : (k : Key) (o : Option DiffEntry) → o ≡ settled k o []
settled-nil k none = refl
settled-nil k (some old) = ground arith

lookup-see_all :
    (k : Key) (es : List DiffEntry) (seen : Seen)
    → lookup key_discrete k (see_all es seen) ≡ settled k (lookup key_discrete k seen) es
unfolding see_all
lookup-see_all k [] seen = settled-nil k (lookup key_discrete k seen)
lookup-see_all k (e ∷ es) seen = elim (key_discrete (key_of e) k) [
  | yes same ↦
      subst
        (λ j.
          lookup key_discrete j (see_all es (see e seen))
          ≡ settled j (lookup key_discrete j seen) (e ∷ es))
        same
        (lookup-see_all (key_of e) es (see e seen)
          ∙ ap (λ o. settled (key_of e) o es) (lookup-see_same e seen)
          ∙ settled-same e es (lookup key_discrete (key_of e) seen))
  | no other ↦
      lookup-see_all k es (see e seen)
      ∙ ap (λ o. settled k o es) (lookup-see_other k e seen other)
      ∙ settled-other k e es (lookup key_discrete k seen) other
]

-- Each entry stands under its own key.
abbrev IsKeyed : Seen → Type 0
IsKeyed [] = Unit
IsKeyed ((k, e) ∷ seen) = (key_of e ≡ k) × IsKeyed seen

insert-IsKeyed :
    (e : DiffEntry) (seen : Seen) → IsKeyed seen → IsKeyed (insert key_discrete (key_of e) e seen)
unfolding insert
insert-IsKeyed e [] h = (refl, tt)
insert-IsKeyed e ((j, w) ∷ seen) h =
    elim (key_discrete j (key_of e))
      as (λ (d : Dec (j ≡ key_of e)).
        IsKeyed (ite d ((j, e) ∷ seen) ((j, w) ∷ insert key_discrete (key_of e) e seen))) [
          | yes same ↦ (sym same, h.1)
          | no other ↦ (h.0, insert-IsKeyed e seen h.1)
        ]

record IsMap (seen : Seen) : Type 0 where
  keyed : IsKeyed seen
  distinct : Distinct key_discrete seen

see-IsMap : (e : DiffEntry) (seen : Seen) → IsMap seen → IsMap (see e seen)
unfolding see
see-IsMap e seen h = elim (Bool-cases (supersedes e (lookup key_discrete (key_of e) seen))) [
  | inl wins ↦ rw wins (record {
    keyed = insert-IsKeyed e seen h.keyed;
    distinct = insert-Distinct key_discrete (key_of e) e seen h.distinct;
  })
  | inr stays ↦ rw stays h
]

see_all-IsMap : (es : List DiffEntry) (seen : Seen) → IsMap seen → IsMap (see_all es seen)
unfolding see_all
see_all-IsMap [] seen h = h
see_all-IsMap (e ∷ es) seen h = see_all-IsMap es (see e seen) (see-IsMap e seen h)

abbrev pub first_at : Key → List DiffEntry → Option DiffEntry
first_at = first_where (λ e. true)

first_at-values :
    (k : Key) (seen : Seen) → IsKeyed seen → first_at k (values seen) ≡ lookup key_discrete k seen
unfolding lookup
first_at-values k [] h = refl
first_at-values k ((j, e) ∷ seen) h =
    ap (λ i. ite (key_discrete i k) (some e) (first_at k (values seen))) h.0
    ∙ ap (ite (key_discrete j k) (some e)) (first_at-values k seen h.1)

-- No key stands twice.
abbrev pub IsOnce : List DiffEntry → Type 0
IsOnce [] = Unit
IsOnce (e ∷ es) = (first_at (key_of e) es ≡ none) × IsOnce es

values-IsOnce : (seen : Seen) → IsKeyed seen → Distinct key_discrete seen → IsOnce (values seen)
values-IsOnce [] h d = tt
values-IsOnce ((j, e) ∷ seen) h d = (
  ap (λ k. first_at k (values seen)) h.0 ∙ first_at-values j seen h.1 ∙ d.0,
  values-IsOnce seen h.1 d.1,
)

-- What is left of a comparison: no two entries have the same full name and test name, and under each
-- such pair stands the first of its entries that has both statuses, or the first of them where none
-- has both, or none where there is none.
pub collapse_by_full_name-chosen :
    (es : List DiffEntry)
    → IsOnce (collapse_by_full_name es)
      × ((k : Key) → first_at k (collapse_by_full_name es) ≡ chosen k es)
unfolding collapse_by_full_name lookup
collapse_by_full_name-chosen es =
    let m = see_all-IsMap es [] (record { keyed = tt; distinct = tt }) in
    (
      values-IsOnce (see_all es []) m.keyed m.distinct,
      λ k. first_at-values k (see_all es []) m.keyed ∙ lookup-see_all k es [],
    )
