-- ===== src/Throttle/Sweep.antt =====
-- `Cleanup` cannot be observed: whatever sweeps run in between, the other methods answer alike.
use alluredeck.Prelude.{
  ℕ, ◌+◌, ◌≤◌, ◌<◌, ◌≡◌, refl, inl, inr, Option, none, some, List, arith, Text, text_discrete,
  if_pos, if_neg, Bool-cases,
}
use alluredeck.Prelude.Maps.{
  lookup, insert, delete, retain, Distinct, lookup-insert, lookup-delete, lookup-retain, kept,
  insert-Distinct, delete-Distinct, retain-Distinct,
}
use alluredeck.Throttle.{Entry, Throttler, check_entry, counted, survives}

-- An entry that is neither locked nor within its window counts for nothing.
abbrev pub IsExpired : ℕ → ℕ → Entry → Type 0
IsExpired window now e = (e.locked_until ≤ now) × (window + e.first_failure < now)

-- What two stores hold of one key: the same, or nothing against an expired entry.
pub data Alike (window now : ℕ) : Option Entry → Option Entry → Type 0 where
  same : {o : Option Entry} → Alike window now o o
  swept : {e : Entry} → IsExpired window now e → Alike window now none (some e)

-- An entry's failures are in the order in which they came, and none is to come.
abbrev pub IsPast : ℕ → Option Entry → Type 0
IsPast now none = Unit
IsPast now (some e) = (e.first_failure ≤ e.last_failure) × (e.last_failure ≤ now)

pub IsPast-later : {now later : ℕ} (o : Option Entry) → now ≤ later → IsPast now o → IsPast later o
IsPast-later none h p = tt
IsPast-later (some e) h p = (p.0, omega arith)

Alike-later :
    {window now later : ℕ} {o o' : Option Entry}
    → now ≤ later
    → Alike window now o o'
    → Alike window later o o'
Alike-later h same = same
Alike-later h (swept x) = swept (omega arith)

-- The methods see no difference.
pub Alike-check :
    (t : Throttler) (now : ℕ) {o o' : Option Entry}
    → Alike t.window now o o'
    → check_entry t now o ≡ check_entry t now o'
unfolding check_entry
Alike-check t now same = refl
Alike-check t now (swept x) = ground arith

pub Alike-counted :
    (t : Throttler) (now : ℕ) {o o' : Option Entry}
    → Alike t.window now o o'
    → counted t now o ≡ counted t now o'
unfolding counted
Alike-counted t now same = refl
Alike-counted t now (swept x) = ground arith

abbrev pub with_entries : Throttler → List (Text × Entry) → Throttler
with_entries t m = record t { entries = m }

Alike-kept :
    (t : Throttler) (now : ℕ) {o o' : Option Entry}
    → IsPast now o
    → Alike t.window now o o'
    → Alike t.window now (kept text_discrete (survives t now) o) o'
Alike-kept t now {o = none} p a = a
Alike-kept t now {o = some e} p same = elim (Bool-cases (survives t now e)) [
  | inl stays ↦ rw stays same
  | inr goes ↦ rw goes (swept (ground arith))
]

IsPast-kept :
    (t : Throttler) (now : ℕ) (o : Option Entry)
    → IsPast now o
    → IsPast now (kept text_discrete (survives t now) o)
IsPast-kept t now none p = tt
IsPast-kept t now (some e) p = elim (Bool-cases (survives t now e)) [
  | inl stays ↦ rw stays p
  | inr goes ↦ rw goes tt
]

-- `m` was swept now and then, `m'` never.
pub record Bisim (t : Throttler) (now : ℕ) (m m' : List (Text × Entry)) : Type 0 where
  pub alike : (k : Text) → Alike t.window now (lookup text_discrete k m) (lookup text_discrete k m')
  pub past : (k : Text) → IsPast now (lookup text_discrete k m)
  pub distinct : Distinct text_discrete m

module _ (t : Throttler) (now : ℕ) {m m' : List (Text × Entry)} (b : Bisim t now m m') where
  pub Bisim-later : (later : ℕ) → now ≤ later → Bisim t later m m'
  Bisim-later later h = record {
    alike = λ k. Alike-later h (b.alike k);
    past = λ k. IsPast-later _ h (b.past k);
    distinct = b.distinct;
  }

  pub Bisim-sweep : Bisim t now (retain (survives t now) m) m'
  Bisim-sweep = record {
    alike = λ k.
        rw (lookup-retain text_discrete (survives t now) k m b.distinct)
          (Alike-kept t now (b.past k) (b.alike k));
    past = λ k.
        rw (lookup-retain text_discrete (survives t now) k m b.distinct)
          (IsPast-kept t now _ (b.past k));
    distinct = retain-Distinct text_discrete (survives t now) m b.distinct;
  }

  pub Bisim-insert :
      (k : Text) (e : Entry)
      → IsPast now (some e)
      → Bisim t now (insert text_discrete k e m) (insert text_discrete k e m')
  Bisim-insert k e p = record {
    alike = λ q.
        rw (lookup-insert text_discrete k q e m, lookup-insert text_discrete k q e m')
          (elim (text_discrete k q) [
            | yes hit ↦ rw (if_pos _ hit) (rw (if_pos _ hit) same)
            | no miss ↦ rw (if_neg _ miss) (rw (if_neg _ miss) (b.alike q))
          ]);
    past = λ q. rw (lookup-insert text_discrete k q e m) (elim (text_discrete k q) [
      | yes hit ↦ rw (if_pos _ hit) p
      | no miss ↦ rw (if_neg _ miss) (b.past q)
    ]);
    distinct = insert-Distinct text_discrete k e m b.distinct;
  }

  pub Bisim-delete : (k : Text) → Bisim t now (delete text_discrete k m) (delete text_discrete k m')
  Bisim-delete k = record {
    alike = λ q.
        rw (lookup-delete text_discrete k q m, lookup-delete text_discrete k q m')
          (elim (text_discrete k q) [
            | yes hit ↦ rw (if_pos _ hit) (rw (if_pos _ hit) same)
            | no miss ↦ rw (if_neg _ miss) (rw (if_neg _ miss) (b.alike q))
          ]);
    past = λ q. rw (lookup-delete text_discrete k q m) (elim (text_discrete k q) [
      | yes hit ↦ rw (if_pos _ hit) tt
      | no miss ↦ rw (if_neg _ miss) (b.past q)
    ]);
    distinct = delete-Distinct text_discrete k m b.distinct;
  }
