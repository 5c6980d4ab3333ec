-- ===== src/Throttle/History.antt =====
-- Histories of calls on one throttler, each at its time.
use alluredeck.Prelude.{
  ℕ, ◌≤◌, ◌≡◌, refl, ap, inl, inr, Option, none, some, List, [], ◌∷◌, ◌++◌, arith, Text,
  text_discrete, text_eq, Bool-cases, if◌then◌else◌,
}
use alluredeck.Prelude.Maps.{lookup, insert, delete}
use alluredeck.Throttle.{
  Entry, Throttler, Verdict, normalise_username, check, counted, punished, failure_verdict,
  record_failure, record_success, cleanup, new_throttler, clean,
}
use alluredeck.Throttle.Sweep.{
  Bisim, Bisim-later, Bisim-sweep, Bisim-insert, Bisim-delete, Alike-check, Alike-counted, IsPast,
  with_entries, same,
}

pub data Call : Type 0 where
  checks : Text → Call
  fails : Text → Call
  succeeds : Text → Call
  sweeps : Call

-- The throttler after a call, and the answers that its caller got.
unfoldable pub step : Throttler → ℕ → Call → Throttler × List Verdict
step t now (checks u) = (t, check t now u ∷ [])
step t now (fails u) = let (t', v) = record_failure t now u in (t', v ∷ [])
step t now (succeeds u) = (record_success t u, [])
step t now sweeps = (cleanup t now, [])

unfoldable pub answers : Throttler → List (ℕ × Call) → List Verdict
answers t [] = []
answers t ((now, c) ∷ cs) = let (t', vs) = step t now c in vs ++ answers t' cs

abbrev pub without_sweeps : List (ℕ × Call) → List (ℕ × Call)
without_sweeps [] = []
without_sweeps ((now, checks u) ∷ cs) = (now, checks u) ∷ without_sweeps cs
without_sweeps ((now, fails u) ∷ cs) = (now, fails u) ∷ without_sweeps cs
without_sweeps ((now, succeeds u) ∷ cs) = (now, succeeds u) ∷ without_sweeps cs
without_sweeps ((now, sweeps) ∷ cs) = without_sweeps cs

-- The clock does not run backwards.
abbrev pub Ascending : ℕ → List (ℕ × Call) → Type 0
Ascending now [] = Unit
Ascending now ((at, _) ∷ cs) = (now ≤ at) × Ascending at cs

counted-IsPast :
    (t : Throttler) (now : ℕ) (o : Option Entry)
    → IsPast now o
    → IsPast now (some (punished t now (counted t now o)))
unfolding punished counted
counted-IsPast t now none p = ground arith
counted-IsPast t now (some e) p = ground arith

module _ (t : Throttler) (now : ℕ) {m m' : List (Text × Entry)} (b : Bisim t now m m') where
  open b use {alike, past}

  check_alike : (u : Text) → check (with_entries t m) now u ≡ check (with_entries t m') now u
  unfolding check
  check_alike u =
      let k = normalise_username u in
      ap (λ v. if text_eq k [] then clean else v) (Alike-check t now (alike k))

  -- A failure is answered alike, and the stores stay alike.
  failure_alike :
      (u : Text)
      → (n n' : List (Text × Entry)) × (v : Verdict) × (record_failure (with_entries t m) now u
          ≡ (with_entries t n, v))
        × (record_failure (with_entries t m') now u ≡ (with_entries t n', v))
        × Bisim t now n n'
  unfolding record_failure
  failure_alike u =
      let k = normalise_username u in
      let e = punished t now (counted t now (lookup text_discrete k m)) in
      elim (Bool-cases (text_eq k [])) [
        | inl blank ↦ (m, m', clean, rw blank, rw blank, b)
        | inr named ↦ (
          insert text_discrete k e m,
          insert text_discrete k e m',
          failure_verdict t e,
          rw named,
          rw (named, Alike-counted t now (alike k)),
          Bisim-insert t now b k e (counted-IsPast t now _ (past k)),
        )
      ]

  success_alike :
      (u : Text)
      → (n n' : List (Text × Entry)) × (record_success (with_entries t m) u ≡ with_entries t n)
        × (record_success (with_entries t m') u ≡ with_entries t n')
        × Bisim t now n n'
  unfolding record_success
  success_alike u =
      let k = normalise_username u in
      elim (Bool-cases (text_eq k [])) [
        | inl blank ↦ (m, m', rw blank, rw blank, b)
        | inr named ↦ (
          delete text_discrete k m,
          delete text_discrete k m',
          rw named,
          rw named,
          Bisim-delete t now b k,
        )
      ]

answers_alike :
    (t : Throttler) (now : ℕ) (cs : List (ℕ × Call)) {m m' : List (Text × Entry)}
    → Bisim t now m m'
    → Ascending now cs
    → answers (with_entries t m) cs ≡ answers (with_entries t m') (without_sweeps cs)
unfolding answers step cleanup
answers_alike t now [] b a = refl
answers_alike t now ((at, checks u) ∷ cs) {m' = m'} b a =
    let c = Bisim-later t now b at a.0 in
    rw (check_alike t at c u)
      (ap (◌∷◌ (check (with_entries t m') at u)) (answers_alike t at cs c a.1))
answers_alike t now ((at, fails u) ∷ cs) b a =
    let (n, n', v, left, right, c) = failure_alike t at (Bisim-later t now b at a.0) u in
    rw (left, right) (ap (◌∷◌ v) (answers_alike t at cs c a.1))
answers_alike t now ((at, succeeds u) ∷ cs) b a =
    let (n, n', left, right, c) = success_alike t at (Bisim-later t now b at a.0) u in
    rw (left, right) (answers_alike t at cs c a.1)
answers_alike t now ((at, sweeps) ∷ cs) b a =
    answers_alike t at cs (Bisim-sweep t at (Bisim-later t now b at a.0)) a.1

-- Sweeps are invisible: over any history of calls at ascending times, on a throttler of any policy,
-- `Check` and `RecordFailure` answer exactly as they would had `Cleanup` never run.
pub answers-without_sweeps :
    (window soft lockout duration backoff : ℕ) (cs : List (ℕ × Call))
    → Ascending 0 cs
    → answers (new_throttler window soft lockout duration backoff) cs
      ≡ answers (new_throttler window soft lockout duration backoff) (without_sweeps cs)
unfolding new_throttler lookup
answers-without_sweeps window soft lockout duration backoff cs a =
    answers_alike (new_throttler window soft lockout duration backoff) 0 cs
      (record { alike = λ k. same; past = λ k. tt; distinct = tt }) a
