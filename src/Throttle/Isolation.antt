-- ===== src/Throttle/Isolation.antt =====
-- Whose counter a call touches.
use alluredeck.Prelude.{
  ℕ, ◌-◌, ◌<◌, ◌≡◌, ◌≢◌, refl, inl, inr, ◌∙◌, true, false, some, List, [], ◌∷◌, arith, Text,
  text_discrete, text_eq, Bool-cases, All,
}
use alluredeck.Prelude.Maps.{
  lookup, lookup-insert, lookup-delete, lookup-insert_ne, lookup-delete_ne,
}
use alluredeck.Prelude.Texts.{to_lower, to_lower_idem, trim_space-to_lower}
use alluredeck.Throttle.{
  Entry, Throttler, normalise_username, check, check_entry, counted, punished, record_failure,
  record_success, clean,
}
use alluredeck.Throttle.History.{Call, checks, fails, succeeds, sweeps, step}

-- Spellings that differ in case share a counter.
pub normalise_username-to_lower :
    (u : Text) → normalise_username (to_lower u) ≡ normalise_username u
unfolding normalise_username
normalise_username-to_lower u = rw (trim_space-to_lower, to_lower_idem)

-- The throttler after a history.
unfoldable pub after : Throttler → List (ℕ × Call) → Throttler
after t [] = t
after t ((now, c) ∷ cs) = after (step t now c).0 cs

-- The call is made for an account other than `v`'s.
abbrev pub Elsewhere : Text → ℕ × Call → Type 0
Elsewhere v (_, checks u) = normalise_username u ≢ normalise_username v
Elsewhere v (_, fails u) = normalise_username u ≢ normalise_username v
Elsewhere v (_, succeeds u) = normalise_username u ≢ normalise_username v
Elsewhere v (_, sweeps) = ⊥

step-Elsewhere :
    (t : Throttler) (c : ℕ × Call) (v : Text) (later : ℕ)
    → Elsewhere v c
    → check (step t c.0 c.1).0 later v ≡ check t later v
unfolding step record_failure record_success check check_entry
step-Elsewhere t (now, checks u) v later far = refl
step-Elsewhere t (now, fails u) v later far =
    let e =
      punished t now (counted t now (lookup text_discrete (normalise_username u) t.entries)) in
    elim (Bool-cases (text_eq (normalise_username u) [])) [
      | inl blank ↦ rw blank
      | inr named ↦ rw (named, lookup-insert_ne text_discrete _ _ e t.entries far)
    ]
step-Elsewhere t (now, succeeds u) v later far =
    elim (Bool-cases (text_eq (normalise_username u) [])) [
      | inl blank ↦ rw blank
      | inr named ↦ rw (named, lookup-delete_ne text_discrete _ _ t.entries far)
    ]
step-Elsewhere t (now, sweeps) v later far = elim far [ ]

-- Whatever happens to other accounts, `Check` answers for this one as if it had not.
pub check-after-Elsewhere :
    (t : Throttler) (cs : List (ℕ × Call)) (v : Text) (later : ℕ)
    → All (Elsewhere v) cs
    → check (after t cs) later v ≡ check t later v
unfolding after
check-after-Elsewhere t [] v later far = refl
check-after-Elsewhere t ((now, c) ∷ cs) v later far =
    check-after-Elsewhere (step t now c).0 cs v later far.1
    ∙ step-Elsewhere t (now, c) v later far.0

-- A success clears the account, however it is spelt and whatever was recorded: no delay, no count
-- and no lock are left at any time.
pub check-record_success :
    (t : Throttler) (u : Text) (later : ℕ) → check (record_success t u) later (to_lower u) ≡ clean
unfolding check check_entry record_success
check-record_success t u later = rw (normalise_username-to_lower u) (
    ground
      (arith, lookup-delete text_discrete (normalise_username u) (normalise_username u) t.entries))

-- A failure recorded for a locked account after its window has run out starts a fresh entry, and so
-- lifts the lock that `Check` still reports, if the threshold is above 1.
pub record_failure_unlocks :
    (t : Throttler) (u : Text) (now : ℕ) (e : Entry)
    → text_eq (normalise_username u) [] ≡ false
    → lookup text_discrete (normalise_username u) t.entries ≡ some e
    → now < e.locked_until
    → t.window < now - e.first_failure
    → 1 < t.lockout_threshold
    → ((check t now u).allowed ≡ false) × ((check (record_failure t now u).0 now u).allowed ≡ true)
unfolding check check_entry record_failure
record_failure_unlocks t u now e named held locked stale above =
    let k = normalise_username u in
    (
      ground arith,
      ground (
        arith,
        lookup-insert text_discrete k k (punished t now (counted t now (some e))) t.entries,
      ),
    )
