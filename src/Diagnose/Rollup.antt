-- ===== src/Diagnose/Rollup.antt =====
-- When a build verdict is confident, and what a split of the clusters reports.
use alluredeck.Prelude.{
  ℕ, ◌+◌, ◌≡◌, ◌≢◌, refl, inl, inr, ◌↔◌, Bool, true, false, Option, none, some, List, [], ◌∷◌,
  arith, if◌then◌else◌, Bool-cases, All, is_yes, is_yes-true, is_yes-false, subst,
}
use alluredeck.Diagnose.{
  VerdictValue, VerdictValue-discrete, Confidence, high, medium, low, DiagnoseCluster, BuildVerdict,
  ClusterVerdict,
}
use alluredeck.Diagnose.Build.{bump, tally, when_two, split_of, cap_confidence, roll_up, note_split}

abbrev pub Says : VerdictValue → ClusterVerdict → Type 0
Says value v = v.verdict ≡ value

-- How often a value is listed in the counts, and how many clusters have it.
unfoldable pub listed : VerdictValue → List (VerdictValue × ℕ) → ℕ
listed value [] = 0
listed value ((w, n) ∷ rest) =
    let below = listed value rest in
    if is_yes (VerdictValue-discrete w value) then n + below else below

unfoldable pub count_value : VerdictValue → List ClusterVerdict → ℕ
count_value value [] = 0
count_value value (v ∷ vs) =
    let below = count_value value vs in
    if is_yes (VerdictValue-discrete v.verdict value) then 1 + below else below

abbrev one_if : VerdictValue → VerdictValue → ℕ
one_if v value = if is_yes (VerdictValue-discrete v value) then 1 else 0

listed-bump :
    (value v : VerdictValue) (counts : List (VerdictValue × ℕ))
    → listed value (bump v counts) ≡ listed value counts + one_if v value
unfolding listed bump
listed-bump value v [] = ground arith
listed-bump value v ((w, n) ∷ rest) = ground (arith, listed-bump value v rest)

listed-tally :
    (value : VerdictValue) (counts : List (VerdictValue × ℕ)) (vs : List ClusterVerdict)
    → listed value (tally counts vs) ≡ listed value counts + count_value value vs
unfolding tally count_value
listed-tally value counts [] = omega arith
listed-tally value counts (v ∷ vs) =
    ground
      (arith, listed-tally value (bump v.verdict counts) vs, listed-bump value v.verdict counts)

-- A tally of two values or more stays one.
tally-two :
    (p q : VerdictValue × ℕ) (rest : List (VerdictValue × ℕ)) (vs : List ClusterVerdict)
    → when_two (tally (p ∷ q ∷ rest) vs) ≢ none
unfolding tally bump
tally-two p q rest [] = λ e. absurd (cc)
tally-two p q rest (v ∷ vs) = elim (Bool-cases (is_yes (VerdictValue-discrete v.verdict p.0))) [
  | inl same ↦ rw same (tally-two (p.0, p.1 + 1) q rest vs)
  | inr other ↦ elim (Bool-cases (is_yes (VerdictValue-discrete v.verdict q.0))) [
    | inl same ↦ rw (other, same) (tally-two p (q.0, q.1 + 1) rest vs)
    | inr others ↦ rw (other, others) (tally-two p q (bump v.verdict rest) vs)
  ]
]

tally-one :
    (value : VerdictValue) (n : ℕ) (vs : List ClusterVerdict)
    → when_two (tally ((value, n) ∷ []) vs) ≡ none ↔ All (Says value) vs
unfolding tally bump
tally-one value n [] = (λ h. tt, λ h. refl)
tally-one value n (v ∷ vs) = elim (Bool-cases (is_yes (VerdictValue-discrete v.verdict value))) [
  | inl same ↦
      let (only, all) = tally-one value (n + 1) vs in
      rw same
        (λ h. (is_yes-true (VerdictValue-discrete v.verdict value) same, only h), λ a. all a.1)
  | inr other ↦ rw other (
    λ h. absurd (tally-two (value, n) (v.verdict, 1) [] vs h),
    λ a. absurd (is_yes-false (VerdictValue-discrete v.verdict value) other a.0),
  )
]

-- No split is reported exactly where every other cluster has the verdict of the first.
split_of-Says :
    (v : ClusterVerdict) (vs : List ClusterVerdict)
    → split_of (v ∷ vs) ≡ none ↔ All (Says v.verdict) vs
unfolding split_of tally bump
split_of-Says v [] = (λ h. tt, λ h. refl)
split_of-Says v (w ∷ vs) = tally-one v.verdict 1 (w ∷ vs)

when_two-some : (counts p : List (VerdictValue × ℕ)) → when_two counts ≡ some p → counts ≡ p
when_two-some [] p h = absurd (cc)
when_two-some (a ∷ []) p h = absurd (cc)
when_two-some (a ∷ b ∷ rest) p h = ground arith

-- The split that is reported lists each value with the number of clusters that have it.
pub split_of-count_value :
    (vs : List ClusterVerdict) (counts : List (VerdictValue × ℕ)) (value : VerdictValue)
    → split_of vs ≡ some counts
    → listed value counts ≡ count_value value vs
unfolding split_of listed
split_of-count_value [] counts value h = absurd (cc)
split_of-count_value (v ∷ []) counts value h = absurd (cc)
split_of-count_value (v ∷ w ∷ vs) counts value h =
    subst (λ (c : List (VerdictValue × ℕ)). listed value c ≡ count_value value (v ∷ w ∷ vs))
      (when_two-some _ counts h) (omega (arith, listed-tally value [] (v ∷ w ∷ vs)))

cap_confidence-high : (c : Confidence) → cap_confidence c ≢ high
cap_confidence-high high e = absurd (cc)
cap_confidence-high medium e = absurd (cc)
cap_confidence-high low e = absurd (cc)

note_split-high :
    (o : Option (List (VerdictValue × ℕ))) (b : BuildVerdict)
    → (note_split o b).confidence ≡ high
    → (o ≡ none) × (b.confidence ≡ high)
note_split-high none b h = (refl, h)
note_split-high (some counts) b h = absurd (cap_confidence-high b.confidence h)

-- A build verdict has high confidence exactly where nothing was truncated, every cluster has the
-- verdict of the dominant one, and that one is certain.
pub roll_up-high :
    (c : DiagnoseCluster) (v : ClusterVerdict) (vs : List ClusterVerdict) (truncated : Bool)
    → (roll_up c v vs truncated).confidence ≡ high
      ↔ (truncated ≡ false) × (v.confidence ≡ high) × All (Says v.verdict) vs
unfolding roll_up
roll_up-high c v vs true = (λ h. absurd (cap_confidence-high _ h), λ h. absurd (cc))
roll_up-high c v vs false = (
  λ h.
      let (unsplit, certain) = note_split-high (split_of (v ∷ vs)) _ h in
      (refl, certain, (split_of-Says v vs).0 unsplit),
  λ h. let (whole, certain, same) = h in rw ((split_of-Says v vs).1 same) certain,
)
