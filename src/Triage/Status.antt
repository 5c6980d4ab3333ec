-- ===== src/Triage/Status.antt =====
-- Which status code is picked from a message.
use alluredeck.Prelude.{
  ℕ, ◌≤◌, ◌≡◌, inl, inr, true, false, Option, none, some, List, [], ◌∷◌, arith, Text, Bool-cases,
  if◌then◌else◌, leb, ltb, ◌==◌, ◌||◌, All, text_eq, text_eq_iff, map, ap, refl, ◌↔◌,
}
use alluredeck.Prelude.Ints.{ℤ, pos, negsuc, parse_int}
use alluredeck.Triage.{Matches, code_of, codes_of, scan_codes, extract_status_code}

-- The first code that is at least `floor`.
unfoldable pub first_from : ℕ → List (Option ℕ) → Option ℕ
first_from floor [] = none
first_from floor (none ∷ ms) = first_from floor ms
first_from floor (some c ∷ ms) =
    let rest = first_from floor ms in if leb floor c then some c else rest

abbrev pub or_else : Option ℕ → Option ℕ → Option ℕ
or_else none o = o
or_else (some c) o = some c

-- The preference in words: the first server error, failing that the first client error, failing that
-- the first code.
abbrev pub preferred : List (Option ℕ) → Option ℕ
preferred ms = or_else (first_from 500 ms) (or_else (first_from 400 ms) (first_from 0 ms))

abbrev nonzero : ℕ → Option ℕ
nonzero n = if n == 0 then none else some n

abbrev pub InRange : Option ℕ → Type 0
InRange none = Unit
InRange (some c) = (100 ≤ c) × (c ≤ 599)

range_checked :
    (o : Option ℤ)
    → InRange (elim o [ some (pos n) ↦ if ltb n 100 || ltb 599 n then none else some n | _ ↦ none ])
range_checked none = tt
range_checked (some (negsuc n)) = tt
range_checked (some (pos n)) = elim (Bool-cases (ltb n 100 || ltb 599 n)) [
  | inl out ↦ rw out tt
  | inr within ↦ rw within (ground arith)
]

code_of-InRange : (m : Text × Text) → InRange (code_of m)
unfolding code_of
code_of-InRange (digits, unit) = elim (Bool-cases (text_eq unit [])) [
  | inr timing ↦ rw timing tt
  | inl bare ↦ rw bare (range_checked (parse_int digits))
]

codes_of-InRange : (ms : Matches) → All InRange (codes_of ms)
unfolding codes_of
codes_of-InRange [] = tt
codes_of-InRange (m ∷ ms) = (code_of-InRange m, codes_of-InRange ms)

codes_of-map : (ms : Matches) → map code_of ms ≡ codes_of ms
unfolding codes_of
codes_of-map [] = refl
codes_of-map (m ∷ ms) = ap (λ x. code_of m ∷ x) (codes_of-map ms)

-- The loop from any point on.
scan_codes-from :
    (first client : ℕ) (ms : List (Option ℕ))
    → All InRange ms
    → scan_codes first client ms
      ≡ or_else (first_from 500 ms) (
          or_else
            (nonzero client)
            (or_else (first_from 400 ms) (or_else (nonzero first) (first_from 0 ms))))
unfolding scan_codes first_from
scan_codes-from first client [] r = ground arith
scan_codes-from first client (none ∷ ms) r = scan_codes-from first client ms r.1
scan_codes-from first client (some code ∷ ms) r = ground (
  arith,
  scan_codes-from (if first == 0 then code else first)
      (elim (client == 0) [ true ↦ if leb 400 code then code else client | false ↦ client ]) ms r.1,
)

-- What counts as a status: a match without the unit of a duration, whose digits are a number from
-- 100 to 599.
abbrev pub IsStatus : Text × Text → ℕ → Type 0
IsStatus m c = (m.1 ≡ []) × (parse_int m.0 ≡ some (pos c)) × (100 ≤ c) × (c ≤ 599)

checked-some :
    (o : Option ℤ) (c : ℕ)
    → elim o [ some (pos n) ↦ if ltb n 100 || ltb 599 n then none else some n | _ ↦ none ] ≡ some c
    → (o ≡ some (pos c)) × (100 ≤ c) × (c ≤ 599)
checked-some none c h = absurd (cc)
checked-some (some (negsuc n)) c h = absurd (cc)
checked-some (some (pos n)) c h = elim (Bool-cases (ltb n 100 || ltb 599 n)) [
  | inl out ↦ absurd (cc (rw out at h))
  | inr within ↦
      let e : some n ≡ some c = rw within at h in
      let same : n ≡ c = ground (arith, e) in
      (ap (λ x. some (pos x)) same, ground (arith, same), ground (arith, same))
]

code_of-IsStatus : (m : Text × Text) (c : ℕ) → (code_of m ≡ some c) ↔ IsStatus m c
unfolding code_of
code_of-IsStatus (digits, unit) c = (there, back)
  where
    there : code_of (digits, unit) ≡ some c → IsStatus (digits, unit) c
    there h = elim (Bool-cases (text_eq unit [])) [
      | inr timing ↦ absurd (cc (rw timing at h))
      | inl bare ↦
          let (number, low, high) = checked-some (parse_int digits) c (rw bare at h) in
          ((text_eq_iff unit []).0 bare, number, low, high)
    ]

    back : IsStatus (digits, unit) c → code_of (digits, unit) ≡ some c
    back (bare, number, low, high) = rw ((text_eq_iff unit []).1 bare, number) (ground arith)

-- The single pass with its two variables picks what the preference asks for, over every list of
-- matches: the first server error, else the first client error, else the first code; where a match
-- has the code that its digits say if it has no unit of a duration and they are a number from 100 to
-- 599, and else none.
pub extract_status_code_lem :
    (find_statuses : Text → Matches) (msg : Text)
    → (extract_status_code find_statuses msg ≡ preferred (map code_of (find_statuses msg)))
      × ((m : Text × Text) (c : ℕ) → (code_of m ≡ some c) ↔ IsStatus m c)
unfolding extract_status_code
extract_status_code_lem find_statuses msg = (
  rw (codes_of-map (find_statuses msg))
      (scan_codes-from 0 0 (codes_of (find_statuses msg)) (codes_of-InRange (find_statuses msg))),
  code_of-IsStatus,
)
