-- ===== src/Prelude/Decimal.antt =====
-- `strconv.FormatInt(n, 10)`, and that `ParseInt` reads back what it prints.
use Prim.Native.Nat.{ℕ, zero, suc, ◌+◌, ◌/◌, ◌%◌, ◌^◌, ◌≤◌, ◌<◌}
use mathlib.Core.Path.{◌≡◌, refl, ap}
use mathlib.Core.Logic.{◌≢◌, inl, inr}
use mathlib.Core.Bool.{Bool, true, false}
use mathlib.Core.List.{[], ◌∷◌}
use mathlib.Core.Option.{some}
use native.Mathlib.Omega.{arith}
use alluredeck.Prelude.Tests.{ltb, ◌==◌, if◌then◌else◌, Bool-cases}
use alluredeck.Prelude.Lists.{All}
use alluredeck.Prelude.Texts.{Text}
use alluredeck.Prelude.Ints.{ℤ, pos, negsuc, parse_digits, parse_nonempty, parse_int, in_range_pos}

-- The digits of `n` before `out`; each round divides `n` by ten, so `n` rounds are enough.
emit : ℕ → ℕ → Text → Text
emit zero n out = out
emit (suc rounds) n out = elim (n == 0) [
  | true ↦ out
  | false ↦ emit rounds (n / 10) ((b'0' + n % 10) ∷ out)
]

unfoldable pub format_nat : ℕ → Text
unfolding emit
format_nat n = if n == 0 then b'0' ∷ [] else emit n n []

unfoldable pub format_int : ℤ → Text
format_int (pos n) = format_nat n
format_int (negsuc n) = b'-' ∷ format_nat (suc n)

abbrev pub IsDigit : ℕ → Type 0
IsDigit c = (b'0' ≤ c) × (c ≤ b'9')

-- Enough rounds print the whole number: reading the digits on from 0 is reading `out` on from it.
parse_digits-emit :
    (rounds n : ℕ) (out : Text)
    → n ≤ rounds
    → parse_digits 0 (emit rounds n out) ≡ parse_digits n out
unfolding emit parse_digits
parse_digits-emit zero n out h = ap (λ (k : ℕ). parse_digits k out) (omega (arith, h))
parse_digits-emit (suc rounds) n out h =
    ground (arith, parse_digits-emit rounds (n / 10) ((b'0' + n % 10) ∷ out), h)

emit-IsDigit : (rounds n : ℕ) (out : Text) → All IsDigit out → All IsDigit (emit rounds n out)
unfolding emit
emit-IsDigit zero n out h = h
emit-IsDigit (suc rounds) n out h =
    ground (arith, emit-IsDigit rounds (n / 10) ((b'0' + n % 10) ∷ out))

pub format_nat-IsDigit : (n : ℕ) → All IsDigit (format_nat n)
unfolding format_nat
format_nat-IsDigit n = elim (Bool-cases (n == 0)) [
  | inl nothing ↦ rw nothing (ground arith)
  | inr more ↦ rw more (emit-IsDigit n n [] tt)
]

parse_digits-format_nat : (n : ℕ) → parse_digits 0 (format_nat n) ≡ some n
unfolding format_nat parse_digits
parse_digits-format_nat n = elim (Bool-cases (n == 0)) [
  | inl nothing ↦ rw nothing (ground arith)
  | inr more ↦ rw more (parse_digits-emit n n [] (omega arith))
]

emit-nonempty : (rounds n : ℕ) (out : Text) → out ≢ [] → emit rounds n out ≢ []
unfolding emit
emit-nonempty zero n out h = h
emit-nonempty (suc rounds) n out h =
    elim (n == 0)
      as (λ (b : Bool).
        elim b [ true ↦ out | false ↦ emit rounds (n / 10) ((b'0' + n % 10) ∷ out) ] ≢ []) [
          | true ↦ h
          | false ↦ emit-nonempty rounds (n / 10) ((b'0' + n % 10) ∷ out) (λ e. absurd (cc))
        ]

emit-some : (rounds n : ℕ) (out : Text) → (n == 0) ≡ false → n ≤ rounds → emit rounds n out ≢ []
unfolding emit
emit-some zero n out more h = absurd (ground (arith, more, h))
emit-some (suc rounds) n out more h =
    elim (n == 0)
        as (λ (b : Bool).
          b ≡ false
          → elim b [ true ↦ out | false ↦ emit rounds (n / 10) ((b'0' + n % 10) ∷ out) ] ≢ []) [
            | true ↦ λ e. absurd (cc)
            | false ↦ λ e. emit-nonempty rounds (n / 10) ((b'0' + n % 10) ∷ out) (λ e'. absurd (cc))
          ]
      more

pub format_nat-nonempty : (n : ℕ) → format_nat n ≢ []
unfolding format_nat
format_nat-nonempty n = elim (Bool-cases (n == 0)) [
  | inl nothing ↦ rw nothing (λ e. absurd (cc))
  | inr more ↦ rw more (emit-some n n [] more (omega arith))
]

parse_int-digits :
    (t : Text) (n : ℕ)
    → t ≢ []
    → All IsDigit t
    → n < 2 ^ 63
    → parse_digits 0 t ≡ some n
    → parse_int t ≡ some (pos n)
unfolding parse_int parse_nonempty in_range_pos
parse_int-digits [] n nonempty digits small h = absurd (nonempty refl)
parse_int-digits (c ∷ t) n nonempty digits small h =
    let minus : (c == b'-') ≡ false = ground (arith, digits.0) in
    let plus : (c == b'+') ≡ false = ground (arith, digits.0) in
    let below : ltb n (2 ^ 63) ≡ true = ground (arith, small) in rw (minus, plus, h, below) refl

-- What is printed of a number that an `int64` holds is read as that number.
pub parse_int-format_nat : (n : ℕ) → n < 2 ^ 63 → parse_int (format_nat n) ≡ some (pos n)
parse_int-format_nat n small =
    parse_int-digits (format_nat n) n (format_nat-nonempty n) (format_nat-IsDigit n) small
      (parse_digits-format_nat n)
