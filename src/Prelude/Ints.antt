-- ===== src/Prelude/Ints.antt =====
-- Signed integers, and `strconv.ParseInt(s, 10, 64)`.
use alluredeck.Prelude.Tests.{leb, ltb, ◌==◌, if◌then◌else◌}
use alluredeck.Prelude.Texts.{Text, codes}
use Prim.Native.Nat.{ℕ, zero, suc, ◌+◌, ◌-◌, ◌*◌, ◌^◌}
use mathlib.Core.Path.{◌≡◌, refl}
use mathlib.Core.Bool.{Bool, true, false, ◌&&◌}
use mathlib.Core.List.{[], ◌∷◌}
use mathlib.Core.Option.{Option, none, some}
use native.Mathlib.Decide.{ℕ_discrete}

-- `negsuc n` is -(n + 1).
pub data ℤ : Type 0 where
  pos : ℕ → ℤ
  negsuc : ℕ → ℤ

unfoldable pub ℤ_discrete : Discrete ℤ
unfolding ℕ_discrete
ℤ_discrete = hlevel ℕ_discrete

-- The order of the numbers.
abbrev pub ltz : ℤ → ℤ → Bool
ltz (pos m) (pos n) = ltb m n
ltz (pos m) (negsuc n) = false
ltz (negsuc m) (pos n) = true
ltz (negsuc m) (negsuc n) = ltb n m

unfoldable pub parse_digits : ℕ → Text → Option ℕ
parse_digits acc [] = some acc
parse_digits acc (c ∷ s) =
    if leb b'0' c && leb c b'9' then parse_digits (acc * 10 + (c - b'0')) s else none

unfoldable pub parse_nonempty : Text → Option ℕ
unfolding parse_digits
parse_nonempty [] = none
parse_nonempty (c ∷ s) = parse_digits 0 (c ∷ s)

-- A magnitude with its sign, if an `int64` holds it.
unfoldable pub in_range_pos : Option ℕ → Option ℤ
in_range_pos none = none
in_range_pos (some n) = if ltb n (2 ^ 63) then some (pos n) else none

unfoldable pub in_range_neg : Option ℕ → Option ℤ
in_range_neg none = none
in_range_neg (some zero) = some (pos 0)
in_range_neg (some (suc n)) = if leb (suc n) (2 ^ 63) then some (negsuc n) else none

unfoldable pub parse_int : Text → Option ℤ
unfolding parse_nonempty in_range_pos in_range_neg
parse_int [] = none
parse_int (c ∷ s) =
    if c == b'-'
    then in_range_neg (parse_nonempty s)
    else (if c == b'+'
        then in_range_pos (parse_nonempty s)
        else in_range_pos (parse_nonempty (c ∷ s)))

parse_int_runs : parse_int (codes "-42") ≡ some (negsuc 41)
unfolding parse_int
parse_int_runs = refl
