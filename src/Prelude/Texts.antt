-- ===== src/Prelude/Texts.antt =====
-- Text as a list of code points, with the parts of Go's `strings` package that the modelled code
-- calls: `ToLower`, `TrimSpace` and `Contains`, over ASCII. Other code points are left alone.
use Prim.Native.Nat.{ℕ, ◌+◌}
use Prim.Native.Char.{code}
use Prim.Native.String.{String}
use mathlib.Core.Path.{◌≡◌, refl}
use mathlib.Core.Logic.{◌↔◌}
use mathlib.Core.Bool.{Bool, true, false, ◌&&◌, ◌||◌}
use mathlib.Core.Option.{Option, none, some}
use mathlib.Core.List.{List, [], ◌∷◌, map, reverse, reverse_aux}
use native.Mathlib.Decide.{ℕ_discrete}
use native.Mathlib.Omega.{arith}
use alluredeck.Prelude.Tests.{leb, ◌==◌, if◌then◌else◌, is_yes}

abbrev pub Text : Type 0
Text = List ℕ

abbrev pub codes : String → Text
codes String.[] = []
codes (String.◌∷◌ c s) = code c ∷ codes s

unfoldable pub text_discrete : Discrete Text
unfolding ℕ_discrete
text_discrete = hlevel ℕ_discrete

abbrev pub text_eq : Text → Text → Bool
text_eq a b = is_yes (text_discrete a b)

pub text_eq_iff : (a b : Text) → (text_eq a b ≡ true) ↔ (a ≡ b)
text_eq_iff a b = ground arith

-- `unicode.ToLower` on ASCII.
to_lower_code : ℕ → ℕ
to_lower_code c = if leb b'A' c && leb c b'Z' then c + 32 else c

unfoldable pub to_lower : Text → Text
unfolding to_lower_code
to_lower = map to_lower_code

-- `unicode.IsSpace` on ASCII: tab, newline, vertical tab, form feed, carriage return, space.
is_space : ℕ → Bool
is_space c = (leb 9 c && leb c 13) || c == 32

trim_left : Text → Text
unfolding is_space
trim_left [] = []
trim_left (c ∷ s) = if is_space c then trim_left s else c ∷ s

unfoldable pub trim_space : Text → Text
unfolding trim_left
trim_space s = reverse (trim_left (reverse (trim_left s)))

unfoldable pub starts_with : Text → Text → Bool
starts_with s [] = true
starts_with [] (c ∷ t) = false
starts_with (d ∷ s) (c ∷ t) = c == d && starts_with s t

unfoldable pub contains : Text → Text → Bool
unfolding starts_with
contains [] t = starts_with [] t
contains (c ∷ s) t = starts_with (c ∷ s) t || contains s t

to_lower_code_idem : (c : ℕ) → to_lower_code (to_lower_code c) ≡ to_lower_code c
unfolding to_lower_code
to_lower_code_idem c = ground arith

pub to_lower_idem : (s : Text) → to_lower (to_lower s) ≡ to_lower s
unfolding to_lower
to_lower_idem [] = refl
to_lower_idem (c ∷ s) = cc (to_lower_code_idem c, to_lower_idem s)

lower_runs : to_lower (trim_space (codes " Alice@X ")) ≡ codes "alice@x"
unfolding to_lower trim_space
lower_runs = refl

contains_runs : contains (codes "run after hooks") (codes "after") ≡ true
unfolding contains
contains_runs = refl

text_eq_runs : text_eq (codes "passed") (codes "passed") ≡ true
unfolding text_discrete
text_eq_runs = refl

is_space-to_lower_code : (c : ℕ) → is_space (to_lower_code c) ≡ is_space c
unfolding is_space to_lower_code
is_space-to_lower_code c = ground arith

trim_left-to_lower : (s : Text) → trim_left (to_lower s) ≡ to_lower (trim_left s)
unfolding trim_left to_lower
trim_left-to_lower [] = refl
trim_left-to_lower (c ∷ s) = ground (arith, is_space-to_lower_code c, trim_left-to_lower s)

reverse_aux-to_lower :
    (s acc : Text) → reverse_aux (to_lower s) (to_lower acc) ≡ to_lower (reverse_aux s acc)
unfolding to_lower
reverse_aux-to_lower [] acc = refl
reverse_aux-to_lower (c ∷ s) acc = reverse_aux-to_lower s (c ∷ acc)

reverse-to_lower : (s : Text) → reverse (to_lower s) ≡ to_lower (reverse s)
unfolding to_lower
reverse-to_lower s = reverse_aux-to_lower s []

-- Trimming and lowering commute.
pub trim_space-to_lower : (s : Text) → trim_space (to_lower s) ≡ to_lower (trim_space s)
unfolding trim_space
trim_space-to_lower s =
    rw (trim_left-to_lower, reverse-to_lower, trim_left-to_lower, reverse-to_lower)

-- `strings.CutPrefix`: the rest of a text behind a prefix that it has.
unfoldable pub cut_prefix : Text → Text → Option Text
cut_prefix s [] = some s
cut_prefix [] (p ∷ prefix) = none
cut_prefix (c ∷ s) (p ∷ prefix) = let rest = cut_prefix s prefix in if c == p then rest else none

abbrev pub push : ℕ → Option (Text × Text) → Option (Text × Text)
push c none = none
push c (some (a, b)) = some (c ∷ a, b)

-- `strings.Cut` at one character.
unfoldable pub cut : ℕ → Text → Option (Text × Text)
cut d [] = none
cut d (c ∷ s) = let rest = cut d s in if c == d then some ([], s) else push c rest
