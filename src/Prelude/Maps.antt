-- ===== src/Prelude/Maps.antt =====
-- Go's `map` as an association list in the order of its iteration. A key stands in it once.
use mathlib.Core.Path.{◌≡◌, refl, sym, ◌∙◌}
use mathlib.Core.Logic.{◌≢◌, ◌⊎◌, inl, inr, ite, if_pos, if_neg}
use mathlib.Core.Bool.{Bool}
use mathlib.Core.List.{List, [], ◌∷◌}
use mathlib.Core.Option.{Option, none, some}
use native.Mathlib.Omega.{arith}
use alluredeck.Prelude.Tests.{if◌then◌else◌}

module _ {ℓ κ} {K : Type ℓ} {V : Type ℓ} where
  abbrev pub All : (V → Type κ) → List (K × V) → Type κ
  All P [] = Unit
  All P ((k, v) ∷ m) = P v × All P m

module _ {ℓ} {K : Type ℓ} {V : Type ℓ} (dec : Discrete K) where
  -- `m[k]`
  unfoldable pub lookup : K → List (K × V) → Option V
  lookup k [] = none
  lookup k ((j, v) ∷ m) = ite (dec j k) (some v) (lookup k m)

  -- `m[k] = v`
  unfoldable pub insert : K → V → List (K × V) → List (K × V)
  insert k v [] = (k, v) ∷ []
  insert k v ((j, w) ∷ m) = ite (dec j k) ((j, v) ∷ m) ((j, w) ∷ insert k v m)

  -- `delete(m, k)`
  unfoldable pub delete : K → List (K × V) → List (K × V)
  delete k [] = []
  delete k ((j, v) ∷ m) = let rest = delete k m in ite (dec j k) rest ((j, v) ∷ rest)

  -- No key twice.
  abbrev pub Distinct : List (K × V) → Type ℓ
  Distinct [] = Unit
  Distinct ((k, v) ∷ m) = (lookup k m ≡ none) × Distinct m

  pub lookup-insert :
      (k q : K) (v : V) (m : List (K × V))
      → lookup q (insert k v m) ≡ ite (dec k q) (some v) (lookup q m)
  unfolding lookup insert
  lookup-insert k q v [] = refl
  lookup-insert k q v ((j, w) ∷ m) = ground (arith, lookup-insert k q v m)

  pub lookup-delete :
      (k q : K) (m : List (K × V)) → lookup q (delete k m) ≡ ite (dec k q) none (lookup q m)
  unfolding lookup delete
  lookup-delete k q [] = ground arith
  lookup-delete k q ((j, w) ∷ m) = ground (arith, lookup-delete k q m)

  -- What is found after a write, and after a deletion.
  pub lookup-insert_cases :
      (k q : K) (v w : V) (m : List (K × V))
      → lookup q (insert k v m) ≡ some w
      → ((k ≡ q) × (v ≡ w)) ⊎ ((k ≢ q) × (lookup q m ≡ some w))
  lookup-insert_cases k q v w m h =
      elim (dec k q)
          as (λ (d : Dec (k ≡ q)).
            ite d (some v) (lookup q m) ≡ some w
            → ((k ≡ q) × (v ≡ w)) ⊎ ((k ≢ q) × (lookup q m ≡ some w))) [
              | yes same ↦ λ here. inl (same, ground (arith, here))
              | no other ↦ λ there. inr (other, there)
            ]
        (sym (lookup-insert k q v m) ∙ h)

  pub lookup-delete_cases :
      (k q : K) (w : V) (m : List (K × V))
      → lookup q (delete k m) ≡ some w
      → (k ≢ q) × (lookup q m ≡ some w)
  lookup-delete_cases k q w m h =
      elim (dec k q)
          as (λ (d : Dec (k ≡ q)).
            ite d none (lookup q m) ≡ some w → (k ≢ q) × (lookup q m ≡ some w)) [
              | yes same ↦ λ gone. absurd (cc)
              | no other ↦ λ there. (other, there)
            ]
        (sym (lookup-delete k q m) ∙ h)

  pub lookup-insert_self : (k : K) (v : V) (m : List (K × V)) → lookup k (insert k v m) ≡ some v
  lookup-insert_self k v m = lookup-insert k k v m ∙ if_pos (dec k k) refl _ _

  pub lookup-insert_ne :
      (k q : K) (v : V) (m : List (K × V)) → k ≢ q → lookup q (insert k v m) ≡ lookup q m
  lookup-insert_ne k q v m h = lookup-insert k q v m ∙ if_neg (dec k q) h _ _

  pub lookup-delete_self : (k : K) (m : List (K × V)) → lookup k (delete k m) ≡ none
  lookup-delete_self k m = lookup-delete k k m ∙ if_pos (dec k k) refl _ _

  pub lookup-delete_ne : (k q : K) (m : List (K × V)) → k ≢ q → lookup q (delete k m) ≡ lookup q m
  lookup-delete_ne k q m h = lookup-delete k q m ∙ if_neg (dec k q) h _ _

  pub insert-Distinct : (k : K) (v : V) (m : List (K × V)) → Distinct m → Distinct (insert k v m)
  unfolding insert lookup
  insert-Distinct k v [] d = (refl, tt)
  insert-Distinct k v ((j, w) ∷ m) d = ground (arith, insert-Distinct k v m, lookup-insert k j v m)

  pub delete-Distinct : (k : K) (m : List (K × V)) → Distinct m → Distinct (delete k m)
  unfolding delete
  delete-Distinct k [] d = tt
  delete-Distinct k ((j, w) ∷ m) d = ground (arith, delete-Distinct k m, lookup-delete k j m)

-- A sweep: `for k, v := range m { if !keep(v) { delete(m, k) } }`.
module _ {ℓ} {K : Type ℓ} {V : Type ℓ} (keep : V → Bool) where
  unfoldable pub retain : List (K × V) → List (K × V)
  retain [] = []
  retain ((k, v) ∷ m) = let rest = retain m in if keep v then (k, v) ∷ rest else rest

module _ {ℓ} {K : Type ℓ} {V : Type ℓ} (dec : Discrete K) (keep : V → Bool) where
  abbrev pub kept : Option V → Option V
  kept none = none
  kept (some v) = if keep v then some v else none

  lookup-retain_absent :
      (q : K) (m : List (K × V)) → lookup dec q m ≡ none → lookup dec q (retain keep m) ≡ none
  unfolding lookup retain
  lookup-retain_absent q [] h = refl
  lookup-retain_absent q ((j, w) ∷ m) h = ground (arith, lookup-retain_absent q m)

  -- A sweep keeps exactly the entries that pass.
  pub lookup-retain :
      (q : K) (m : List (K × V))
      → Distinct dec m
      → lookup dec q (retain keep m) ≡ kept (lookup dec q m)
  unfolding lookup retain
  lookup-retain q [] d = refl
  lookup-retain q ((j, w) ∷ m) d = ground (arith, lookup-retain q m d.1, lookup-retain_absent q m)

  pub retain-Distinct : (m : List (K × V)) → Distinct dec m → Distinct dec (retain keep m)
  unfolding retain
  retain-Distinct [] d = tt
  retain-Distinct ((j, w) ∷ m) d = ground (arith, retain-Distinct m, lookup-retain_absent j m)
