-- ===== src/Diagnose/Partition.antt =====
-- The clusters are the failing tests of one key each, largest first.
use alluredeck.Prelude.{
  ℕ, ◌+◌, ◌≤◌, ◌≡◌, ◌≢◌, refl, sym, ◌∙◌, ap, inl, inr, some, List, [], ◌∷◌, ◌++◌, arith, Text,
  text_discrete, ltb, length, All, Bool-cases, ite, if_pos, if_neg,
}
use alluredeck.Prelude.Maps.{lookup, insert, Distinct, lookup-insert, insert-Distinct}
use alluredeck.Diagnose.{DiagnoseTest}
use alluredeck.Diagnose.Cluster.{
  Slots, or_empty, slot_at, add_to_slot, group_from, groups_of, insert_group, sort_groups,
  sorted_groups,
}

-- The positions from `n` on of the tests with a key, in their order.
unfoldable pub positions : (DiagnoseTest → Text) → Text → ℕ → List DiagnoseTest → List ℕ
positions key k n [] = []
positions key k n (t ∷ ts) =
    let rest = positions key k (n + 1) ts in ite (text_discrete (key t) k) (n ∷ rest) rest

-- A group is all the tests of one key, of which there is one.
abbrev pub IsKeyGroup : (DiagnoseTest → Text) → List DiagnoseTest → List ℕ → Type 0
IsKeyGroup key tests group = (k : Text) × (group ≡ positions key k 0 tests) × (group ≢ [])

-- The longest comes first.
abbrev pub Descends : List (List ℕ) → Type 0
Descends [] = Unit
Descends (g ∷ gs) = All (λ (h : List ℕ). length h ≤ length g) gs × Descends gs

append_assoc : (xs ys zs : List ℕ) → (xs ++ ys) ++ zs ≡ xs ++ (ys ++ zs)
append_assoc [] ys zs = refl
append_assoc (x ∷ xs) ys zs = rw (append_assoc xs ys zs)

append_nil : (xs : List ℕ) → xs ++ [] ≡ xs
append_nil [] = refl
append_nil (x ∷ xs) = rw (append_nil xs)

ite-append {ℓ} :
    {A : Type ℓ} (d : Dec A) (xs ys : List ℕ) (n : ℕ)
    → ite d (xs ++ n ∷ []) xs ++ ys ≡ xs ++ ite d (n ∷ ys) ys
ite-append (yes a) xs ys n = append_assoc xs (n ∷ []) ys
ite-append (no a) xs ys n = refl

slot_at-add_to_slot :
    (k q : Text) (i : ℕ) (slots : Slots)
    → slot_at q (add_to_slot k i slots)
      ≡ ite (text_discrete k q) (slot_at q slots ++ i ∷ []) (slot_at q slots)
unfolding add_to_slot
slot_at-add_to_slot k q i slots =
    rw (lookup-insert text_discrete k q (slot_at k slots ++ i ∷ []) slots) (ground arith)

-- What each slot holds after the loop.
slot_at-group_from :
    (key : DiagnoseTest → Text) (q : Text) (slots : Slots) (n : ℕ) (ts : List DiagnoseTest)
    → slot_at q (group_from key slots n ts) ≡ slot_at q slots ++ positions key q n ts
unfolding group_from positions
slot_at-group_from key q slots n [] = sym (append_nil (slot_at q slots))
slot_at-group_from key q slots n (t ∷ ts) =
    slot_at-group_from key q (add_to_slot (key t) n slots) (n + 1) ts
    ∙ rw (slot_at-add_to_slot (key t) q n slots)
        (ite-append (text_discrete (key t) q) (slot_at q slots) (positions key q (n + 1) ts) n)

abbrev IsFilled : Slots → Type 0
IsFilled [] = Unit
IsFilled ((k, g) ∷ slots) = (g ≢ []) × IsFilled slots

append-nonempty : (xs : List ℕ) (i : ℕ) → xs ++ i ∷ [] ≢ []
append-nonempty [] i e = absurd (cc)
append-nonempty (x ∷ xs) i e = absurd (cc)

insert-IsFilled :
    (k : Text) (g : List ℕ) (slots : Slots)
    → g ≢ []
    → IsFilled slots
    → IsFilled (insert text_discrete k g slots)
unfolding insert
insert-IsFilled k g [] f fs = (f, tt)
insert-IsFilled k g ((j, h) ∷ slots) f fs = ground (arith, insert-IsFilled k g slots)

group_from-IsFilled :
    (key : DiagnoseTest → Text) (slots : Slots) (n : ℕ) (ts : List DiagnoseTest)
    → IsFilled slots
    → IsFilled (group_from key slots n ts)
unfolding group_from add_to_slot
group_from-IsFilled key slots n [] f = f
group_from-IsFilled key slots n (t ∷ ts) f =
    group_from-IsFilled key (add_to_slot (key t) n slots) (n + 1) ts (
      insert-IsFilled (key t) (slot_at (key t) slots ++ n ∷ []) slots
        (append-nonempty (slot_at (key t) slots) n) f)

group_from-Distinct :
    (key : DiagnoseTest → Text) (slots : Slots) (n : ℕ) (ts : List DiagnoseTest)
    → Distinct text_discrete slots
    → Distinct text_discrete (group_from key slots n ts)
unfolding group_from add_to_slot
group_from-Distinct key slots n [] d = d
group_from-Distinct key slots n (t ∷ ts) d =
    group_from-Distinct key (add_to_slot (key t) n slots) (n + 1) ts
      (insert-Distinct text_discrete (key t) _ slots d)

-- Every slot of a map without double keys is what its key is looked up as.
slots-IsKeyGroup :
    (key : DiagnoseTest → Text) (tests : List DiagnoseTest) (slots : Slots)
    → ((k : Text) (g : List ℕ)
        → lookup text_discrete k slots ≡ some g
        → g ≡ positions key k 0 tests)
    → IsFilled slots
    → Distinct text_discrete slots
    → All (IsKeyGroup key tests) (groups_of slots)
unfolding lookup
slots-IsKeyGroup key tests [] found f d = tt
slots-IsKeyGroup key tests ((k, g) ∷ slots) found f d = (
  (k, found k g (if_pos (text_discrete k k) refl _ _), f.0),
  slots-IsKeyGroup key tests slots
      (λ q h e. found q h (if_neg (text_discrete k q) (λ same. absurd (cc)) _ _ ∙ e)) f.1 d.1,
)

insert_group-All {κ} :
    (P : List ℕ → Type κ) (g : List ℕ) (gs : List (List ℕ))
    → P g
    → All P gs
    → All P (insert_group g gs)
unfolding insert_group
insert_group-All P g [] p ps = (p, tt)
insert_group-All P g (h ∷ hs) p ps = elim (Bool-cases (ltb (length g) (length h))) [
  | inl short ↦ rw short (ps.0, insert_group-All P g hs p ps.1)
  | inr long ↦ rw long (p, ps)
]

sort_groups-All {κ} : (P : List ℕ → Type κ) (gs : List (List ℕ)) → All P gs → All P (sort_groups gs)
unfolding sort_groups
sort_groups-All P [] ps = tt
sort_groups-All P (g ∷ gs) ps =
    insert_group-All P g (sort_groups gs) ps.0 (sort_groups-All P gs ps.1)

-- Every group of the result is the list of all tests of one key, in their order.
pub sorted_groups-IsKeyGroup :
    (key : DiagnoseTest → Text) (tests : List DiagnoseTest)
    → All (IsKeyGroup key tests) (sorted_groups key tests)
unfolding lookup
sorted_groups-IsKeyGroup key tests =
    sort_groups-All (IsKeyGroup key tests) (groups_of (group_from key [] 0 tests)) (
      slots-IsKeyGroup key tests (group_from key [] 0 tests)
        (λ k g e. ap or_empty (sym e) ∙ slot_at-group_from key k [] 0 tests)
        (group_from-IsFilled key [] 0 tests tt) (group_from-Distinct key [] 0 tests tt))

All-longer :
    (m n : ℕ) (gs : List (List ℕ))
    → m ≤ n
    → All (λ (h : List ℕ). length h ≤ m) gs
    → All (λ (h : List ℕ). length h ≤ n) gs
All-longer m n [] le a = tt
All-longer m n (g ∷ gs) le a = (omega (arith, le, a.0), All-longer m n gs le a.1)

insert_group-Descends :
    (g : List ℕ) (gs : List (List ℕ)) → Descends gs → Descends (insert_group g gs)
unfolding insert_group
insert_group-Descends g [] d = (tt, tt)
insert_group-Descends g (h ∷ hs) d = elim (Bool-cases (ltb (length g) (length h))) [
  | inl short ↦ rw short (
    insert_group-All (λ (x : List ℕ). length x ≤ length h) g hs (ground arith) d.0,
    insert_group-Descends g hs d.1,
  )
  | inr long ↦ rw long ((ground arith, All-longer (length h) (length g) hs (ground arith) d.0), d)
]

pub sort_groups-Descends : (gs : List (List ℕ)) → Descends (sort_groups gs)
unfolding sort_groups
sort_groups-Descends [] = tt
sort_groups-Descends (g ∷ gs) = insert_group-Descends g (sort_groups gs) (sort_groups-Descends gs)
