-- ===== src/Proposals/Ordered.antt =====
-- Rows in the order of their ids, and the selection of some of them.
use alluredeck.Prelude.{
  ℕ, ◌<◌, ◌≡◌, ◌≢◌, refl, sym, ◌∙◌, ap, inl, inr, Bool, true, [], ◌∷◌, arith, ltb, if◌then◌else◌,
  Bool-cases, All,
}
use alluredeck.Proposals.{Proposal, Table}
use alluredeck.Proposals.Pages.{insert_by_id, order_by_id, such}

abbrev pub Row : Type 0 → Type 0
Row C = ℕ × Proposal C

module _ {C : Type 0} where
  abbrev pub IsBefore : ℕ → Row C → Type 0
  IsBefore i r = r.0 < i

  abbrev pub IsApart : ℕ → Row C → Type 0
  IsApart i r = r.0 ≢ i

  -- No id stands twice.
  abbrev pub IsUnique : Table C → Type 0
  IsUnique [] = Unit
  IsUnique (r ∷ t) = All (IsApart r.0) t × IsUnique t

  -- Each id is below the one before.
  abbrev pub IsDescending : Table C → Type 0
  IsDescending [] = Unit
  IsDescending (r ∷ t) = All (IsBefore r.0) t × IsDescending t

  module _ (P : Row C → Type 0) where
    pub insert_by_id-All : (r : Row C) (t : Table C) → P r → All P t → All P (insert_by_id r t)
    unfolding insert_by_id
    insert_by_id-All r [] h hs = (h, tt)
    insert_by_id-All r (s ∷ t) h hs = elim (Bool-cases (ltb s.0 r.0)) [
      | inl below ↦ rw below (h, hs)
      | inr above ↦ rw above (hs.0, insert_by_id-All r t h hs.1)
    ]

    pub order_by_id-All : (t : Table C) → All P t → All P (order_by_id t)
    unfolding order_by_id
    order_by_id-All [] h = tt
    order_by_id-All (r ∷ t) h = insert_by_id-All r (order_by_id t) h.0 (order_by_id-All t h.1)

    pub such-All : (f : Row C → Bool) (t : Table C) → All P t → All P (such f t)
    unfolding such
    such-All f [] h = tt
    such-All f (r ∷ t) h = elim (Bool-cases (f r)) [
      | inl kept ↦ rw kept (h.0, such-All f t h.1)
      | inr dropped ↦ rw dropped (such-All f t h.1)
    ]

  IsBefore-more : (i j : ℕ) (t : Table C) → i < j → All (IsBefore i) t → All (IsBefore j) t
  IsBefore-more i j [] h hs = tt
  IsBefore-more i j (r ∷ t) h hs = (omega (arith, hs.0), IsBefore-more i j t h hs.1)

  insert_by_id-IsDescending :
      (r : Row C) (t : Table C)
      → All (IsApart r.0) t
      → IsDescending t
      → IsDescending (insert_by_id r t)
  unfolding insert_by_id
  insert_by_id-IsDescending r [] a d = (tt, tt)
  insert_by_id-IsDescending r (s ∷ t) a d = elim (Bool-cases (ltb s.0 r.0)) [
    | inl below ↦
        let lt : s.0 < r.0 = ground (arith, below) in
        rw below ((lt, IsBefore-more s.0 r.0 t lt d.0), d)
    | inr above ↦
        let lt : r.0 < s.0 = ground (arith, above, a.0) in
        rw above (insert_by_id-All (IsBefore s.0) r t lt d.0, insert_by_id-IsDescending r t a.1 d.1)
  ]

  pub order_by_id-IsDescending : (t : Table C) → IsUnique t → IsDescending (order_by_id t)
  unfolding order_by_id
  order_by_id-IsDescending [] u = tt
  order_by_id-IsDescending (r ∷ t) u =
      insert_by_id-IsDescending r (order_by_id t) (order_by_id-All (IsApart r.0) t u.0)
        (order_by_id-IsDescending t u.1)

  pub such-IsUnique : (f : Row C → Bool) (t : Table C) → IsUnique t → IsUnique (such f t)
  unfolding such
  such-IsUnique f [] u = tt
  such-IsUnique f (r ∷ t) u = elim (Bool-cases (f r)) [
    | inl kept ↦ rw kept (such-All (IsApart r.0) f t u.0, such-IsUnique f t u.1)
    | inr dropped ↦ rw dropped (such-IsUnique f t u.1)
  ]

  insert_by_id-front : (r : Row C) (t : Table C) → All (IsBefore r.0) t → insert_by_id r t ≡ r ∷ t
  unfolding insert_by_id
  insert_by_id-front r [] h = refl
  insert_by_id-front r (s ∷ t) h =
      let below : ltb s.0 r.0 ≡ true = ground (arith, h.0) in rw below refl

  such-insert_by_id :
      (f : Row C → Bool) (r : Row C) (t : Table C)
      → IsDescending t
      → such f (insert_by_id r t) ≡ (if f r then insert_by_id r (such f t) else such f t)
  unfolding such insert_by_id
  such-insert_by_id f r [] d = refl
  such-insert_by_id f r (s ∷ t) d = elim (Bool-cases (ltb s.0 r.0)) [
    | inl below ↦
        let lt : s.0 < r.0 = ground (arith, below) in
        let front =
          insert_by_id-front r (such f (s ∷ t))
            (such-All (IsBefore r.0) f (s ∷ t) (lt, IsBefore-more s.0 r.0 t lt d.0)) in
        rw below (ap (λ x. if f r then x else such f (s ∷ t)) (sym front))
    | inr above ↦ elim (Bool-cases (f s)) [
      | inl kept ↦
          rw (above, kept)
            (elim (Bool-cases (f r)) [
              | inl chosen ↦
                  let e = such-insert_by_id f r t d.1 in
                  rw (chosen, above) (ap (λ x. s ∷ x) (e ∙ rw chosen refl))
              | inr left ↦
                  let e = such-insert_by_id f r t d.1 in
                  rw left (ap (λ x. s ∷ x) (e ∙ rw left refl))
            ])
      | inr dropped ↦ rw (above, dropped) (such-insert_by_id f r t d.1)
    ]
  ]

  -- The order of the rows does not depend on when they are selected.
  pub such-order_by_id :
      (f : Row C → Bool) (t : Table C)
      → IsUnique t
      → such f (order_by_id t) ≡ order_by_id (such f t)
  unfolding such order_by_id
  such-order_by_id f [] u = refl
  such-order_by_id f (r ∷ t) u = elim (Bool-cases (f r)) [
    | inl kept ↦
        such-insert_by_id f r (order_by_id t) (order_by_id-IsDescending t u.1)
        ∙ rw kept (ap (insert_by_id r) (such-order_by_id f t u.1))
    | inr dropped ↦
        such-insert_by_id f r (order_by_id t) (order_by_id-IsDescending t u.1)
        ∙ rw dropped (such-order_by_id f t u.1)
  ]
