-- ===== src/Proposals/Walk.antt =====
-- A client that follows the cursors gets every pending proposal once.
use alluredeck.Prelude.{
  ℕ, zero, suc, ◌+◌, ◌^◌, ◌≤◌, ◌<◌, ◌≡◌, refl, sym, ◌∙◌, ap, subst, inl, inr, true, Option, none,
  some, [], ◌∷◌, ◌++◌, arith, Text, ltb, Bool-cases, All, length, take,
}
use mathlib.Core.List.{append_assoc}
use alluredeck.Prelude.Ints.{ℤ, pos}
use alluredeck.Prelude.Decimal.{format_nat, parse_int-format_nat}
use alluredeck.Proposals.{Table}
use alluredeck.Proposals.Pages.{
  order_by_id, such, is_listed, is_below, select, page_size, page_of, list_pending, followed, walk,
}
use alluredeck.Proposals.Ordered.{
  Row, IsUnique, IsDescending, order_by_id-IsDescending, order_by_id-All, such-All, such-IsUnique,
  such-order_by_id,
}
use alluredeck.Proposals.Cuts.{
  cut, page_size_positive, cursor_named, no_text, such-and, such_whole, no_bound, such-below,
  take-take, length-take, take_whole,
}

module _ {C : Type 0} where
  -- The pending proposals of a project, the latest first.
  abbrev pub listed : ℕ → Table C → Table C
  listed project t = order_by_id (such (is_listed project) t)

  -- The id fits the column.
  abbrev pub IsId : Row C → Type 0
  IsId r = r.0 < 2 ^ 63

  later_ids :
      (front : Table C) (x : Row C) (rest : Table C)
      → All IsId (front ++ (x ∷ rest))
      → All IsId (x ∷ rest)
  later_ids [] x rest h = h
  later_ids (r ∷ front) x rest h = later_ids front x rest h.1

  module _ (project : ℕ) (limit : ℤ) (t : Table C) (unique : IsUnique t) where
    ordered : IsDescending (listed project t)
    ordered =
        order_by_id-IsDescending (such (is_listed project) t)
          (such-IsUnique (is_listed project) t unique)

    select-first : (n : ℕ) → select project none n t ≡ take n (listed project t)
    unfolding select
    select-first n =
        ap (λ x. take n (order_by_id x))
          (such-and (is_listed project) (is_below none) t
            ∙ such_whole (is_below none) (such (is_listed project) t)
                (no_bound (such (is_listed project) t)))

    select-next :
        (n : ℕ) (front : Table C) (x : Row C) (rest : Table C)
        → listed project t ≡ front ++ (x ∷ rest)
        → select project (some (pos x.0)) n t ≡ take n rest
    unfolding select
    select-next n front x rest e =
        let f = is_below (some (pos x.0)) in
        ap (take n) (
          ap order_by_id (such-and (is_listed project) f t)
          ∙ sym (
              such-order_by_id f (such (is_listed project) t)
                (such-IsUnique (is_listed project) t unique))
          ∙ ap (such f) e
          ∙ such-below front x rest (subst IsDescending e ordered))

    -- A page of the rows that are left, when the client goes on from its last one.
    followed-page :
        (next : Text → Option (Table C)) (left : Table C)
        → ((front : Table C) (x : Row C) (rest : Table C)
            → left ≡ front ++ (x ∷ rest)
            → length rest < length left
            → next (format_nat x.0) ≡ some rest)
        → followed next (page_of (page_size limit) (take (page_size limit + 1) left)) ≡ some left
    followed-page next left goes_on =
        let (m, size) = page_size_positive limit in
        elim (Bool-cases (ltb (page_size limit) (length left))) [
          | inl more ↦
              let lt : page_size limit < length left = ground (arith, more) in
              let c = cut m left (omega (arith, lt, size)) in
              let full : ltb (page_size limit) (length (take (page_size limit + 1) left)) ≡ true =
                ground (arith, length-take (page_size limit + 1) left (omega (arith, lt))) in
              let items : take (page_size limit) (take (page_size limit + 1) left)
                  ≡ c.front ++ (c.last ∷ []) =
                take-take (page_size limit) (page_size limit + 1) left (omega arith)
                ∙ ap (λ k. take k left) size
                ∙ c.taken in
              rw
                (
                  full,
                  items,
                  c.named,
                  cursor_named c.last.0,
                  goes_on c.front c.last c.rest c.whole c.shorter,
                )
                (ap some (append_assoc c.front (c.last ∷ []) c.rest ∙ sym c.whole))
          | inr less ↦
              let few : length left ≤ page_size limit = ground (arith, less) in
              let all = take_whole (page_size limit + 1) left (omega (arith, few)) in
              rw (all, less, no_text) refl
        ]

    -- After the row `x` the client gets the rows that follow it.
    walk-rest :
        (fuel : ℕ) (front : Table C) (x : Row C) (rest : Table C)
        → listed project t ≡ front ++ (x ∷ rest)
        → All IsId (x ∷ rest)
        → length rest < fuel
        → walk fuel project limit (format_nat x.0) t ≡ some rest
    unfolding walk list_pending
    walk-rest zero front x rest e ids enough = absurd (omega (arith, enough))
    walk-rest (suc fuel) front x rest e ids enough =
        rw
          (
            cursor_named x.0,
            parse_int-format_nat x.0 ids.0,
            select-next (page_size limit + 1) front x rest e,
          )
          (followed-page (λ next. walk fuel project limit next t) rest
            (λ front' y rest' e' shorter.
              walk-rest fuel (front ++ (x ∷ front')) y rest'
                (e
                  ∙ ap (λ r. front ++ (x ∷ r)) e'
                  ∙ sym (append_assoc front (x ∷ front') (y ∷ rest')))
                (later_ids front' y rest' (subst (All IsId) e' ids.1))
                (omega (arith, shorter, enough))))

    -- Paging ends and misses nothing: on a table in which no id stands twice and each fits a BIGINT, a
    -- client that starts without a cursor and follows the cursors, with at least one request more than
    -- there are pending proposals of the project, gets each of them once, the latest first, whatever
    -- page size it asks for.
    pub walk-listed :
        (fuel : ℕ)
        → All IsId t
        → length (listed project t) < fuel
        → walk fuel project limit [] t ≡ some (listed project t)
    unfolding walk list_pending
    walk-listed zero ids enough = absurd (omega (arith, enough))
    walk-listed (suc fuel) ids enough =
        let kept =
          order_by_id-All IsId (such (is_listed project) t)
            (such-All IsId (is_listed project) t ids) in
        rw (no_text, select-first (page_size limit + 1))
          (followed-page (λ next. walk fuel project limit next t) (listed project t)
            (λ front y rest e shorter.
              walk-rest fuel front y rest e (later_ids front y rest (subst (All IsId) e kept))
                (omega (arith, shorter, enough))))
