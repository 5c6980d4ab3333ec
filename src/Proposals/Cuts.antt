-- ===== src/Proposals/Cuts.antt =====
-- Pages of a table, cut after their last row.
use alluredeck.Prelude.{
  ℕ, zero, suc, ◌≤◌, ◌<◌, ◌≡◌, refl, ◌∙◌, ap, inl, inr, Bool, true, false, ◌&&◌, none, some, [],
  ◌∷◌, ◌++◌, arith, text_eq, text_eq_iff, ltb, Bool-cases, All, length, take,
}
use alluredeck.Prelude.Ints.{ℤ, pos, negsuc}
use alluredeck.Prelude.Decimal.{format_nat, format_nat-nonempty}
use alluredeck.Proposals.{Table}
use alluredeck.Proposals.Pages.{such, is_below, last_id, page_size}
use alluredeck.Proposals.Ordered.{Row, IsBefore, IsDescending}

pub page_size_positive : (limit : ℤ) → (m : ℕ) × (page_size limit ≡ suc m)
page_size_positive (pos zero) = (19, refl)
page_size_positive (pos (suc n)) = (n, refl)
page_size_positive (negsuc n) = (19, refl)

pub cursor_named : (n : ℕ) → text_eq (format_nat n) [] ≡ false
cursor_named n = elim (Bool-cases (text_eq (format_nat n) [])) [
  | inl empty ↦ absurd (format_nat-nonempty n ((text_eq_iff (format_nat n) []).0 empty))
  | inr named ↦ named
]

pub no_text : text_eq [] [] ≡ true
no_text = (text_eq_iff [] []).1 refl

module _ {C : Type 0} where
  pub such-and : (f g : Row C → Bool) (t : Table C) → such (λ r. f r && g r) t ≡ such g (such f t)
  unfolding such
  such-and f g [] = refl
  such-and f g (r ∷ t) = elim (Bool-cases (f r)) [
    | inl kept ↦ rw (kept, such-and f g t) refl
    | inr dropped ↦ rw (dropped, such-and f g t) refl
  ]

  pub such_whole : (g : Row C → Bool) (t : Table C) → All (λ r. g r ≡ true) t → such g t ≡ t
  unfolding such
  such_whole g [] h = refl
  such_whole g (r ∷ t) h = rw (h.0, such_whole g t h.1) refl

  pub no_bound : (t : Table C) → All (λ (r : Row C). is_below none r ≡ true) t
  no_bound [] = tt
  no_bound (r ∷ t) = (refl, no_bound t)

  below_bound :
      (i : ℕ) (t : Table C)
      → All (IsBefore i) t
      → All (λ (r : Row C). is_below (some (pos i)) r ≡ true) t
  below_bound i [] h = tt
  below_bound i (r ∷ t) h = (ground (arith, h.0), below_bound i t h.1)

  middle :
      (P : Row C → Type 0) (front : Table C) (x : Row C) (rest : Table C)
      → All P (front ++ (x ∷ rest))
      → P x
  middle P [] x rest h = h.0
  middle P (r ∷ front) x rest h = middle P front x rest h.1

  -- The rows below one of them.
  pub such-below :
      (front : Table C) (x : Row C) (rest : Table C)
      → IsDescending (front ++ (x ∷ rest))
      → such (is_below (some (pos x.0))) (front ++ (x ∷ rest)) ≡ rest
  unfolding such
  such-below [] x rest d =
      let itself : ltb x.0 x.0 ≡ false = ground arith in
      rw itself (such_whole (is_below (some (pos x.0))) rest (below_bound x.0 rest d.0))
  such-below (r ∷ front) x rest d =
      let lt = middle (IsBefore r.0) front x rest d.0 in
      let above : ltb r.0 x.0 ≡ false = ground (arith, lt) in rw above (such-below front x rest d.1)

  pub take-take : (a b : ℕ) (t : Table C) → a ≤ b → take a (take b t) ≡ take a t
  take-take zero b t h = refl
  take-take (suc a) zero t h = absurd (omega (arith, h))
  take-take (suc a) (suc b) [] h = refl
  take-take (suc a) (suc b) (r ∷ t) h = ap (λ x. r ∷ x) (take-take a b t (omega (arith, h)))

  pub length-take : (k : ℕ) (t : Table C) → k ≤ length t → length (take k t) ≡ k
  length-take zero t h = refl
  length-take (suc k) [] h = absurd (omega (arith, h))
  length-take (suc k) (r ∷ t) h = omega (arith, length-take k t (omega (arith, h)))

  pub take_whole : (k : ℕ) (t : Table C) → length t ≤ k → take k t ≡ t
  take_whole zero [] h = refl
  take_whole zero (r ∷ t) h = absurd (omega (arith, h))
  take_whole (suc k) [] h = refl
  take_whole (suc k) (r ∷ t) h = ap (λ x. r ∷ x) (take_whole k t (omega (arith, h)))

  -- Rows cut after the first so many.
  pub record IsCut (k : ℕ) (t : Table C) : Type 0 where
    pub front : Table C
    pub last : Row C
    pub rest : Table C
    pub whole : t ≡ front ++ (last ∷ rest)
    pub taken : take k t ≡ front ++ (last ∷ [])
    pub named : last_id (front ++ (last ∷ [])) ≡ last.0
    pub shorter : length rest < length t

  last_id-more :
      (r : Row C) (front : Table C) (x : Row C)
      → last_id (r ∷ (front ++ (x ∷ []))) ≡ last_id (front ++ (x ∷ []))
  last_id-more r [] x = refl
  last_id-more r (s ∷ front) x = refl

  pub cut : (k : ℕ) (t : Table C) → suc k ≤ length t → IsCut (suc k) t
  cut k [] h = absurd (omega (arith, h))
  cut zero (r ∷ t) h = record {
    front = [];
    last = r;
    rest = t;
    whole = refl;
    taken = refl;
    named = refl;
    shorter = omega arith;
  }
  cut (suc k) (r ∷ t) h =
      let c = cut k t (omega (arith, h)) in
      record {
        front = r ∷ c.front;
        last = c.last;
        rest = c.rest;
        whole = ap (λ x. r ∷ x) c.whole;
        taken = ap (λ x. r ∷ x) c.taken;
        named = last_id-more r c.front c.last ∙ c.named;
        shorter = omega (arith, c.shorter);
      }
