-- ===== src/Users/Addresses.antt =====
-- What the search for a user by address finds.
use alluredeck.Prelude.{
  ◌≡◌, refl, sym, ◌∙◌, ap, subst, inl, inr, ◌⊎◌, Option, none, some, [], ◌∷◌, arith, Text,
  Bool-cases, if_neg, if_pos, text_eq_iff,
}
use alluredeck.Prelude.Ints.{ℤ, ℤ_discrete}
use alluredeck.Prelude.Maps.{lookup, Distinct}
use alluredeck.Prelude.Texts.{to_lower}
use alluredeck.Users.{Account, Accounts, find, same_address}
use alluredeck.Users.Rows.{first_by_email, first_of, sooner}

first_of-cases :
    (x : ℤ × Account) (o : Option (ℤ × Account)) → (first_of x o ≡ x) ⊎ (o ≡ some (first_of x o))
first_of-cases x none = inl refl
first_of-cases x (some y) = elim (Bool-cases (sooner x y)) [
  | inl s ↦ inl (rw s refl)
  | inr l ↦ inr (rw l refl)
]

-- A row that is found behind the first one.
past_head :
    (k j : ℤ) (c b : Account) (t : Accounts)
    → find k t ≡ none
    → find j t ≡ some b
    → find j ((k, c) ∷ t) ≡ some b
unfolding lookup
past_head k j c b t fresh there =
    if_neg (ℤ_discrete k j) (λ same. absurd (missing (ap (λ x. find x t) same))) _ _ ∙ there
  where
    missing : ¬ (find k t ≡ find j t)
    missing same = absurd (cc (same, fresh, there))

at_head : (k : ℤ) (c : Account) (t : Accounts) → find k ((k, c) ∷ t) ≡ some c
unfolding lookup
at_head k c t = if_pos (ℤ_discrete k k) refl _ _

-- A row that is found by its address stands in the table.
pub first_by_email-find :
    (email : Text) (j : ℤ) (b : Account) (t : Accounts)
    → Distinct ℤ_discrete t
    → first_by_email email t ≡ some (j, b)
    → (find j t ≡ some b) × (to_lower b.email ≡ to_lower email)
unfolding first_by_email
first_by_email-find email j b [] d h = absurd (cc)
first_by_email-find email j b ((k, c) ∷ t) d h =
    let behind : first_by_email email t ≡ some (j, b)
        → (find j ((k, c) ∷ t) ≡ some b) × (to_lower b.email ≡ to_lower email) =
      λ rest.
        let (there, address) = first_by_email-find email j b t d.1 rest in
        (past_head k j c b t d.0 there, address) in
    elim (Bool-cases (same_address c.email email)) [
      | inr other ↦ behind (rw other at h)
      | inl here ↦ elim (first_of-cases (k, c) (first_by_email email t)) [
        | inl first ↦
            let e : some (k, c) ≡ some (j, b) = ap some (sym first) ∙ rw here at h in
            let same : k ≡ j = ground (arith, e) in
            let row : c ≡ b = ground (arith, e) in
            (
              subst (λ x. find x ((k, c) ∷ t) ≡ some b) same (at_head k c t ∙ ap some row),
              ap (λ (x : Account). to_lower x.email) (sym row)
                  ∙ (text_eq_iff (to_lower c.email) (to_lower email)).0 here,
            )
        | inr rest ↦ behind (rest ∙ rw here at h)
      ]
    ]
