-- ===== src/Users/Register.antt =====
-- The statements keep the table such that no two users share an address.
use alluredeck.Prelude.{
  ℕ, ◌≡◌, ◌≢◌, refl, sym, ◌∙◌, ap, subst, inl, inr, Bool, true, false, ◌&&◌, ◌||◌, Option, none,
  some, [], ◌∷◌, arith, Text, text_eq, codes, Option-cases, Bool-cases, ite, text_eq_iff, is_some,
}
use alluredeck.Prelude.Ints.{ℤ, ℤ_discrete}
use alluredeck.Prelude.Maps.{lookup, insert, lookup-insert_cases, Distinct, insert-Distinct}
use alluredeck.Prelude.Texts.{to_lower}
use alluredeck.Users.{
  Account, Accounts, AccountError, Written, written, refused, find, shares_email, is_env,
  email_taken, identity_taken, database, email_already_linked, put_row, insert_row, identity_row,
  upsert_row, update_found, update_where, shares_identity,
}

-- An id belongs to one row, every row is that of a login, and an address belongs to one row.
pub record IsRegister (t : Accounts) : Type 0 where
  pub keyed : Distinct ℤ_discrete t
  pub real : (id : ℤ) (a : Account) → find id t ≡ some a → is_env a ≡ false
  pub single :
      (i j : ℤ) (a b : Account)
      → find i t ≡ some a
      → find j t ≡ some b
      → to_lower a.email ≡ to_lower b.email
      → i ≡ j

email_taken-find :
    (id j : ℤ) (a b : Account) (t : Accounts)
    → email_taken id a t ≡ false
    → find j t ≡ some b
    → id ≢ j
    → shares_email a b ≡ false
unfolding email_taken lookup
email_taken-find id j a b [] free found other = absurd (cc)
email_taken-find id j a b ((k, c) ∷ t) free found other =
    elim (ℤ_discrete k j)
        as (λ (d : Dec (k ≡ j)).
          ite d (some c) (lookup ℤ_discrete j t) ≡ some b → shares_email a b ≡ false) [
            | yes same ↦ λ here. ground (arith, here, free, other, same)
            | no differs ↦ λ there. email_taken-find id j a b t (ground (arith, free)) there other
          ]
      found

apart :
    (id j : ℤ) (a b : Account) (t : Accounts)
    → email_taken id a t ≡ false
    → is_env a ≡ false
    → is_env b ≡ false
    → find j t ≡ some b
    → id ≢ j
    → to_lower a.email ≢ to_lower b.email
apart id j a b t free ra rb found other same =
    let unshared = email_taken-find id j a b t free found other in
    let address = (text_eq_iff (to_lower a.email) (to_lower b.email)).1 same in
    absurd (cc (rw (address, ra, rb, or_true (a.is_active && b.is_active)) at unshared))
  where
    or_true : (x : Bool) → (x || true) ≡ true
    or_true true = refl
    or_true false = refl

pub insert-IsRegister :
    (id : ℤ) (a : Account) (t : Accounts)
    → IsRegister t
    → is_env a ≡ false
    → email_taken id a t ≡ false
    → IsRegister (insert ℤ_discrete id a t)
insert-IsRegister id a t reg ra free = record {
  keyed = insert-Distinct ℤ_discrete id a t reg.keyed;
  real = λ i b found. elim (lookup-insert_cases ℤ_discrete id i a b t found) [
    | inl (_, same) ↦ subst (λ x. is_env x ≡ false) same ra
    | inr (_, old) ↦ reg.real i b old
  ];
  single = λ i j b c fi fj same. elim (lookup-insert_cases ℤ_discrete id i a b t fi) [
    | inl (i_new, b_new) ↦ elim (lookup-insert_cases ℤ_discrete id j a c t fj) [
      | inl (j_new, _) ↦ sym i_new ∙ j_new
      | inr (j_other, j_old) ↦ absurd (
          apart id j a c t free ra (reg.real j c j_old) j_old j_other
            (ap (λ (x : Account). to_lower x.email) b_new ∙ same))
    ]
    | inr (i_other, i_old) ↦ elim (lookup-insert_cases ℤ_discrete id j a c t fj) [
      | inl (_, c_new) ↦ absurd (
          apart id i a b t free ra (reg.real i b i_old) i_old i_other
            (ap (λ (x : Account). to_lower x.email) c_new ∙ sym same))
      | inr (_, j_old) ↦ reg.single i j b c i_old j_old same
    ]
  ];
}

abbrev pub settled : Accounts → Written → Accounts
settled t (written t') = t'
settled t (refused e) = t

pub put_row-written :
    (other email : AccountError) (id : ℤ) (a : Account) (t t' : Accounts)
    → put_row other email id a t ≡ written t'
    → t' ≡ insert ℤ_discrete id a t
unfolding put_row
put_row-written other email id a t t' h = elim (Bool-cases (identity_taken id a t)) [
  | inl taken ↦ absurd (cc (rw taken at h))
  | inr new ↦ elim (Bool-cases (email_taken id a t)) [
    | inl taken ↦ absurd (cc (rw (new, taken) at h))
    | inr free ↦ ground (arith, rw (new, free) at h)
  ]
]

put_row-IsRegister :
    (other email : AccountError) (id : ℤ) (a : Account) (t : Accounts)
    → IsRegister t
    → is_env a ≡ false
    → IsRegister (settled t (put_row other email id a t))
unfolding put_row
put_row-IsRegister other email id a t reg ra = elim (Bool-cases (identity_taken id a t)) [
  | inl taken ↦ rw taken reg
  | inr new ↦ elim (Bool-cases (email_taken id a t)) [
    | inl taken ↦ rw (new, taken) reg
    | inr free ↦ rw (new, free) (insert-IsRegister id a t reg ra free)
  ]
]

pub insert_row-IsRegister :
    (other email : AccountError) (id : ℤ) (a : Account) (t : Accounts)
    → IsRegister t
    → is_env a ≡ false
    → IsRegister (settled t (insert_row other email id a t))
unfolding insert_row
insert_row-IsRegister other email id a t reg ra = elim (Bool-cases (is_some (find id t))) [
  | inl there ↦ rw there reg
  | inr new ↦ rw new (put_row-IsRegister other email id a t reg ra)
]

-- An update that makes no user one of the configuration.
pub update_where-IsRegister :
    (down : Bool) (id : ℤ) (change : Account → Account) (t : Accounts)
    → ((a : Account) → is_env a ≡ false → is_env (change a) ≡ false)
    → IsRegister t
    → IsRegister (settled t (update_where down id change t))
unfolding update_where update_found
update_where-IsRegister true id change t keeps reg = reg
update_where-IsRegister false id change t keeps reg = elim (Option-cases (find id t)) [
  | inl absent ↦ rw absent reg
  | inr (a, there) ↦
      rw there
        (put_row-IsRegister database database id (change a) t reg (keeps a (reg.real id a there)))
]

pub identity_row-real :
    (provider sub : Text) (j : ℤ) (b : Account) (t : Accounts)
    → identity_row provider sub t ≡ some (j, b)
    → text_eq provider (codes "env") ≡ false
    → is_env b ≡ false
identity_row-real provider sub j b [] h real = absurd (cc)
identity_row-real provider sub j b ((k, c) ∷ t) h real =
    elim (Bool-cases (shares_identity provider sub c)) [
      | inr other ↦ identity_row-real provider sub j b t (rw other at h) real
      | inl here ↦
          let provided = (text_eq_iff provider c.provider).0 (ground (arith, here)) in
          let same : c ≡ b = ground (arith, rw here at h) in
          subst (λ x. is_env x ≡ false) same
            (subst (λ x. text_eq x (codes "env") ≡ false) provided real)
    ]

pub upsert_row-IsRegister :
    (now : ℕ) (id : ℤ) (provider sub email name role : Text) (o : Option (ℤ × Account))
    (t : Accounts)
    → text_eq provider (codes "env") ≡ false
    → ((j : ℤ) (b : Account) → o ≡ some (j, b) → is_env b ≡ false)
    → IsRegister t
    → IsRegister (settled t (upsert_row now id provider sub email name role o t))
unfolding upsert_row
upsert_row-IsRegister now id provider sub email name role none t real old reg =
    insert_row-IsRegister database email_already_linked id _ t reg real
upsert_row-IsRegister now id provider sub email name role (some (j, b)) t real old reg =
    put_row-IsRegister database email_already_linked j _ t reg (old j b refl)
