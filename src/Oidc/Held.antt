-- ===== src/Oidc/Held.antt =====
-- The account of a sign-in is the identity's own or linked to it.
use alluredeck.Prelude.{
  ℕ, ◌≡◌, refl, sym, ◌∙◌, ap, inl, inr, ◌⊎◌, true, Option, none, some, [], ◌∷◌, arith, Text, codes,
  ◌==◌, ==_iff, Bool-cases, false, not, subst, text_eq, text_eq_iff, is_some, &&-left, &&-right,
}
use alluredeck.Prelude.Ints.{ℤ, ℤ_discrete}
use alluredeck.Prelude.Maps.{insert, lookup-insert_self}
use alluredeck.Users.{
  Account, Accounts, Written, written, refused, database, email_already_linked, duplicate_entry,
  missing, shares_identity, Row, row, no_row, row_failed, find, identity_row, insert_row,
  upsert_row, upsert_by_oidc,
}
use alluredeck.Users.Rows.{get_by_email}
use alluredeck.Users.Register.{put_row-written}
use alluredeck.Oidc.{
  UserInfo, Config, Chance, secure_compare, provisioned, linked, relinked, link_row,
  handle_email_collision, upserted_id, returned, upserted,
}

pub secure_compare-eq : (a b : Text) → secure_compare a b ≡ true → a ≡ b
unfolding secure_compare
secure_compare-eq [] [] h = refl
secure_compare-eq [] (d ∷ b) h = absurd (cc)
secure_compare-eq (c ∷ a) [] h = absurd (cc)
secure_compare-eq (c ∷ a) (d ∷ b) h =
    cc ((==_iff c d).0 (&&-left (c == d) _ h), secure_compare-eq a b (&&-right (c == d) _ h))

-- The account was linked by its address, which the operator allows and the provider has verified.
pub record IsLinked (cfg : Config) (l : Chance) (info : UserInfo) (t : Accounts) (u : Account)
    : Type 0 where
  pub allowed : cfg.auto_link_by_email ≡ true
  pub verified : info.email_verified ≡ true
  pub id : ℤ
  pub before : Account
  pub held : get_by_email l.email_down info.email t ≡ row id before
  pub same_address : u.email ≡ before.email
  pub same_state : u.is_active ≡ before.is_active

-- The row stands in the table.
abbrev pub IsRow : ℤ → Account → Accounts → Type 0
IsRow id a [] = ⊥
IsRow id a ((j, b) ∷ t) = ((j ≡ id) × (b ≡ a)) ⊎ IsRow id a t

-- The id was free, or its row was that of the identity.
abbrev pub WasOwn : UserInfo → Accounts → ℤ → Type 0
WasOwn info t id =
    (find id t ≡ none)
    ⊎ ((b : Account) × IsRow id b t × (b.provider ≡ codes "oidc") × (b.provider_sub ≡ info.subject))

-- The account is the identity's own: that of its row, or a new one; and it is stored.
pub record IsOwn (info : UserInfo) (t t' : Accounts) (u : Account) : Type 0 where
  pub id : ℤ
  pub was_own : WasOwn info t id
  pub stored : find id t' ≡ some u
  pub provider : u.provider ≡ codes "oidc"
  pub subject : u.provider_sub ≡ info.subject
  pub address : u.email ≡ info.email

-- The account is the identity's own, or it was linked.
abbrev pub IsHeld : Config → Chance → UserInfo → Accounts → Accounts → Account → Type 0
IsHeld cfg l info t t' u = IsOwn info t t' u ⊎ IsLinked cfg l info t u

-- The row that is found for an identity is its own.
identity_row-some :
    (provider sub : Text) (t : Accounts) (j : ℤ) (b : Account)
    → identity_row provider sub t ≡ some (j, b)
    → IsRow j b t × (b.provider ≡ provider) × (b.provider_sub ≡ sub)
identity_row-some provider sub [] j b h = absurd (cc)
identity_row-some provider sub ((k, c) ∷ t) j b h =
    elim (Bool-cases (shares_identity provider sub c)) [
      | inr other ↦
          let (there, p, s) = identity_row-some provider sub t j b (rw other at h) in
          (inr there, p, s)
      | inl own ↦
          let e : some (k, c) ≡ some (j, b) = rw own at h in
          let same : c ≡ b = ground (arith, e) in
          let both = &&-right (not (text_eq sub [])) _ own in
          (
            inl (ground (arith, e), same),
            ap (λ (x : Account). x.provider) (sym same)
                ∙ sym ((text_eq_iff provider c.provider).0 (&&-left _ _ both)),
            ap (λ (x : Account). x.provider_sub) (sym same)
                ∙ sym (
                    (text_eq_iff sub c.provider_sub).0
                      (&&-right (text_eq provider c.provider) _ both)),
          )
    ]

-- The row that the upsert writes.
record IsWritten (id : ℤ) (info : UserInfo) (role : Text) (t t' : Accounts) : Type 0 where
  account : Account
  stored : t' ≡ insert ℤ_discrete id account t
  address : account.email ≡ info.email
  rank : account.role ≡ role
  provider : account.provider ≡ codes "oidc"
  subject : account.provider_sub ≡ info.subject
  was_own : WasOwn info t id

is_some-false : (o : Option Account) → is_some o ≡ false → o ≡ none
is_some-false none h = refl
is_some-false (some a) h = absurd (cc)

upsert_row-IsWritten :
    (now : ℕ) (new : ℤ) (info : UserInfo) (role : Text) (o : Option (ℤ × Account)) (t t' : Accounts)
    → identity_row (codes "oidc") info.subject t ≡ o
    → upsert_row now new (codes "oidc") info.subject info.email info.name role o t ≡ written t'
    → IsWritten (upserted_id new o) info role t t'
unfolding upsert_row insert_row
upsert_row-IsWritten now new info role none t t' found_none h =
    elim (Bool-cases (is_some (find new t))) [
      | inl there ↦ absurd (cc (rw there at h))
      | inr fresh ↦ record {
        account = _;
        stored = put_row-written database email_already_linked new _ t t' (rw fresh at h);
        address = refl;
        rank = refl;
        provider = refl;
        subject = refl;
        was_own = inl (is_some-false (find new t) fresh);
      }
    ]
upsert_row-IsWritten now new info role (some (j, b)) t t' own h =
    let (there, p, s) = identity_row-some (codes "oidc") info.subject t j b own in
    record {
      account = _;
      stored = put_row-written database email_already_linked j _ t t' h;
      address = refl;
      rank = refl;
      provider = p;
      subject = s;
      was_own = inr (b, there, p, s);
    }

module _ (cfg : Config) (l : Chance) (now : ℕ) (info : UserInfo) (role : Text) (t : Accounts) where
  relinked-provisioned :
      (u : Account) (o : Written) (t' : Accounts) (u' : Account)
      → relinked info.subject role now u t o ≡ provisioned t' u'
      → linked info.subject role now u ≡ u'
  relinked-provisioned u (refused e) t' u' h = absurd (cc)
  relinked-provisioned u (written t'') t' u' h = ground (arith, h)

  row-IsLinked :
      (t' : Accounts) (u : Account) (r : Row)
      → get_by_email l.email_down info.email t ≡ r
      → link_row l now info role t r ≡ provisioned t' u
      → cfg.auto_link_by_email ≡ true
      → info.email_verified ≡ true
      → (u.role ≡ role) × IsLinked cfg l info t u
  unfolding link_row
  row-IsLinked t' u no_row got made on checked = absurd (cc)
  row-IsLinked t' u row_failed got made on checked = absurd (cc)
  row-IsLinked t' u (row id before) got made on checked =
      let e = relinked-provisioned before _ t' u made in
      (
        ap (λ (x : Account). x.role) (sym e),
        record {
          allowed = on;
          verified = checked;
          id = id;
          before = before;
          held = got;
          same_address = ap (λ (x : Account). x.email) (sym e);
          same_state = ap (λ (x : Account). x.is_active) (sym e);
        },
      )

  collision-IsLinked :
      (t' : Accounts) (u : Account)
      → handle_email_collision cfg l now info role t ≡ provisioned t' u
      → (u.role ≡ role) × IsLinked cfg l info t u
  unfolding handle_email_collision
  collision-IsLinked t' u h = elim (Bool-cases cfg.auto_link_by_email) [
    | inr off ↦ absurd (cc (rw off at h))
    | inl on ↦ elim (Bool-cases info.email_verified) [
      | inr open' ↦ absurd (cc (rw (on, open') at h))
      | inl checked ↦
          row-IsLinked t' u (get_by_email l.email_down info.email t) refl (rw (on, checked) at h) on
            checked
    ]
  ]

  returned-provisioned :
      (t'' : Accounts) (o : Option Account) (t' : Accounts) (u : Account)
      → returned t t'' o ≡ provisioned t' u
      → (o ≡ some u) × (t'' ≡ t')
  returned-provisioned t'' none t' u h = absurd (cc)
  returned-provisioned t'' (some a) t' u h = (ground (arith, h), ground (arith, h))

  pub upserted-IsHeld :
      (o : Written) (t' : Accounts) (u : Account)
      → upsert_by_oidc l.upsert_down now l.new_id
          (codes "oidc")
          info.subject
          info.email
          info.name
          role
          t
        ≡ o
      → upserted cfg l now info role t o ≡ provisioned t' u
      → (u.role ≡ role) × IsHeld cfg l info t t' u
  unfolding upserted upsert_by_oidc
  upserted-IsHeld (refused email_already_linked) t' u made h =
      let (rank, link) = collision-IsLinked t' u h in (rank, inr link)
  upserted-IsHeld (refused database) t' u made h = absurd (cc)
  upserted-IsHeld (refused duplicate_entry) t' u made h = absurd (cc)
  upserted-IsHeld (refused missing) t' u made h = absurd (cc)
  upserted-IsHeld (written t'') t' u made h = elim (Bool-cases l.upsert_down) [
    | inl down ↦ absurd (cc (rw down at made))
    | inr up ↦
        let w =
          upsert_row-IsWritten now l.new_id info role (identity_row (codes "oidc") info.subject t) t
            t'' refl (rw up at made) in
        let held : find (upserted_id l.new_id (identity_row (codes "oidc") info.subject t)) t''
            ≡ some w.account =
          rw w.stored (lookup-insert_self ℤ_discrete _ w.account t) in
        let (got, table) = returned-provisioned t'' _ t' u h in
        let same : some w.account ≡ some u = sym held ∙ got in
        let e : w.account ≡ u = ground (arith, same) in
        (
          ap (λ (x : Account). x.role) (sym e) ∙ w.rank,
          inl (record {
            id = upserted_id l.new_id (identity_row (codes "oidc") info.subject t);
            was_own = w.was_own;
            stored =
                subst
                  (λ x.
                    find (upserted_id l.new_id (identity_row (codes "oidc") info.subject t)) x
                    ≡ some u)
                  table got;
            provider = ap (λ (x : Account). x.provider) (sym e) ∙ w.provider;
            subject = ap (λ (x : Account). x.provider_sub) (sym e) ∙ w.subject;
            address = ap (λ (x : Account). x.email) (sym e) ∙ w.address;
          }),
        )
  ]
