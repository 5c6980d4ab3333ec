-- ===== src/Session/Touch.antt =====
-- What the handlers may change in the table of families.
use alluredeck.Prelude.{
  ℕ, ◌≡◌, refl, subst, inl, inr, codes, Bool, true, false, ◌||◌, Option, none, some, [], Text,
  text_eq, text_discrete, Bool-cases, Option-cases,
}
use alluredeck.Prelude.Maps.{lookup, insert}
use alluredeck.Session.{Family, Families, FamilyStatus-discrete, Sessions, Stored, ok, err}
use alluredeck.Session.Families.{
  mark_compromised, revoke, rotate, is_active_family, update_where_id,
}
use alluredeck.Session.Tokens.{
  Validated, good, bad, or_empty, blacklist_access_token, families-blacklist_access_token,
}
use alluredeck.Session.Refresh.{
  Wiring, Luck, refresh, refresh_validated, refresh_loaded, refresh_family, refresh_user, matches,
  mint_and_rotate, finish, settle, logout, revoke_refresh, revoke_named,
}

-- How a handler may change the table: not at all, or in one row, whose user, role and provider stay
-- and which does not come back to life.
pub data Touch (t t' : Families) : Type 0 where
  untouched : t' ≡ t → Touch t t'
  row :
      (id : Text) (f f' : Family)
      → lookup text_discrete id t ≡ some f
      → (is_active_family f' ≡ true → is_active_family f ≡ true)
      → f'.user_id ≡ f.user_id
      → f'.role ≡ f.role
      → f'.provider ≡ f.provider
      → t' ≡ insert text_discrete id f' t
      → Touch t t'

-- A change of a row that leaves its owner, and does not revive it.
record IsTame (g : Family → Family) : Type 0 where
  no_revival : (f : Family) → is_active_family (g f) ≡ true → is_active_family f ≡ true
  user : (f : Family) → (g f).user_id ≡ f.user_id
  role : (f : Family) → (g f).role ≡ f.role
  provider : (f : Family) → (g f).provider ≡ f.provider

Touch-update :
    (down : Bool) (g : Family → Family) (id : Text) (t : Families)
    → IsTame g
    → Touch t (settle t (update_where_id down g id t))
unfolding update_where_id
Touch-update down g id t tame = elim (Bool-cases down) [
  | inl d ↦ rw d (untouched refl)
  | inr u ↦ elim (Option-cases (lookup text_discrete id t)) [
    | inl absent ↦ rw (u, absent) (untouched refl)
    | inr (f, held) ↦
        rw (u, held)
          (row id f (g f) held (tame.no_revival f) (tame.user f) (tame.role f) (tame.provider f)
            refl)
  ]
]

Touch-mark_compromised :
    (down : Bool) (now : ℕ) (id : Text) (t : Families)
    → Touch t (settle t (mark_compromised down now id t))
unfolding mark_compromised FamilyStatus-discrete
Touch-mark_compromised down now id t =
    Touch-update down _ id t
      (record { no_revival = λ f e. cc; user = λ f. refl; role = λ f. refl; provider = λ f. refl })

Touch-revoke :
    (down : Bool) (now : ℕ) (id : Text) (t : Families) → Touch t (settle t (revoke down now id t))
unfolding revoke FamilyStatus-discrete
Touch-revoke down now id t =
    Touch-update down _ id t
      (record { no_revival = λ f e. cc; user = λ f. refl; role = λ f. refl; provider = λ f. refl })

Touch-rotate :
    (down : Bool) (now : ℕ) (id new : Text) (grace : ℕ) (t : Families)
    → Touch t (settle t (rotate down now id new grace t))
unfolding rotate
Touch-rotate down now id new grace t =
    Touch-update down _ id t
      (record { no_revival = λ f e. e; user = λ f. refl; role = λ f. refl; provider = λ f. refl })

families-finish :
    (csrf : Bool) (s : Sessions) (f : Family) (fam new : Text) (r : Stored Families)
    → (finish csrf s f fam new r).0.families ≡ settle s.families r
unfolding finish
families-finish csrf s f fam new (ok t) = refl
families-finish csrf s f fam new (err e) = refl

Touch-mint :
    (l : Luck) (now : ℕ) (fam : Text) (f : Family) (s : Sessions) (m : Option Text)
    → Touch s.families (mint_and_rotate l now fam f s m).0.families
unfolding mint_and_rotate
Touch-mint l now fam f s none = untouched refl
Touch-mint l now fam f s (some new) =
    rw families-finish (Touch-rotate l.rotate_down now fam new 30 s.families)

Touch-user :
    (l : Luck) (now : ℕ) (fam : Text) (f : Family) (s : Sessions) (inactive : Stored Bool)
    → Touch s.families (refresh_user l now fam f s inactive).0.families
unfolding refresh_user
Touch-user l now fam f s (err e) = untouched refl
Touch-user l now fam f s (ok true) = Touch-revoke l.revoke_down now fam s.families
Touch-user l now fam f s (ok false) = Touch-mint l now fam f s l.minted

Touch-family :
    (w : Wiring) (l : Luck) (now : ℕ) (fam jti : Text) (f : Family) (s : Sessions)
    → Touch s.families (refresh_family w l now fam jti f s).0.families
unfolding refresh_family
Touch-family w l now fam jti f s = elim (Bool-cases (is_active_family f)) [
  | inr dead ↦ rw dead (untouched refl)
  | inl live ↦ elim (Bool-cases (matches now jti f)) [
    | inr stolen ↦ rw (live, stolen) (Touch-mark_compromised l.mark_down now fam s.families)
    | inl fits ↦ rw (live, fits) (Touch-user l now fam f s _)
  ]
]

Touch-loaded :
    (w : Wiring) (l : Luck) (now : ℕ) (fam jti : Text) (s : Sessions) (r : Stored (Option Family))
    → Touch s.families (refresh_loaded w l now fam jti s r).0.families
unfolding refresh_loaded
Touch-loaded w l now fam jti s (err e) = untouched refl
Touch-loaded w l now fam jti s (ok none) = untouched refl
Touch-loaded w l now fam jti s (ok (some f)) = Touch-family w l now fam jti f s

Touch-validated :
    (w : Wiring) (l : Luck) (now : ℕ) (s : Sessions) (v : Validated)
    → Touch s.families (refresh_validated w l now s v).0.families
unfolding refresh_validated
Touch-validated w l now s (bad e) = untouched refl
Touch-validated w l now s (good c) =
    elim (Bool-cases (text_eq (or_empty c.fam) [] || text_eq (or_empty c.jti) [])) [
      | inl blank ↦ rw blank (untouched refl)
      | inr named ↦ rw named (Touch-loaded w l now _ _ s _)
    ]

-- Whatever the request, a refresh touches one row of the table at most.
pub refresh-Touch :
    (w : Wiring) (l : Luck) (now : ℕ) (token : Text) (s : Sessions)
    → Touch s.families (refresh w l now token s).0.families
unfolding refresh
refresh-Touch w l now token s = elim (Bool-cases w.security_enabled) [
  | inr off ↦ rw off (untouched refl)
  | inl on ↦ elim (Bool-cases w.has_family_store) [
    | inr off ↦ rw (on, off) (untouched refl)
    | inl on' ↦ elim (Bool-cases (text_eq token [])) [
      | inl blank ↦ rw (on, on', blank) (untouched refl)
      | inr carried ↦ rw (on, on', carried) (Touch-validated w l now s _)
    ]
  ]
]

Touch-revoke_named :
    (l : Luck) (now : ℕ) (s : Sessions) (v : Validated)
    → Touch s.families (revoke_named l now s v).families
unfolding revoke_named
Touch-revoke_named l now s (bad e) = untouched refl
Touch-revoke_named l now s (good c) = elim (Bool-cases (text_eq (or_empty c.fam) [])) [
  | inl blank ↦ rw blank (untouched refl)
  | inr named ↦ rw named (Touch-revoke l.revoke_down now (or_empty c.fam) s.families)
]

Touch-revoke_refresh :
    (w : Wiring) (l : Luck) (now : ℕ) (token : Text) (s : Sessions)
    → Touch s.families (revoke_refresh w l now token s).families
unfolding revoke_refresh
Touch-revoke_refresh w l now token s = elim (Bool-cases (text_eq token [])) [
  | inl blank ↦ rw blank (untouched refl)
  | inr carried ↦
      rw (carried, families-blacklist_access_token)
        (elim (Bool-cases w.has_family_store) [
          | inl on ↦ rw on (Touch-revoke_named l now s _)
          | inr off ↦ rw off (untouched refl)
        ])
]

-- So does a logout.
pub logout-Touch :
    (w : Wiring) (l : Luck) (now : ℕ) (access_token token : Text) (s : Sessions)
    → Touch s.families (logout w l now access_token token s).families
unfolding logout
logout-Touch w l now access_token token s =
    let s' =
      blacklist_access_token w.parse l.blacklist_down l.blacklist_down now access_token
        (codes "access") w.access_expiry s in
    let same : s'.families ≡ s.families = families-blacklist_access_token _ _ _ _ _ _ _ s in
    elim (Bool-cases w.security_enabled) [
      | inr off ↦ rw off (untouched refl)
      | inl on ↦ rw on (
          subst (λ t. Touch t (revoke_refresh w l now token s').families) same
            (Touch-revoke_refresh w l now token s'))
    ]
