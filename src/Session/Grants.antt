-- ===== src/Session/Grants.antt =====
-- What a refresh that is granted must have met.
use alluredeck.Prelude.{
  ℕ, ◌≡◌, refl, sym, ap, subst, inl, inr, Bool, true, false, ◌||◌, Option, none, some, List, [],
  arith, Text, text_eq, codes, text_discrete, Bool-cases,
}
use alluredeck.Prelude.Maps.{lookup}
use alluredeck.Session.{Family, Families, Sessions, Stored, ok, err}
use alluredeck.Session.Families.{get_by_id, is_active_family}
use alluredeck.Session.Tokens.{
  Claims, Validated, good, bad, or_empty, validate_token, check_claims, is_revoked, has_type,
}
use alluredeck.Session.Refresh.{
  Wiring, Luck, refreshed, Grant, refresh, refresh_validated, refresh_loaded, refresh_family,
  refresh_user, mint_and_rotate, finish, family_user_inactive, matches,
}

abbrev pub grant_of : Text → Text → Family → Grant
grant_of fam new f = record {
  user_id = f.user_id;
  role = f.role;
  provider = f.provider;
  family_id = fam;
  jti = new;
}

-- What the decision on one family's row has checked.
pub record Earned (w : Wiring) (l : Luck) (now : ℕ) (fam jti : Text) (f : Family) (g : Grant)
    : Type 0 where
  pub live : is_active_family f ≡ true
  pub fits : matches now jti f ≡ true
  pub working : family_user_inactive w.users f ≡ ok false
  pub grant : g ≡ grant_of fam g.jti f
  pub minted : l.minted ≡ some g.jti

-- The part of it that is left once the user is known to be active.
record Rotates (l : Luck) (fam : Text) (f : Family) (g : Grant) : Type 0 where
  grant : g ≡ grant_of fam g.jti f
  minted : l.minted ≡ some g.jti

finish-refreshed :
    (csrf : Bool) (s : Sessions) (f : Family) (fam new : Text) (r : Stored Families) (g : Grant)
    → (finish csrf s f fam new r).1 ≡ refreshed g
    → g ≡ grant_of fam new f
unfolding finish
finish-refreshed csrf s f fam new (err e) g h = cc
finish-refreshed csrf s f fam new (ok t) g h = ground arith

mint-refreshed :
    (l : Luck) (now : ℕ) (fam : Text) (f : Family) (s : Sessions) (m : Option Text) (g : Grant)
    → (mint_and_rotate l now fam f s m).1 ≡ refreshed g
    → (g ≡ grant_of fam g.jti f) × (m ≡ some g.jti)
unfolding mint_and_rotate
mint-refreshed l now fam f s none g h = absurd (cc)
mint-refreshed l now fam f s (some new) g h =
    let e = finish-refreshed l.csrf_made s f fam new _ g h in (ground (arith, e), ground (arith, e))

user-refreshed :
    (l : Luck) (now : ℕ) (fam : Text) (f : Family) (s : Sessions) (inactive : Stored Bool)
    (g : Grant)
    → (refresh_user l now fam f s inactive).1 ≡ refreshed g
    → (inactive ≡ ok false) × (g ≡ grant_of fam g.jti f) × (l.minted ≡ some g.jti)
unfolding refresh_user
user-refreshed l now fam f s (err e) g h = absurd (cc)
user-refreshed l now fam f s (ok true) g h = absurd (cc)
user-refreshed l now fam f s (ok false) g h =
    let r = mint-refreshed l now fam f s l.minted g h in (refl, r.0, r.1)

pub family-refreshed :
    (w : Wiring) (l : Luck) (now : ℕ) (fam jti : Text) (f : Family) (s : Sessions) (g : Grant)
    → (refresh_family w l now fam jti f s).1 ≡ refreshed g
    → Earned w l now fam jti f g
unfolding refresh_family
family-refreshed w l now fam jti f s g h = elim (Bool-cases (is_active_family f)) [
  | inr dead ↦ absurd (cc (dead, h))
  | inl live ↦ elim (Bool-cases (matches now jti f)) [
    | inr stolen ↦ absurd (cc (live, stolen, h))
    | inl fits ↦
        let r = user-refreshed l now fam f s _ g (rw (live, fits) at h) in
        record { live = live; fits = fits; working = r.0; grant = r.1; minted = r.2 }
  ]
]

loaded-refreshed :
    (w : Wiring) (l : Luck) (now : ℕ) (fam jti : Text) (s : Sessions) (r : Stored (Option Family))
    (g : Grant)
    → (refresh_loaded w l now fam jti s r).1 ≡ refreshed g
    → (f : Family) × (r ≡ ok (some f)) × Earned w l now fam jti f g
unfolding refresh_loaded
loaded-refreshed w l now fam jti s (err e) g h = absurd (cc)
loaded-refreshed w l now fam jti s (ok none) g h = absurd (cc)
loaded-refreshed w l now fam jti s (ok (some f)) g h =
    (f, refl, family-refreshed w l now fam jti f s g h)

check_claims-unrevoked :
    (now : ℕ) (o : Option Claims) (c : Claims) (bl : List (Text × ℕ))
    → check_claims false now o (codes "refresh") bl ≡ good c
    → is_revoked false now c.jti bl ≡ false
unfolding check_claims
check_claims-unrevoked now none c bl h = absurd (cc)
check_claims-unrevoked now (some d) c bl h =
    elim (Bool-cases (has_type (codes "refresh") d.token_type)) [
      | inr other ↦ absurd (cc (rw other at h))
      | inl typed ↦ elim (Bool-cases (is_revoked false now d.jti bl)) [
        | inl listed ↦ absurd (cc (rw (typed, listed) at h))
        | inr free ↦
            let e : good d ≡ good c = rw (typed, free) at h in
            let same : d ≡ c = ground (arith, e) in
            subst (λ (x : Claims). is_revoked false now x.jti bl ≡ false) same free
      ]
    ]

-- A grant, from the token's claims on.
pub record Justified (w : Wiring) (l : Luck) (now : ℕ) (token : Text) (s : Sessions) (g : Grant)
    : Type 0 where
  pub claims : Claims
  pub family : Family
  pub valid :
      validate_token w.parse l.blacklist_down now token (codes "refresh") s.blacklist ≡ good claims
  pub unrevoked : l.blacklist_down ≡ false → is_revoked false now claims.jti s.blacklist ≡ false
  pub same_family : or_empty claims.fam ≡ g.family_id
  pub stored : lookup text_discrete (or_empty claims.fam) s.families ≡ some family
  pub earned : Earned w l now (or_empty claims.fam) (or_empty claims.jti) family g

get_by_id-ok :
    (down : Bool) (id : Text) (t : Families) (o : Option Family)
    → get_by_id down id t ≡ ok o
    → lookup text_discrete id t ≡ o
unfolding get_by_id
get_by_id-ok down id t o h = ground arith

validated-refreshed :
    (w : Wiring) (l : Luck) (now : ℕ) (token : Text) (s : Sessions) (v : Validated) (g : Grant)
    → validate_token w.parse l.blacklist_down now token (codes "refresh") s.blacklist ≡ v
    → (refresh_validated w l now s v).1 ≡ refreshed g
    → Justified w l now token s g
unfolding refresh_validated validate_token
validated-refreshed w l now token s (bad e) g v h = absurd (cc)
validated-refreshed w l now token s (good c) g v h =
    elim (Bool-cases (text_eq (or_empty c.fam) [] || text_eq (or_empty c.jti) [])) [
      | inl blank ↦ absurd (cc (blank, h))
      | inr named ↦
          let (f, row, e) =
            loaded-refreshed w l now (or_empty c.fam) (or_empty c.jti) s _ g (rw named at h) in
          record {
            claims = c;
            family = f;
            valid = v;
            unrevoked =
                λ up. check_claims-unrevoked now (w.parse now token) c s.blacklist (rw up at v);
            same_family = sym (ap (λ (x : Grant). x.family_id) e.grant);
            stored = get_by_id-ok l.get_down _ s.families _ row;
            earned = e;
          }
    ]

-- Soundness of refresh: new tokens are issued only against a token that validates as a refresh token
-- and, where the blacklist can be read, is not on it, for the stored and active row of the family it names, if its JTI is the row's
-- current one or, within the grace time, the previous one, and the user is not deactivated; and they
-- name that row's user, role and provider.
pub refresh-refreshed :
    (w : Wiring) (l : Luck) (now : ℕ) (token : Text) (s : Sessions) (g : Grant)
    → (refresh w l now token s).1 ≡ refreshed g
    → Justified w l now token s g
unfolding refresh
refresh-refreshed w l now token s g h = elim (Bool-cases w.security_enabled) [
  | inr off ↦ absurd (cc (off, h))
  | inl on ↦ elim (Bool-cases w.has_family_store) [
    | inr off ↦ absurd (cc (on, off, h))
    | inl on' ↦ elim (Bool-cases (text_eq token [])) [
      | inl blank ↦ absurd (cc (on, on', blank, h))
      | inr carried ↦ validated-refreshed w l now token s _ g refl (rw (on, on', carried) at h)
    ]
  ]
]
