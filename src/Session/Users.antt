-- ===== src/Session/Users.antt =====
-- Ending all sessions of a user, and refusing those of a deactivated one.
use alluredeck.Prelude.{
  ℕ, ◌+◌, ◌≡◌, refl, ◌∙◌, inl, inr, Bool, true, false, ◌&&◌, Option, none, some, [], ◌∷◌, arith,
  Text, text_eq, text_discrete, Bool-cases, if◌then◌else◌, if_pos, if_neg,
}
use alluredeck.Prelude.Maps.{lookup, insert, Distinct}
use alluredeck.Session.{Family, Families, FamilyStatus-discrete, Sessions, ok, revoked}
use alluredeck.Session.Families.{
  is_active_family, revoke_all_for_user, revoked_for, revoke_rows, revoke,
}
use alluredeck.Session.Tokens.{Claims, or_empty}
use alluredeck.Session.Refresh.{
  Wiring, Luck, refused, not_active, refresh, refresh_family, matches, family_user_inactive,
  with_families,
}
use alluredeck.Session.Reuse.{Presents, refresh-Presents}

abbrev pub row_live : Option Family → Bool
row_live none = false
row_live (some f) = is_active_family f

-- Whether the table holds the family as active.
abbrev pub live : Text → Families → Bool
live id t = row_live (lookup text_discrete id t)

abbrev pub revoked_row : ℕ → Text → Option Family → Option Family
revoked_row now user none = none
revoked_row now user (some f) = some (revoked_for now user f)

pub lookup-revoke_rows :
    (now : ℕ) (user : Text) (t : Families) (id : Text)
    → lookup text_discrete id (revoke_rows now user t).0
      ≡ revoked_row now user (lookup text_discrete id t)
unfolding lookup revoke_rows
lookup-revoke_rows now user [] id = refl
lookup-revoke_rows now user ((j, f) ∷ t) id = elim (text_discrete j id) [
  | yes hit ↦ rw (if_pos (text_discrete j id) hit) (rw (if_pos (text_discrete j id) hit))
  | no miss ↦
      rw (if_neg (text_discrete j id) miss)
        (rw (if_neg (text_discrete j id) miss) (lookup-revoke_rows now user t id))
]

pub revoke_rows-Distinct :
    (now : ℕ) (user : Text) (t : Families)
    → Distinct text_discrete t
    → Distinct text_discrete (revoke_rows now user t).0
unfolding revoke_rows
revoke_rows-Distinct now user [] d = tt
revoke_rows-Distinct now user ((j, f) ∷ t) d =
    (rw (lookup-revoke_rows now user t j, d.0) refl, revoke_rows-Distinct now user t d.1)

pub revoked_row-ended :
    (now : ℕ) (user : Text) (o : Option Family)
    → row_live o ≡ false
    → row_live (revoked_row now user o) ≡ false
unfolding FamilyStatus-discrete
revoked_row-ended now user none dead = refl
revoked_row-ended now user (some f) dead =
    elim (Bool-cases (text_eq f.user_id user && is_active_family f)) [
      | inl hit ↦ rw hit
      | inr miss ↦ rw miss dead
    ]

-- The active families of a user, counted.
abbrev pub count_active : Text → Families → ℕ
count_active user [] = 0
count_active user ((_, f) ∷ t) =
    let n = count_active user t in if text_eq f.user_id user && is_active_family f then n + 1 else n

-- After the statement no row of the user is active.
revoked_for_idle :
    (now : ℕ) (user : Text) (f : Family)
    → (text_eq (revoked_for now user f).user_id user && is_active_family (revoked_for now user f))
      ≡ false
unfolding FamilyStatus-discrete
revoked_for_idle now user f = elim (Bool-cases (text_eq f.user_id user && is_active_family f)) [
  | inl hit ↦ rw hit (ground arith)
  | inr miss ↦ rw miss miss
]

count-revoke_rows :
    (now : ℕ) (user : Text) (t : Families)
    → ((revoke_rows now user t).1 ≡ count_active user t)
      × (count_active user (revoke_rows now user t).0 ≡ 0)
unfolding revoke_rows
count-revoke_rows now user [] = (refl, refl)
count-revoke_rows now user ((j, f) ∷ t) =
    let (n, z) = count-revoke_rows now user t in (rw n, rw (revoked_for_idle now user f, z))

-- Revoking a user's sessions, if the statement succeeds, leaves no active family of the user, reports
-- exactly how many there were, and acts on each row for itself: an active row of the user turns
-- revoked and every other row stays.
pub revoke_all_for_user_lem :
    (down : Bool) (now : ℕ) (user : Text) (t t' : Families) (n : ℕ) (id : Text)
    → revoke_all_for_user down now user t ≡ ok (t', n)
    → (n ≡ count_active user t)
      × (count_active user t' ≡ 0)
      × (lookup text_discrete id t' ≡ revoked_row now user (lookup text_discrete id t))
unfolding revoke_all_for_user
revoke_all_for_user_lem true now user t t' n id e = absurd (cc)
revoke_all_for_user_lem false now user t t' n id e =
    let c = count-revoke_rows now user t in
    let r = lookup-revoke_rows now user t id in
    (ground (arith, c), ground (arith, c), ground (arith, r))

-- A refresh for a deactivated or deleted user is refused although its token matches, and revokes the
-- session.
pub refresh-inactive :
    (w : Wiring) (l : Luck) (now : ℕ) (token : Text) (s : Sessions) (c : Claims) (f : Family)
    → Presents w l now token s c f
    → is_active_family f ≡ true
    → matches now (or_empty c.jti) f ≡ true
    → family_user_inactive w.users f ≡ ok true
    → l.revoke_down ≡ false
    → refresh w l now token s ≡ (
      with_families s (
          insert text_discrete
            (or_empty c.fam)
            (record f { status = revoked; updated_at = now })
            s.families),
      refused 401 not_active,
    )
unfolding refresh_family revoke
refresh-inactive w l now token s c f p live fits gone up =
    refresh-Presents w l now token s c f p ∙ rw (live, fits, gone, up, p.stored)
