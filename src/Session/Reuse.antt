-- ===== src/Session/Reuse.antt =====
-- Rotation and the detection of stolen refresh tokens.
use alluredeck.Prelude.{
  ℕ, ◌+◌, ◌≤◌, ◌<◌, ◌≡◌, ◌≢◌, refl, ap, ◌∙◌, true, false, some, [], arith, Text, text_eq, codes,
  text_discrete,
}
use alluredeck.Prelude.Maps.{lookup, insert, lookup-insert_self}
use alluredeck.Session.{Family, Sessions, ok, compromised}
use alluredeck.Session.Families.{get_by_id, mark_compromised, rotate, rotated, is_active_family}
use alluredeck.Session.Tokens.{Claims, good, or_empty, validate_token}
use alluredeck.Session.Refresh.{
  Wiring, Luck, Reply, refused, refreshed, session_compromised, matches, family_user_inactive,
  refresh, refresh_validated, refresh_family, with_families,
}

-- The request carries a valid refresh token with the claims `c`, of the family row `f`, and the
-- database answers.
pub record Presents (w : Wiring) (l : Luck) (now : ℕ) (token : Text) (s : Sessions) (c : Claims)
    (f : Family) : Type 0 where
  pub enabled : w.security_enabled ≡ true
  pub rotating : w.has_family_store ≡ true
  pub carried : text_eq token [] ≡ false
  pub valid :
      validate_token w.parse l.blacklist_down now token (codes "refresh") s.blacklist ≡ good c
  pub has_fam : text_eq (or_empty c.fam) [] ≡ false
  pub has_jti : text_eq (or_empty c.jti) [] ≡ false
  pub get_up : l.get_down ≡ false
  pub stored : lookup text_discrete (or_empty c.fam) s.families ≡ some f

module _ (w : Wiring) (l : Luck) (now : ℕ) (token : Text) (s : Sessions) (c : Claims) (f : Family)
    (p : Presents w l now token s c f) where
  open p use {enabled, rotating, carried, valid, has_fam, has_jti, get_up, stored}

  -- Such a request comes down to the decision on the family.
  pub refresh-Presents :
      refresh w l now token s ≡ refresh_family w l now (or_empty c.fam) (or_empty c.jti) f s
  unfolding refresh refresh_validated get_by_id
  refresh-Presents = rw (enabled, rotating, carried, valid, has_fam, has_jti, get_up, stored)

  -- A token of an active session that does not match is refused, and the row turns compromised if the
  -- statement that marks it does not fail.
  pub refresh-reuse :
      is_active_family f ≡ true
      → matches now (or_empty c.jti) f ≡ false
      → l.mark_down ≡ false
      → refresh w l now token s ≡ (
        with_families s (
            insert text_discrete
              (or_empty c.fam)
              (record f { status = compromised; updated_at = now })
              s.families),
        refused 401 session_compromised,
      )
  unfolding refresh_family mark_compromised
  refresh-reuse live stolen up = refresh-Presents ∙ rw (live, stolen, up, stored)

  -- A token that matches is rotated: the reply names the row's user, role and provider, the new JTI
  -- becomes current and the old current one stays good for 30 seconds.
  pub refresh-rotates :
      (new : Text)
      → is_active_family f ≡ true
      → matches now (or_empty c.jti) f ≡ true
      → family_user_inactive w.users f ≡ ok false
      → l.minted ≡ some new
      → l.rotate_down ≡ false
      → l.csrf_made ≡ true
      → refresh w l now token s ≡ (
        with_families s (insert text_discrete (or_empty c.fam) (rotated now new 30 f) s.families),
        refreshed (record {
          user_id = f.user_id;
          role = f.role;
          provider = f.provider;
          family_id = or_empty c.fam;
          jti = new;
        }),
      )
  unfolding refresh_family rotate
  refresh-rotates new live fits working minted up csrf =
      refresh-Presents ∙ rw (live, fits, working, minted, up, stored, csrf)

-- After a rotation the token that was current is neither the current nor, once the grace time is
-- over, the previous one.
rotated_stale :
    (now later : ℕ) (new : Text) (f : Family)
    → f.current_jti ≢ new
    → now + 30 ≤ later
    → matches later f.current_jti (rotated now new 30 f) ≡ false
rotated_stale now later new f fresh late = ground arith

rotated_grace :
    (now later : ℕ) (new : Text) (f : Family)
    → later < now + 30
    → matches later f.current_jti (rotated now new 30 f) ≡ true
rotated_grace now later new f soon = ground arith

module _ (w : Wiring) (l l' : Luck) (now later : ℕ) (token : Text) (s : Sessions) (c : Claims)
    (f : Family) (new : Text) (p : Presents w l now token s c f) (live : is_active_family f ≡ true)
    (current : or_empty c.jti ≡ f.current_jti) (working : family_user_inactive w.users f ≡ ok false)
    (minted : l.minted ≡ some new) (up : l.rotate_down ≡ false) (csrf : l.csrf_made ≡ true)
    (fresh : f.current_jti ≢ new)
    (valid : validate_token w.parse l'.blacklist_down later token (codes "refresh") s.blacklist
      ≡ good c)
    (get_up : l'.get_down ≡ false) where
  -- The sessions after the first use of the token.
  abbrev rotated_sessions : Sessions
  rotated_sessions =
      with_families s (insert text_discrete (or_empty c.fam) (rotated now new 30 f) s.families)

  first_use : (refresh w l now token s).0 ≡ rotated_sessions
  first_use =
      ap (λ (r : Sessions × Reply). r.0)
        (refresh-rotates w l now token s c f p new live (ground (arith, current)) working minted up
          csrf)

  second_Presents : Presents w l' later token rotated_sessions c (rotated now new 30 f)
  second_Presents = record {
    enabled = p.enabled;
    rotating = p.rotating;
    carried = p.carried;
    valid = valid;
    has_fam = p.has_fam;
    has_jti = p.has_jti;
    get_up = get_up;
    stored = lookup-insert_self text_discrete (or_empty c.fam) (rotated now new 30 f) s.families;
  }

  -- A refresh token is good once: used again 30 seconds after its rotation or later, while it still
  -- validates, it is taken for stolen, and the session ends compromised.
  pub refresh_again_compromises :
      l'.mark_down ≡ false
      → now + 30 ≤ later
      → let (s', r) = refresh w l' later token (refresh w l now token s).0 in
        (r ≡ refused 401 session_compromised)
        × (lookup text_discrete (or_empty c.fam) s'.families
            ≡ some (record (rotated now new 30 f) { status = compromised; updated_at = later }))
  refresh_again_compromises mark_up late =
      let stale : matches later (or_empty c.jti) (rotated now new 30 f) ≡ false =
        rw current (rotated_stale now later new f fresh late) in
      let e =
        refresh-reuse w l' later token rotated_sessions c _ second_Presents live stale mark_up in
      rw (first_use, e) (refl, lookup-insert_self text_discrete (or_empty c.fam) _ _)
