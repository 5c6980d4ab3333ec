-- ===== src/Session/Ended.antt =====
-- A session that has ended stays ended, whatever is requested afterwards.
use alluredeck.Prelude.{
  ℕ, ◌≡◌, ◌≢◌, refl, sym, ◌∙◌, inl, inr, Bool, true, false, not, Option, none, some, List, [], ◌∷◌,
  Text, text_eq, text_discrete, Bool-cases, All, ltb, ◌||◌, is_some,
}
use alluredeck.Prelude.Maps.{
  lookup, lookup-insert_self, lookup-insert_ne, insert-Distinct, Distinct, lookup-retain,
  retain-Distinct, kept,
}
use alluredeck.Session.{Family, Families, Sessions}
use alluredeck.Session.Families.{
  is_active_family, create, revoke_all_for_user, delete_expired, table_of,
}
use alluredeck.Session.Refresh.{
  Wiring, Luck, Reply, refused, refreshed, refresh, with_families, settle, logout,
}
use alluredeck.Session.Touch.{Touch, untouched, row, refresh-Touch, logout-Touch}
use alluredeck.Session.Users.{
  lookup-revoke_rows, revoke_rows-Distinct, revoked_row-ended, row_live, live,
}
use mathlib.Core.Bool.{false≢true}
use alluredeck.Session.Grants.{refresh-refreshed}

Touch-Distinct :
    (t t' : Families) → Touch t t' → Distinct text_discrete t → Distinct text_discrete t'
Touch-Distinct t t' (untouched e) d = rw e d
Touch-Distinct t t' (row id f f' held keep u r p e) d =
    rw e (insert-Distinct text_discrete id f' t d)

Touch-ended : (t t' : Families) (fam : Text) → Touch t t' → live fam t ≡ false → live fam t' ≡ false
Touch-ended t t' fam (untouched e) dead = rw e dead
Touch-ended t t' fam (row id f f' held keep u r p e) dead = elim (text_discrete id fam) [
  | yes same ↦
      rw (e, same, lookup-insert_self text_discrete fam f' t)
        (elim (Bool-cases (is_active_family f')) [
          | inr off ↦ off
          | inl on ↦ absurd (cc (keep on, held, same, dead))
        ])
  | no other ↦ rw (e, lookup-insert_ne text_discrete id fam f' t other) dead
]

kept_ended :
    (keep : Family → Bool) (o : Option Family)
    → row_live o ≡ false
    → row_live (kept text_discrete keep o) ≡ false
kept_ended keep none dead = refl
kept_ended keep (some f) dead = elim (Bool-cases (keep f)) [
  | inl stays ↦ rw stays dead
  | inr goes ↦ rw goes
]

-- What a caller may ask of the sessions, each with the time and the failures it meets.
pub data Request : Type 0 where
  refreshes : Luck → ℕ → Text → Request
  logs_out : Luck → ℕ → Text → Text → Request
  logs_in : Bool → ℕ → Text → Family → Request
  revokes_user : Bool → ℕ → Text → Request
  sweeps : Bool → ℕ → Request

-- The sessions after a request, and the answer of a refresh.
unfoldable pub serve : Wiring → Sessions → Request → Sessions × Option Reply
serve w s (refreshes l now token) = let (s', r) = refresh w l now token s in (s', some r)
serve w s (logs_out l now access_token token) = (logout w l now access_token token s, none)
serve w s (logs_in down now id f) =
    (with_families s (settle s.families (create down now id f s.families)), none)
serve w s (revokes_user down now user) =
    (with_families s (table_of s.families (revoke_all_for_user down now user s.families)), none)
serve w s (sweeps down now) =
    (with_families s (settle s.families (delete_expired down now s.families)), none)

unfoldable pub replies : Wiring → Sessions → List Request → List (Option Reply)
replies w s [] = []
replies w s (q ∷ qs) = let (s', r) = serve w s q in r ∷ replies w s' qs

-- No login makes a family of this name: their names are 128 random bits.
abbrev pub NotNaming : Text → Request → Type 0
NotNaming fam (logs_in _ _ id _) = id ≢ fam
NotNaming fam _ = Unit

abbrev pub NotGranted : Text → Option Reply → Type 0
NotGranted fam (some (refreshed g)) = g.family_id ≢ fam
NotGranted fam _ = Unit

record IsEnded (fam : Text) (t : Families) : Type 0 where
  distinct : Distinct text_discrete t
  dead : live fam t ≡ false

Touch-IsEnded : (t t' : Families) (fam : Text) → Touch t t' → IsEnded fam t → IsEnded fam t'
Touch-IsEnded t t' fam touch e = record {
  distinct = Touch-Distinct t t' touch e.distinct;
  dead = Touch-ended t t' fam touch e.dead;
}

create-IsEnded :
    (down : Bool) (now : ℕ) (id : Text) (f : Family) (t : Families) (fam : Text)
    → id ≢ fam
    → IsEnded fam t
    → IsEnded fam (settle t (create down now id f t))
unfolding create
create-IsEnded down now id f t fam other e = elim (Bool-cases (text_eq id [])) [
  | inl blank ↦ rw blank e
  | inr named ↦ elim (Bool-cases (down || is_some (lookup text_discrete id t))) [
    | inl fails ↦ rw (named, fails) e
    | inr works ↦
        rw (named, works)
          (record {
            distinct = insert-Distinct text_discrete id _ t e.distinct;
            dead = rw (lookup-insert_ne text_discrete id fam _ t other) e.dead;
          })
  ]
]

revoke_all-IsEnded :
    (down : Bool) (now : ℕ) (user : Text) (t : Families) (fam : Text)
    → IsEnded fam t
    → IsEnded fam (table_of t (revoke_all_for_user down now user t))
unfolding revoke_all_for_user
revoke_all-IsEnded true now user t fam e = e
revoke_all-IsEnded false now user t fam e = record {
  distinct = revoke_rows-Distinct now user t e.distinct;
  dead = rw lookup-revoke_rows (revoked_row-ended now user (lookup text_discrete fam t) e.dead);
}

delete_expired-IsEnded :
    (down : Bool) (now : ℕ) (t : Families) (fam : Text)
    → IsEnded fam t
    → IsEnded fam (settle t (delete_expired down now t))
unfolding delete_expired
delete_expired-IsEnded true now t fam e = e
delete_expired-IsEnded false now t fam e = record {
  distinct = retain-Distinct text_discrete _ t e.distinct;
  dead =
      rw (lookup-retain text_discrete (λ (f : Family). not (ltb f.expires_at now)) fam t e.distinct)
        (kept_ended _ (lookup text_discrete fam t) e.dead);
}

serve-IsEnded :
    (w : Wiring) (s : Sessions) (q : Request) (fam : Text)
    → NotNaming fam q
    → IsEnded fam s.families
    → IsEnded fam (serve w s q).0.families
unfolding serve
serve-IsEnded w s (refreshes l now token) fam n e =
    Touch-IsEnded _ _ fam (refresh-Touch w l now token s) e
serve-IsEnded w s (logs_out l now access_token token) fam n e =
    Touch-IsEnded _ _ fam (logout-Touch w l now access_token token s) e
serve-IsEnded w s (logs_in down now id f) fam n e = create-IsEnded down now id f s.families fam n e
serve-IsEnded w s (revokes_user down now user) fam n e =
    revoke_all-IsEnded down now user s.families fam e
serve-IsEnded w s (sweeps down now) fam n e = delete_expired-IsEnded down now s.families fam e

refused_ended :
    (w : Wiring) (l : Luck) (now : ℕ) (token : Text) (s : Sessions) (fam : Text) (r : Reply)
    → live fam s.families ≡ false
    → (refresh w l now token s).1 ≡ r
    → NotGranted fam (some r)
refused_ended w l now token s fam (refused code why) dead e = tt
refused_ended w l now token s fam (refreshed g) dead e = λ same.
    let j = refresh-refreshed w l now token s g e in
    let here : lookup text_discrete fam s.families ≡ some j.family =
      rw (← same, ← j.same_family) j.stored in
    false≢true (sym (rw here at dead) ∙ j.earned.live)

serve-NotGranted :
    (w : Wiring) (s : Sessions) (q : Request) (fam : Text)
    → live fam s.families ≡ false
    → NotGranted fam (serve w s q).1
unfolding serve
serve-NotGranted w s (refreshes l now token) fam dead =
    refused_ended w l now token s fam (refresh w l now token s).1 dead refl
serve-NotGranted w s (logs_out l now access_token token) fam dead = tt
serve-NotGranted w s (logs_in down now id f) fam dead = tt
serve-NotGranted w s (revokes_user down now user) fam dead = tt
serve-NotGranted w s (sweeps down now) fam dead = tt

replies_ended :
    (w : Wiring) (s : Sessions) (qs : List Request) (fam : Text)
    → All (NotNaming fam) qs
    → IsEnded fam s.families
    → All (NotGranted fam) (replies w s qs)
unfolding replies
replies_ended w s [] fam n e = tt
replies_ended w s (q ∷ qs) fam n e = (
  serve-NotGranted w s q fam e.dead,
  replies_ended w (serve w s q).0 qs fam n.1 (serve-IsEnded w s q fam n.0 e),
)

-- An ended session is over for good: once a family is compromised, revoked or gone, no sequence of
-- refreshes, logouts, logins into other families, revocations and sweeps, whatever statements fail,
-- has a refresh answered with tokens of that family.
pub replies-NotGranted :
    (w : Wiring) (s : Sessions) (qs : List Request) (fam : Text)
    → Distinct text_discrete s.families
    → live fam s.families ≡ false
    → All (NotNaming fam) qs
    → All (NotGranted fam) (replies w s qs)
replies-NotGranted w s qs fam d dead n =
    replies_ended w s qs fam n (record { distinct = d; dead = dead })
