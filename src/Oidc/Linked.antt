-- ===== src/Oidc/Linked.antt =====
-- Who signs in at an identity provider.
use alluredeck.Prelude.{
  ℕ, ◌/◌, ◌≡◌, refl, sym, ◌∙◌, ap, subst, inl, inr, true, Option, none, some, [], arith, Text,
  text_eq, codes, text_eq_iff, Bool-cases, Option-cases,
}
use alluredeck.Session.Refresh.{Grant}
use alluredeck.Throttle.{second}
use alluredeck.Roles.{resolve_role}
use alluredeck.Users.{Account, Accounts}
use alluredeck.Oidc.{
  StatePayload, UserInfo, Provider, Config, Chance, CallbackRequest, State, signed_in,
  secure_compare, Provisioned, provisioned, not_provisioned, provision, IdToken, TokenClaims,
  extract_claims, exchange,
}
use alluredeck.Oidc.Callback.{
  granted, open_session, admit, exchanged, decoded, cookie_payload, callback,
}
use alluredeck.Oidc.Held.{secure_compare-eq, IsHeld, upserted-IsHeld}

-- A sign-in, from the cookie on.
pub record IsSignedIn (pr : Provider) (cfg : Config) (l : Chance) (now : ℕ) (q : CallbackRequest)
    (st : State) (g : Grant) : Type 0 where
  pub payload : StatePayload
  pub info : UserInfo
  pub user : Account
  pub cookie : cookie_payload pr cfg now q.cookie ≡ some payload
  pub echoed : q.state ≡ payload.state
  pub faultless : q.error ≡ []
  pub token : IdToken
  pub claims : TokenClaims
  pub exchanged_for : pr.id_token q.code payload.code_verifier ≡ some token
  pub same_nonce : token.nonce ≡ payload.nonce
  pub has_claims : token.claims ≡ some claims
  pub named_by : info ≡ extract_claims claims token.subject
  pub held : IsHeld cfg l info st.accounts (callback pr cfg l now q st).0.accounts user
  pub working : user.is_active ≡ true
  pub named : g.user_id ≡ user.email
  pub ranked : g.role ≡ resolve_role info.groups cfg.roles
  pub provider : g.provider ≡ codes "oidc"

exchange-some :
    (pr : Provider) (code verifier nonce : Text) (info : UserInfo)
    → exchange pr code verifier nonce ≡ some info
    → (t : IdToken) × (c : TokenClaims) × (pr.id_token code verifier ≡ some t)
      × (t.nonce ≡ nonce)
      × (t.claims ≡ some c)
      × (info ≡ extract_claims c t.subject)
unfolding exchange
exchange-some pr code verifier nonce info h = elim (Option-cases (pr.id_token code verifier)) [
  | inl fails ↦ absurd (cc (rw fails at h))
  | inr (t, got) ↦ elim (Bool-cases (text_eq t.nonce nonce)) [
    | inr replayed ↦ absurd (cc (rw (got, replayed) at h))
    | inl fresh ↦ elim (Option-cases t.claims) [
      | inl bad ↦ absurd (cc (rw (got, fresh, bad) at h))
      | inr (c, read) ↦
          let e : some (extract_claims c t.subject) ≡ some info = rw (got, fresh, read) at h in
          let same : extract_claims c t.subject ≡ info = ground (arith, e) in
          (t, c, got, (text_eq_iff t.nonce nonce).0 fresh, read, sym same)
    ]
  ]
]

open_session-accounts :
    (cfg : Config) (l : Chance) (now : ℕ) (u : Account) (fam jti : Option Text) (st : State)
    → (open_session cfg l now u fam jti st).0.accounts ≡ st.accounts
unfolding open_session
open_session-accounts cfg l now u none jti st = refl
open_session-accounts cfg l now u (some fam) none st = refl
open_session-accounts cfg l now u (some fam) (some jti) st = elim (Bool-cases cfg.has_families) [
  | inl rotating ↦ rw rotating refl
  | inr plain ↦ rw plain refl
]

open_session-granted :
    (cfg : Config) (l : Chance) (now : ℕ) (u : Account) (fam jti : Option Text) (st : State)
    (g : Grant)
    → (open_session cfg l now u fam jti st).1 ≡ signed_in g
    → (f j : Text) × (granted u f j ≡ g)
unfolding open_session
open_session-granted cfg l now u none jti st g h = absurd (cc)
open_session-granted cfg l now u (some fam) none st g h = absurd (cc)
open_session-granted cfg l now u (some fam) (some jti) st g h = elim (Bool-cases l.csrf_made) [
  | inr fails ↦ absurd (cc (rw fails at h))
  | inl made ↦ (fam, jti, ground (arith, rw made at h))
]

admit-granted :
    (cfg : Config) (l : Chance) (now : ℕ) (st : State) (o : Provisioned) (g : Grant)
    → (admit cfg l now st o).1 ≡ signed_in g
    → (t : Accounts) × (u : Account) × (o ≡ provisioned t u)
      × (u.is_active ≡ true)
      × ((admit cfg l now st o).0.accounts ≡ t)
      × (f : Text) × (j : Text) × (granted u f j ≡ g)
unfolding admit
admit-granted cfg l now st (not_provisioned t status) g h = absurd (cc)
admit-granted cfg l now st (provisioned t u) g h = elim (Bool-cases u.is_active) [
  | inr idle ↦ absurd (cc (rw idle at h))
  | inl works ↦
      let (f, j, e) = open_session-granted cfg l now u l.family_id l.minted _ g (rw works at h) in
      (
        t,
        u,
        refl,
        works,
        rw works
            (open_session-accounts cfg l now u l.family_id l.minted (record st { accounts = t })),
        f,
        j,
        e,
      )
]

-- Soundness of the sign-in: a session is opened only for a callback that echoes the state of an
-- unexpired cookie, without an error of the provider, for the claims of a token that the provider
-- gives for the code under the cookie's verifier, and that has the cookie's nonce; for an active
-- account with the role that the token's groups map to. The account is stored under the provider's
-- name and the token's subject and address, in a row that was this subject's before or under an id
-- that was free; or it was found by the token's address, where the operator allows linking and the
-- token says that the address is verified.
pub callback-IsSignedIn :
    (pr : Provider) (cfg : Config) (l : Chance) (now : ℕ) (q : CallbackRequest) (st : State)
    (g : Grant)
    → (callback pr cfg l now q st).1 ≡ signed_in g
    → IsSignedIn pr cfg l now q st g
unfolding callback decoded exchanged provision
callback-IsSignedIn pr cfg l now q st g h =
    elim (Option-cases (cookie_payload pr cfg now q.cookie)) [
      | inl missing' ↦ absurd (cc (rw missing' at h))
      | inr (p, cookie) ↦ elim (Bool-cases (secure_compare q.state p.state)) [
        | inr other ↦ absurd (cc (rw (cookie, other) at h))
        | inl same ↦ elim (Bool-cases (text_eq q.error [])) [
          | inr fault ↦ absurd (cc (rw (cookie, same, fault) at h))
          | inl clean ↦ elim (Option-cases (exchange pr q.code p.code_verifier p.nonce)) [
            | inl fails ↦ absurd (cc (rw (cookie, same, clean, fails) at h))
            | inr (info, vouched) ↦
                let (t, u, made, works, table, f, j, e) =
                  admit-granted cfg l (now / second) st _ g
                    (rw (cookie, same, clean, vouched) at h) in
                let (rank, held) =
                  upserted-IsHeld cfg l (now / second) info (resolve_role info.groups cfg.roles)
                    st.accounts _ t u refl made in
                let (tok, c, got, fresh, read, same_info) =
                  exchange-some pr q.code p.code_verifier p.nonce info vouched in
                record {
                  token = tok;
                  claims = c;
                  exchanged_for = got;
                  same_nonce = fresh;
                  has_claims = read;
                  named_by = same_info;
                  payload = p;
                  info = info;
                  user = u;
                  cookie = cookie;
                  echoed = secure_compare-eq q.state p.state same;
                  faultless = (text_eq_iff q.error []).0 clean;
                  held =
                      subst (λ x. IsHeld cfg l info st.accounts x u)
                        (sym (rw (cookie, same, clean, vouched) table)) held;
                  working = works;
                  named = ap (λ (x : Grant). x.user_id) (sym e);
                  ranked = ap (λ (x : Grant). x.role) (sym e) ∙ rank;
                  provider = ap (λ (x : Grant). x.provider) (sym e);
                }
          ]
        ]
      ]
    ]
