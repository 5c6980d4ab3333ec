-- ===== src/Oidc/Callback.antt =====
-- The session that a callback opens, and Callback of api/internal/handlers/oidc.go.
use alluredeck.Prelude.{
  ℕ, ◌+◌, ◌/◌, not, Option, none, some, [], Text, text_eq, codes, if◌then◌else◌,
}
use alluredeck.Session.{Family, active}
use alluredeck.Session.Families.{create}
use alluredeck.Session.Refresh.{Grant, with_families, settle}
use alluredeck.Throttle.{second}
use alluredeck.Roles.{resolve_role}
use alluredeck.Users.{Account}
use alluredeck.Oidc.{
  StatePayload, UserInfo, Provider, Config, Chance, CallbackRequest, State, CallbackReply, rejected,
  signed_in, decode_state_cookie, secure_compare, Provisioned, provisioned, not_provisioned,
  provision, exchange,
}

abbrev pub opened : Config → Account → Text → ℕ → Family
opened cfg u jti now = record {
  user_id = u.email;
  role = u.role;
  provider = codes "oidc";
  current_jti = jti;
  previous_jti = none;
  grace_until = none;
  status = active;
  created_at = 0;
  updated_at = 0;
  expires_at = now + cfg.refresh_expiry;
}

abbrev pub granted : Account → Text → Text → Grant
granted u fam jti = record {
  user_id = u.email;
  role = u.role;
  provider = codes "oidc";
  family_id = fam;
  jti = jti;
}

unfoldable pub open_session :
    Config → Chance → ℕ → Account → Option Text → Option Text → State → State × CallbackReply
open_session cfg l now u none jti st = (st, rejected 500)
open_session cfg l now u (some fam) none st = (st, rejected 500)
open_session cfg l now u (some fam) (some jti) st = (
  (if cfg.has_families
      then record st {
        sessions = with_families st.sessions (
            settle st.sessions.families
              (create l.create_down now fam (opened cfg u jti now) st.sessions.families));
      }
      else st),
  if l.csrf_made then signed_in (granted u fam jti) else rejected 500,
)

unfoldable pub admit : Config → Chance → ℕ → State → Provisioned → State × CallbackReply
unfolding open_session
admit cfg l now st (not_provisioned t status) = (record st { accounts = t }, rejected status)
admit cfg l now st (provisioned t u) =
    let st' = record st { accounts = t } in
    if u.is_active then open_session cfg l now u l.family_id l.minted st' else (st', rejected 403)

unfoldable pub exchanged : Config → Chance → ℕ → State → Option UserInfo → State × CallbackReply
unfolding admit provision
exchanged cfg l now st none = (st, rejected 502)
exchanged cfg l now st (some info) =
    admit cfg l (now / second) st
      (provision cfg l (now / second) info (resolve_role info.groups cfg.roles) st.accounts)

unfoldable pub decoded :
    Provider
    → Config
    → Chance
    → ℕ
    → CallbackRequest
    → State
    → Option StatePayload
    → State × CallbackReply
unfolding exchanged exchange
decoded pr cfg l now q st none = (st, rejected 400)
decoded pr cfg l now q st (some p) =
    if not (secure_compare q.state p.state)
    then (st, rejected 400)
    else (if not (text_eq q.error [])
        then (st, rejected 400)
        else exchanged cfg l now st (exchange pr q.code p.code_verifier p.nonce))

abbrev pub cookie_payload : Provider → Config → ℕ → Option Text → Option StatePayload
cookie_payload pr cfg now none = none
cookie_payload pr cfg now (some cookie) = decode_state_cookie pr cfg.secret now cookie

-- `Callback`: a missing cookie is answered as a bad one.
unfoldable pub callback :
    Provider → Config → Chance → ℕ → CallbackRequest → State → State × CallbackReply
unfolding decoded
callback pr cfg l now q st = decoded pr cfg l now q st (cookie_payload pr cfg now q.cookie)
