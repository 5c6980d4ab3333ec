-- ===== src/Oidc/Examples.antt =====
-- A sign-in at concrete inputs: the provider's address belongs to a local account.
use alluredeck.Prelude.{refl, true, false, none, some, [], ◌∷◌, codes, text_discrete}
use alluredeck.Prelude.Ints.{pos, ℤ_discrete}
use alluredeck.Prelude.Maps.{lookup, insert}
use alluredeck.Prelude.Texts.{to_lower}
use alluredeck.Session.Refresh.{Grant}
use alluredeck.Roles.{resolve_role, scan_groups}
use alluredeck.Users.{
  Account, relink_oidc, update_where, update_found, put_row, insert_row, email_taken,
  identity_taken, upsert_by_oidc, upsert_row,
}
use alluredeck.Users.Rows.{get_by_email, first_by_email}
use alluredeck.Oidc.{
  StatePayload, word, TokenClaims, exchange, extract_claims, group_names, Provider, Config, Chance,
  CallbackRequest, State, decode_state_cookie, secure_compare, provision, upserted,
  handle_email_collision, link_row,
}
use alluredeck.Oidc.Callback.{granted, callback, decoded, exchanged, admit, open_session}
use alluredeck.Oidc.Linked.{IsSignedIn, callback-IsSignedIn}

abbrev payload : StatePayload
payload = record {
  state = codes "s";
  nonce = codes "n";
  code_verifier = codes "v";
  expires_at = 300;
}

abbrev claims : TokenClaims
claims = record {
  email = some (codes "Carol@x");
  email_verified = word (codes "true");
  name = some (codes "Carol");
  overage = false;
  groups = some (codes "ops") ∷ none ∷ [];
}

abbrev provider : Provider
provider = record {
  encrypt = λ secret p. p.state;
  decrypt = λ secret cookie. some payload;
  id_token = λ code verifier.
      some (record { nonce = codes "n"; subject = codes "sub1"; claims = some claims });
}

abbrev config : Config
config = record {
  secret = codes "0123456789abcdef";
  roles = record {
    admin_groups = codes "ops" ∷ [];
    editor_groups = [];
    default_role = codes "viewer";
  };
  auto_link_by_email = true;
  has_families = true;
  refresh_expiry = 600;
}

abbrev chance : Chance
chance = record {
  new_id = pos 2;
  upsert_down = false;
  email_down = false;
  relink_down = false;
  create_down = false;
  family_id = some (codes "f1");
  minted = some (codes "r1");
  csrf_made = true;
}

abbrev carol : Account
carol = record {
  email = codes "carol@x";
  name = codes "Carol";
  provider = codes "local";
  provider_sub = [];
  password_hash = codes "h1";
  role = codes "editor";
  is_active = true;
  last_login = none;
  created_at = 7;
  updated_at = 7;
}

abbrev start : State
start = record {
  accounts = (pos 1, carol) ∷ [];
  sessions = record { families = []; blacklist = [] };
}

abbrev request : CallbackRequest
request = record { cookie = some (codes "s"); state = codes "s"; error = []; code = codes "c" }

abbrev grant : Grant
grant = granted (record carol { role = codes "admin" }) (codes "f1") (codes "r1")

callback-IsSignedIn_example : IsSignedIn provider config chance 5 request start grant
unfolding callback exchange extract_claims group_names decoded exchanged decode_state_cookie
    secure_compare provision upserted handle_email_collision link_row admit open_session
    text_discrete to_lower get_by_email first_by_email relink_oidc update_where update_found put_row
    insert_row email_taken identity_taken upsert_by_oidc upsert_row resolve_role scan_groups lookup
    insert ℤ_discrete
callback-IsSignedIn_example = callback-IsSignedIn provider config chance 5 request start grant refl
