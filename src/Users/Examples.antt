-- ===== src/Users/Examples.antt =====
-- Users at concrete inputs.
use alluredeck.Prelude.{
  ◌≢◌, refl, inl, true, false, none, some, List, [], ◌∷◌, codes, text_discrete, arith,
}
use alluredeck.Prelude.Ints.{pos, ℤ_discrete}
use alluredeck.Prelude.Decimal.{format_int, format_nat}
use alluredeck.Prelude.Maps.{lookup, insert}
use alluredeck.Session.Tokens.{Claims}
use alluredeck.Session.Refresh.{Wiring, Luck, Grant, refresh, refreshed}
use alluredeck.ActiveCache.{new_active_cache, store_entry}
use alluredeck.Access.{Gate, Answers, by_token, key_not_found, passed, authenticate}
use alluredeck.Users.{
  Account, create_local, insert_row, put_row, email_taken, identity_taken, deactivate, update_where,
  update_found,
}
use alluredeck.Users.Rows.{store_of, get_by_id}
use alluredeck.Users.Unique.{
  Request, creates, upserts, sets_active, table_after, table_after-IsRegister, serve,
}
use alluredeck.Users.Register.{IsRegister}
use alluredeck.Users.Admin.{Server, Parts, Faults, delete_user, delete_loaded, delete_written}
use alluredeck.Users.Deactivated.{delete_user-refused}
use alluredeck.Users.Sessions.{delete_user-not_refreshed}

abbrev requests : List Request
requests =
    sets_active false 9 (pos 1) false
    ∷ upserts false 8 (pos 2) (codes "oidc") (codes "s1") (codes "Carol@x") (codes "Carol")
        (codes "viewer")
    ∷ creates false 7 (pos 1) (codes "carol@x") (codes "Carol") (codes "h1") (codes "editor")
    ∷ []

table_after-IsRegister_example : IsRegister (table_after requests [])
unfolding text_discrete
table_after-IsRegister_example = table_after-IsRegister requests (tt, (refl, (tt, tt)))

abbrev server : Server
server = record {
  accounts =
      table_after
        (creates false 7 (pos 1) (codes "carol@x") (codes "Carol") (codes "h1") (codes "editor")
          ∷ [])
        [];
  keys = [];
  sessions = record { families = []; blacklist = [] };
  cache = store_entry 5 (codes "1") true (new_active_cache 0 0 []);
}

abbrev parts : Parts
parts = record { has_families = true; has_keys = true; has_cache = true }

abbrev no_faults : Faults
no_faults = record {
  get_down = false;
  role_down = false;
  write_down = false;
  families_down = false;
  oidc_families_down = false;
  keys_down = false;
  reload_down = false;
}

abbrev deleted : Server
deleted = (delete_user parts no_faults 10 none (some (pos 1)) server).0

abbrev carol : Account
carol = record {
  email = codes "carol@x";
  name = codes "Carol";
  provider = codes "local";
  provider_sub = [];
  password_hash = codes "h1";
  role = codes "editor";
  is_active = true;
  last_login = none;
  created_at = 7;
  updated_at = 7;
}

abbrev claims : Claims
claims = record {
  token_type = some (codes "access");
  jti = some (codes "j1");
  fam = some (codes "f1");
  exp = some 900;
  sub = some (codes "1");
  provider = some (codes "local");
  role = some (codes "editor");
}

abbrev gate : Gate
gate = record {
  security_enabled = true;
  is_refresh = false;
  has_key_store = true;
  has_active_cache = true;
  hash = λ token. token;
  parse = λ now token. some claims;
}

abbrev answers : Answers
answers = record {
  key_by_hash = λ h. key_not_found;
  users = store_of false false deleted.accounts;
  blacklist = [];
  blacklist_down = false;
}

server-IsRegister : IsRegister server.accounts
server-IsRegister =
    table_after-IsRegister
      (creates false 7 (pos 1) (codes "carol@x") (codes "Carol") (codes "h1") (codes "editor") ∷ [])
      (tt, tt)

delete_user-refused_example :
    (authenticate gate answers 6 (codes "t") deleted.cache).1 ≢ passed (by_token claims)
unfolding table_after serve create_local insert_row put_row email_taken identity_taken lookup insert
    ℤ_discrete text_discrete delete_user delete_loaded delete_written get_by_id deactivate
    update_where update_found format_int format_nat
delete_user-refused_example =
    delete_user-refused parts no_faults 10 1 none carol server gate answers 6 (codes "t")
      (by_token claims) false false server-IsRegister (omega arith) refl refl refl refl refl refl
      (inl (λ h. absurd (cc), refl))

abbrev wiring : Wiring
wiring = record {
  security_enabled = true;
  has_family_store = true;
  parse = λ now token. some claims;
  users = some (store_of false false deleted.accounts);
  access_expiry = 900;
  refresh_expiry = 3600;
}

abbrev luck : Luck
luck = record {
  get_down = false;
  mark_down = false;
  revoke_down = false;
  rotate_down = false;
  blacklist_down = false;
  minted = some (codes "r2");
  csrf_made = true;
}

abbrev grant : Grant
grant = record {
  user_id = codes "1";
  role = codes "editor";
  provider = codes "local";
  family_id = codes "f1";
  jti = codes "r2";
}

delete_user-not_refreshed_example :
    (refresh wiring luck 11 (codes "t") server.sessions).1 ≢ refreshed grant
unfolding table_after serve create_local insert_row put_row email_taken identity_taken lookup insert
    ℤ_discrete text_discrete delete_user delete_loaded delete_written get_by_id deactivate
    update_where update_found format_int format_nat
delete_user-not_refreshed_example =
    delete_user-not_refreshed parts no_faults 10 1 none carol server wiring luck 11 (codes "t")
      server.sessions grant false false server-IsRegister (omega arith) refl refl refl refl
      (inl refl)
