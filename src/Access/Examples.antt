-- ===== src/Access/Examples.antt =====
-- Requests at concrete inputs.
use alluredeck.Prelude.{◌≡◌, refl, true, false, some, [], codes, text_discrete}
use alluredeck.Prelude.Ints.{pos, parse_int}
use alluredeck.Prelude.Maps.{lookup}
use alluredeck.Prelude.Texts.{cut_prefix}
use alluredeck.Session.{found, user_not_found, User}
use alluredeck.Session.Tokens.{Claims, validate_token, check_claims, is_blacklisted}
use alluredeck.ActiveCache.{
  ActiveCache, new_active_cache, is_active_for_token, is_active_user, lookup_active, cached, load,
  store_entry,
}
use alluredeck.Access.{
  key_not_found, Gate, Answers, by_token, guarded, authenticate, is_key_request, admit_token,
  require_role, role_level, rechecked,
}
use alluredeck.Access.Sound.{IsEntitled}
use alluredeck.Access.Scope.{editor, guarded-passed, HasRole}

abbrev carol : User
carol = record { id = pos 7; email = codes "carol@x"; is_active = true }

abbrev answers : Answers
answers = record {
  key_by_hash = λ h. key_not_found;
  users = record { get_by_id = λ id. found carol; get_by_email = λ mail. user_not_found };
  blacklist = [];
  blacklist_down = false;
}

abbrev admin_claims : Claims
admin_claims = record {
  token_type = some (codes "access");
  jti = some (codes "j1");
  fam = some (codes "f1");
  exp = some 900;
  sub = some (codes "7");
  provider = some (codes "local");
  role = some (codes "admin");
}

abbrev gate : Gate
gate = record {
  security_enabled = true;
  is_refresh = false;
  has_key_store = true;
  has_active_cache = true;
  hash = λ token. token;
  parse = λ now token. some admin_claims;
}

abbrev cache : ActiveCache
cache = new_active_cache 0 0 []

guarded-passed_example :
    (gate.security_enabled ≡ true)
    × IsEntitled gate answers 5 (codes "t") cache (by_token admin_claims)
    × HasRole editor (codes "admin")
unfolding guarded authenticate is_key_request admit_token validate_token check_claims text_discrete
    is_blacklisted is_active_for_token is_active_user lookup_active cached load store_entry
    require_role role_level parse_int rechecked new_active_cache lookup cut_prefix
guarded-passed_example =
    guarded-passed gate answers 5 editor (codes "t") cache (by_token admin_claims) refl
