-- ===== src/ActiveCache.antt =====
-- The cache of users' is_active flags, api/internal/middleware/user_active_cache.go. Requests come one
-- after the other, so no load is in flight when another one starts. The map is an association list;
-- of two entries that expire first at the same time the one nearer the head is evicted, where Go's
-- order is arbitrary. A time is a number of nanoseconds.
pub mod Requests
pub mod Fresh
pub mod Bounded
mod Examples
use alluredeck.Prelude.{
  ℕ, ◌+◌, Bool, true, false, not, ◌&&◌, ◌||◌, Option, none, some, List, [], ◌∷◌, ◌++◌, Text,
  text_eq, text_discrete, codes, ltb, ◌==◌, if◌then◌else◌, length, any, is_some,
}
use alluredeck.Prelude.Ints.{ℤ, pos, parse_int}
use alluredeck.Prelude.Decimal.{format_int}
use alluredeck.Prelude.Maps.{lookup, insert, delete}
use alluredeck.Prelude.Texts.{to_lower}
use alluredeck.Session.{
  Lookup, found, user_not_found, lookup_failed, UserStore, Stored, ok, err, database,
}

pub record CacheEntry : Type 0 where
  pub is_active : Bool
  pub expires_at : ℕ

abbrev pub Entries : Type 0
Entries = List (Text × CacheEntry)

pub record ActiveCache : Type 0 where
  pub ttl : ℕ
  pub max_entries : ℕ
  pub env_users : List Text
  pub entries : Entries

abbrev pub active_ttl : ℕ
active_ttl = 2000000000

-- Empty names are ignored.
unfoldable pub named : List Text → List Text
named [] = []
named (name ∷ names) = let rest = named names in if text_eq name [] then rest else name ∷ rest

unfoldable pub new_active_cache : ℕ → ℕ → List Text → ActiveCache
new_active_cache ttl max_entries env_users = record {
  ttl = if ttl == 0 then active_ttl else ttl;
  max_entries = if max_entries == 0 then 10000 else max_entries;
  env_users = named env_users;
  entries = [];
}

abbrev pub live : ℕ → Option CacheEntry → Option Bool
live now none = none
live now (some e) = if ltb now e.expires_at then some e.is_active else none

unfoldable pub cached : ℕ → Text → ActiveCache → Option Bool
cached now key c = live now (lookup text_discrete key c.entries)

-- The key of the entry that expires first, from the best one found so far.
unfoldable pub oldest : Text → ℕ → Entries → Text
oldest best at [] = best
oldest best at ((k, e) ∷ es) =
    oldest (if ltb e.expires_at at then k else best)
      (if ltb e.expires_at at then e.expires_at else at) es

unfoldable pub evict_oldest : Entries → Entries
evict_oldest [] = []
evict_oldest ((k, e) ∷ es) = delete text_discrete (oldest k e.expires_at es) ((k, e) ∷ es)

unfoldable pub store_entry : ℕ → Text → Bool → ActiveCache → ActiveCache
store_entry now key active c =
    let written =
      insert text_discrete key (record { is_active = active; expires_at = now + c.ttl })
        c.entries in
    record c {
      entries = if ltb c.max_entries (length written) then evict_oldest written else written;
    }

unfoldable pub invalidate : Text → ActiveCache → ActiveCache
invalidate key c = record c { entries = delete text_discrete key c.entries }

-- What the store answers is cached; a failing store is an error and leaves no entry.
unfoldable pub load : ℕ → Text → Lookup → ActiveCache → ActiveCache × Stored Bool
load now key (found u) c = (store_entry now key u.is_active c, ok u.is_active)
load now key user_not_found c = (store_entry now key false c, ok false)
load now key lookup_failed c = (c, err database)

abbrev pub or_load :
    Option Bool → ActiveCache × Stored Bool → ActiveCache → ActiveCache × Stored Bool
or_load (some active) loaded c = (c, ok active)
or_load none loaded c = loaded

unfoldable pub lookup_active : ℕ → Text → Lookup → ActiveCache → ActiveCache × Stored Bool
lookup_active now key answer c = or_load (cached now key c) (load now key answer c) c

abbrev pub by_number : UserStore → ℕ → Text → Option ℤ → ActiveCache → ActiveCache × Stored Bool
by_number us now sub (some id) c = lookup_active now sub (us.get_by_id id) c
by_number us now sub none c = (c, ok true)

unfoldable pub is_active_user : UserStore → ℕ → Text → ActiveCache → ActiveCache × Stored Bool
is_active_user us now sub c = by_number us now sub (parse_int sub) c

abbrev pub oidc_key : Text → Text
oidc_key email = codes "oidc:" ++ to_lower email

unfoldable pub is_active_for_token :
    UserStore → ℕ → Text → Text → ActiveCache → ActiveCache × Stored Bool
is_active_for_token us now sub provider c =
    if text_eq provider (codes "oidc")
    then lookup_active now (oidc_key sub) (us.get_by_email sub) c
    else is_active_user us now sub c

abbrev pub env_user_key : Text → Text
env_user_key name = codes "env:" ++ name

pub record KeyIdentity : Type 0 where
  pub user_id : ℤ
  pub is_active : Bool

-- An owner in the configuration has no row; 0 stands for its id.
abbrev pub env_identity : KeyIdentity
env_identity = record { user_id = pos 0; is_active = true }

abbrev pub identity_of : ℤ → ActiveCache × Stored Bool → ActiveCache × Stored KeyIdentity
identity_of id (c, ok active) = (c, ok (record { user_id = id; is_active = active }))
identity_of id (c, err e) = (c, err e)

abbrev pub is_env_user : Text → ActiveCache → Bool
is_env_user name c = any (text_eq name) c.env_users

unfoldable pub key_owner_row :
    ℕ → Text → Bool → Lookup → ActiveCache → ActiveCache × Stored KeyIdentity
key_owner_row now username env (found u) c = (
  store_entry now (format_int u.id) u.is_active c,
  ok (record { user_id = u.id; is_active = u.is_active }),
)
key_owner_row now username true user_not_found c =
    (store_entry now (env_user_key username) true c, ok env_identity)
key_owner_row now username false user_not_found c =
    (c, ok (record { user_id = pos 0; is_active = false }))
key_owner_row now username env lookup_failed c = (c, err database)

unfoldable pub key_owner_by_email :
    UserStore → ℕ → Text → Bool → ActiveCache → ActiveCache × Stored KeyIdentity
key_owner_by_email us now username env c =
    if env && is_some (cached now (env_user_key username) c)
    then (c, ok env_identity)
    else key_owner_row now username env (us.get_by_email username) c

abbrev pub key_owner :
    UserStore → ℕ → Text → Bool → Option ℤ → ActiveCache → ActiveCache × Stored KeyIdentity
key_owner us now username false (some id) c =
    identity_of id (lookup_active now username (us.get_by_id id) c)
key_owner us now username true (some id) c = key_owner_by_email us now username true c
key_owner us now username env none c = key_owner_by_email us now username env c

unfoldable pub resolve_api_key_username :
    UserStore → ℕ → Text → ActiveCache → ActiveCache × Stored KeyIdentity
resolve_api_key_username us now username c =
    key_owner us now username (is_env_user username c) (parse_int username) c
