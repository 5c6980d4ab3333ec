-- ===== src/ActiveCache/Examples.antt =====
-- A cache of one entry, with a lifetime of ten.
use alluredeck.Prelude.{ℕ, ◌<◌, refl, true, [], ◌∷◌, arith, codes, text_discrete, List}
use alluredeck.Prelude.Ints.{pos, parse_int}
use alluredeck.Prelude.Decimal.{format_int, format_nat}
use alluredeck.Prelude.Maps.{lookup, insert, delete}
use alluredeck.Session.{Lookup, found, UserStore}
use alluredeck.ActiveCache.{
  ActiveCache, resolve_api_key_username, key_owner_by_email, key_owner_row, cached, evict_oldest,
  store_entry, load, lookup_active, invalidate,
}
use alluredeck.ActiveCache.Requests.{Request, asks, resolves, purges, Heard, serve, serve_all}
use alluredeck.ActiveCache.Fresh.{cached-Heard}
use alluredeck.ActiveCache.Bounded.{IsBounded, serve_all-IsBounded}

abbrev small : ActiveCache
small = record { ttl = 10; max_entries = 1; env_users = []; entries = [] }

abbrev active_user : Lookup
active_user = found (record { id = pos 7; email = codes "a@b"; is_active = true })

abbrev users : UserStore
users = record { get_by_id = λ id. active_user; get_by_email = λ address. active_user }

abbrev requests : List Request
requests =
    resolves users 105 (codes "a@b") ∷ asks 100 (codes "7") active_user ∷ purges (codes "7") ∷ []

cached-Heard_example : (limit : ℕ) × (109 < limit) × Heard small (codes "7") true limit requests
unfolding resolve_api_key_username key_owner_by_email key_owner_row parse_int format_int format_nat
    cached serve_all serve lookup_active load store_entry lookup insert text_discrete evict_oldest
    invalidate delete
cached-Heard_example = cached-Heard requests small 109 (codes "7") true refl refl

serve_all-IsBounded_example :
    IsBounded (serve_all (asks 105 (codes "8") active_user ∷ requests) small)
serve_all-IsBounded_example =
    serve_all-IsBounded (asks 105 (codes "8") active_user ∷ requests) small (omega arith)
