-- ===== src/ActiveCache/Requests.antt =====
-- What the requests and purges of the server do to the cache, and what a request learns from the store.
use alluredeck.Prelude.{
  ℕ, ◌+◌, ◌≡◌, ◌≢◌, refl, inl, inr, ◌⊎◌, Bool, true, false, ◌&&◌, Option, none, some, List, [], ◌∷◌,
  Text, Bool-cases, is_some,
}
use alluredeck.Prelude.Ints.{ℤ, parse_int}
use alluredeck.Prelude.Decimal.{format_int}
use alluredeck.Session.{
  User, Lookup, found, user_not_found, lookup_failed, UserStore, Stored, ok, err,
}
use alluredeck.ActiveCache.{
  ActiveCache, cached, store_entry, invalidate, load, or_load, lookup_active, env_user_key,
  is_env_user, identity_of, key_owner_row, key_owner_by_email, key_owner, resolve_api_key_username,
}

-- A request for the flag cached under a key, with what the store answers if it is asked; the
-- resolution of an API key's owner; or a purge.
pub data Request : Type 0 where
  asks : ℕ → Text → Lookup → Request
  resolves : UserStore → ℕ → Text → Request
  purges : Text → Request

abbrev pub says : Lookup → Option Bool
says (found u) = some u.is_active
says user_not_found = some false
says lookup_failed = none

unfoldable pub serve : Request → ActiveCache → ActiveCache
serve (asks now key answer) c = (lookup_active now key answer c).0
serve (resolves us now username) c = (resolve_api_key_username us now username c).0
serve (purges key) c = invalidate key c

-- The requests with the latest one first.
unfoldable pub serve_all : List Request → ActiveCache → ActiveCache
serve_all [] c = c
serve_all (r ∷ rs) c = serve r (serve_all rs c)

-- The store was asked, as nothing live was cached, and its answer for the key is `b`.
abbrev pub Answers : ℕ → Text → Lookup → ActiveCache → Text → Bool → Type 0
Answers t k answer c key b = (k ≡ key) × (cached t k c ≡ none) × (says answer ≡ some b)

-- What the resolution of a key's owner learns: by number, that user's flag under the name; by address,
-- the flag of the row that is found, under its id; and for a name of the configuration that has no
-- row, that it is active.
abbrev pub OwnerAnswers : UserStore → ℕ → Text → ActiveCache → Text → Bool → Type 0
OwnerAnswers us t name c key b =
    ((id : ℤ) × (parse_int name ≡ some id)
      × (is_env_user name c ≡ false)
      × Answers t name (us.get_by_id id) c key b)
    ⊎ (((u : User) × (us.get_by_email name ≡ found u) × (format_int u.id ≡ key) × (u.is_active ≡ b))
        ⊎ ((us.get_by_email name ≡ user_not_found)
            × (is_env_user name c ≡ true)
            × (env_user_key name ≡ key)
            × (true ≡ b)))

-- The request learns the flag `b` for the key from the store, the lifetime before `limit`.
abbrev pub Learns : Request → ActiveCache → ℕ → Text → Bool → ℕ → Type 0
Learns (asks t k answer) c ttl key b limit = Answers t k answer c key b × (limit ≡ t + ttl)
Learns (resolves us t name) c ttl key b limit = OwnerAnswers us t name c key b × (limit ≡ t + ttl)
Learns (purges k) c ttl key b limit = ⊥

-- One of the requests learned the flag, and no purge of the key came after it.
abbrev pub Heard : ActiveCache → Text → Bool → ℕ → List Request → Type 0
Heard c key b limit [] = ⊥
Heard c key b limit (purges k ∷ rs) = (k ≢ key) × Heard c key b limit rs
Heard c key b limit (asks t k answer ∷ rs) =
    Learns (asks t k answer) (serve_all rs c) c.ttl key b limit ⊎ Heard c key b limit rs
Heard c key b limit (resolves us t name ∷ rs) =
    Learns (resolves us t name) (serve_all rs c) c.ttl key b limit ⊎ Heard c key b limit rs

-- A request leaves the cache as it is, or stores what it learned.
abbrev pub Stores : ActiveCache → ActiveCache → (Text → Bool → ℕ → Type 0) → Type 0
Stores c after Learned =
    (after ≡ c)
    ⊎ ((t : ℕ) × (k : Text) × (b : Bool) × (after ≡ store_entry t k b c) × Learned k b (t + c.ttl))

load-Stores :
    (t : ℕ) (k : Text) (answer : Lookup) (c : ActiveCache) (o : Option Bool)
    → cached t k c ≡ o
    → Stores c
        (or_load o (load t k answer c) c).0
        (λ key b limit. Answers t k answer c key b × (limit ≡ t + c.ttl))
unfolding load
load-Stores t k answer c (some b) h = inl refl
load-Stores t k (found u) c none h = inr (t, k, u.is_active, refl, ((refl, h, refl), refl))
load-Stores t k user_not_found c none h = inr (t, k, false, refl, ((refl, h, refl), refl))
load-Stores t k lookup_failed c none h = inl refl

identity_of-cache : (id : ℤ) (r : ActiveCache × Stored Bool) → (identity_of id r).0 ≡ r.0
identity_of-cache id (c, ok active) = refl
identity_of-cache id (c, err e) = refl

module _ (us : UserStore) (t : ℕ) (name : Text) (c : ActiveCache) where
  abbrev Learned : Text → Bool → ℕ → Type 0
  Learned key b limit = OwnerAnswers us t name c key b × (limit ≡ t + c.ttl)

  row-Stores :
      (env : Bool) (answer : Lookup)
      → is_env_user name c ≡ env
      → us.get_by_email name ≡ answer
      → Stores c (key_owner_row t name env answer c).0 Learned
  unfolding key_owner_row
  row-Stores env (found u) known got =
      inr (t, format_int u.id, u.is_active, refl, (inr (inl (u, got, refl, refl)), refl))
  row-Stores true user_not_found known got =
      inr (t, env_user_key name, true, refl, (inr (inr (got, known, refl, refl)), refl))
  row-Stores false user_not_found known got = inl refl
  row-Stores env lookup_failed known got = inl refl

  by_email-Stores :
      (env : Bool)
      → is_env_user name c ≡ env
      → Stores c (key_owner_by_email us t name env c).0 Learned
  unfolding key_owner_by_email
  by_email-Stores env known = elim (Bool-cases (env && is_some (cached t (env_user_key name) c))) [
    | inl kept ↦ rw kept (inl refl)
    | inr asked ↦ rw asked (row-Stores env (us.get_by_email name) known refl)
  ]

  numbered-Stores :
      (id : ℤ)
      → parse_int name ≡ some id
      → is_env_user name c ≡ false
      → Stores c (identity_of id (lookup_active t name (us.get_by_id id) c)).0 Learned
  unfolding lookup_active
  numbered-Stores id number own =
      rw (identity_of-cache id (lookup_active t name (us.get_by_id id) c))
        (elim (load-Stores t name (us.get_by_id id) c (cached t name c) refl) [
          | inl same ↦ inl same
          | inr (s, k, b, stored, (learned, limit)) ↦
              inr (s, k, b, stored, (inl (id, number, own, learned), limit))
        ])

  owner-Stores :
      (env : Bool) (number : Option ℤ)
      → is_env_user name c ≡ env
      → parse_int name ≡ number
      → Stores c (key_owner us t name env number c).0 Learned
  owner-Stores false (some id) known parsed = numbered-Stores id parsed known
  owner-Stores true (some id) known parsed = by_email-Stores true known
  owner-Stores env none known parsed = by_email-Stores env known

-- Every request that is no purge does so.
pub asks-Stores :
    (t : ℕ) (k : Text) (answer : Lookup) (c : ActiveCache)
    → Stores c (serve (asks t k answer) c) (Learns (asks t k answer) c c.ttl)
unfolding serve lookup_active
asks-Stores t k answer c = load-Stores t k answer c (cached t k c) refl

pub resolves-Stores :
    (us : UserStore) (t : ℕ) (name : Text) (c : ActiveCache)
    → Stores c (serve (resolves us t name) c) (Learns (resolves us t name) c c.ttl)
unfolding serve resolve_api_key_username
resolves-Stores us t name c =
    owner-Stores us t name c (is_env_user name c) (parse_int name) refl refl
