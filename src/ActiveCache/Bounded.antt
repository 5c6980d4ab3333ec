-- ===== src/ActiveCache/Bounded.antt =====
-- The size of the cache.
use alluredeck.Prelude.{
  ℕ, suc, ◌+◌, ◌≤◌, ◌<◌, ◌≡◌, refl, sym, subst, ◌⊎◌, inl, inr, Bool, true, false, List, [], ◌∷◌,
  arith, Text, text_discrete, ltb, if◌then◌else◌, length, Bool-cases,
}
use alluredeck.Prelude.Maps.{insert, delete}
use alluredeck.ActiveCache.{
  CacheEntry, Entries, ActiveCache, oldest, evict_oldest, store_entry, invalidate,
}
use alluredeck.ActiveCache.Requests.{
  Request, asks, resolves, purges, serve, serve_all, Learns, Stores, asks-Stores, resolves-Stores,
}

abbrev IsKey : Text → Entries → Type 0
IsKey k [] = ⊥
IsKey k ((j, e) ∷ es) = (j ≡ k) ⊎ IsKey k es

length-delete : (k : Text) (es : Entries) → length (delete text_discrete k es) ≤ length es
unfolding delete
length-delete k [] = omega arith
length-delete k ((j, e) ∷ es) = ground (arith, length-delete k es)

length-delete_key :
    (k : Text) (es : Entries) → IsKey k es → length (delete text_discrete k es) < length es
unfolding delete
length-delete_key k [] h = absurd h
length-delete_key k ((j, e) ∷ es) h = ground (arith, length-delete k es, length-delete_key k es)

length-insert :
    (k : Text) (e : CacheEntry) (es : Entries)
    → length (insert text_discrete k e es) ≤ suc (length es)
unfolding insert
length-insert k e [] = omega arith
length-insert k e ((j, v) ∷ es) = ground (arith, length-insert k e es)

either_of : (b : Bool) (k best x : Text) → x ≡ (if b then k else best) → (k ≡ x) ⊎ (x ≡ best)
either_of true k best x e = inl (sym e)
either_of false k best x e = inr e

-- The key that is chosen is the one found so far or one of the rest.
oldest-IsKey :
    (best : Text) (at : ℕ) (es : Entries)
    → (oldest best at es ≡ best) ⊎ IsKey (oldest best at es) es
unfolding oldest
oldest-IsKey best at [] = inl refl
oldest-IsKey best at ((k, e) ∷ es) =
    elim (oldest-IsKey (if ltb e.expires_at at then k else best)
      (if ltb e.expires_at at then e.expires_at else at) es) [
        | inl own ↦ elim (either_of (ltb e.expires_at at) k best _ own) [
          | inl same ↦ inr (inl same)
          | inr kept ↦ inl kept
        ]
        | inr later ↦ inr (inr later)
      ]

length-evict_oldest : (n : ℕ) (es : Entries) → length es ≤ suc n → length (evict_oldest es) ≤ n
unfolding evict_oldest
length-evict_oldest n [] h = omega arith
length-evict_oldest n ((k, e) ∷ es) h = omega (
  arith,
  h,
  length-delete_key (oldest k e.expires_at es) ((k, e) ∷ es)
      (chosen (oldest-IsKey k e.expires_at es)),
)
  where
    chosen :
        ((oldest k e.expires_at es ≡ k) ⊎ IsKey (oldest k e.expires_at es) es)
        → IsKey (oldest k e.expires_at es) ((k, e) ∷ es)
    chosen (inl own) = inl (sym own)
    chosen (inr later) = inr later

abbrev pub IsBounded : ActiveCache → Type 0
IsBounded c = length c.entries ≤ c.max_entries

store_entry-IsBounded :
    (now : ℕ) (key : Text) (active : Bool) (c : ActiveCache)
    → IsBounded c
    → IsBounded (store_entry now key active c)
unfolding store_entry
store_entry-IsBounded now key active c h =
    let written =
      insert text_discrete key (record { is_active = active; expires_at = now + c.ttl })
        c.entries in
    let grown =
      length-insert key (record { is_active = active; expires_at = now + c.ttl }) c.entries in
    elim (Bool-cases (ltb c.max_entries (length written))) [
      | inl over ↦ rw over (length-evict_oldest c.max_entries written (omega (arith, grown, h)))
      | inr within ↦ rw within (ground arith)
    ]

Stores-IsBounded :
    (c after : ActiveCache) (Learned : Text → Bool → ℕ → Type 0)
    → Stores c after Learned
    → IsBounded c
    → IsBounded after
Stores-IsBounded c after Learned (inl same) h = subst IsBounded (sym same) h
Stores-IsBounded c after Learned (inr (t, k, b, stored, said)) h =
    subst IsBounded (sym stored) (store_entry-IsBounded t k b c h)

-- The cache never holds more entries than its cap, after any lookups of a flag, resolutions of the
-- owner of an API key, and purges.
pub serve_all-IsBounded :
    (rs : List Request) (c : ActiveCache) → IsBounded c → IsBounded (serve_all rs c)
unfolding serve_all serve invalidate
serve_all-IsBounded [] c h = h
serve_all-IsBounded (asks now key answer ∷ rs) c h =
    Stores-IsBounded (serve_all rs c) (serve (asks now key answer) (serve_all rs c))
      (Learns (asks now key answer) (serve_all rs c) (serve_all rs c).ttl)
      (asks-Stores now key answer (serve_all rs c)) (serve_all-IsBounded rs c h)
serve_all-IsBounded (resolves us now name ∷ rs) c h =
    Stores-IsBounded (serve_all rs c) (serve (resolves us now name) (serve_all rs c))
      (Learns (resolves us now name) (serve_all rs c) (serve_all rs c).ttl)
      (resolves-Stores us now name (serve_all rs c)) (serve_all-IsBounded rs c h)
serve_all-IsBounded (purges key ∷ rs) c h =
    omega (arith, length-delete key (serve_all rs c).entries, serve_all-IsBounded rs c h)
