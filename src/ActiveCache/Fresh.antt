-- ===== src/ActiveCache/Fresh.antt =====
-- How old an answer of the cache can be.
use alluredeck.Prelude.{
  ℕ, ◌+◌, ◌<◌, ◌≡◌, ◌≢◌, refl, sym, ◌∙◌, ap, subst, inl, inr, ◌⊎◌, Bool, true, false, Option, none,
  some, List, [], ◌∷◌, arith, Text, text_discrete, ltb, if◌then◌else◌, length, ite,
}
use alluredeck.Prelude.Maps.{lookup, insert, delete, lookup-insert, lookup-delete}
use alluredeck.ActiveCache.{
  CacheEntry, Entries, ActiveCache, live, cached, oldest, evict_oldest, store_entry, invalidate,
}
use alluredeck.ActiveCache.Requests.{
  Request, asks, resolves, purges, serve, serve_all, Learns, Heard, Stores, asks-Stores,
  resolves-Stores,
}

delete-lookup :
    (k q : Text) (e : CacheEntry) (es : Entries)
    → lookup text_discrete q (delete text_discrete k es) ≡ some e
    → (k ≢ q) × (lookup text_discrete q es ≡ some e)
delete-lookup k q e es h =
    elim (text_discrete k q)
        as (λ (d : Dec (k ≡ q)).
          ite d none (lookup text_discrete q es) ≡ some e
          → (k ≢ q) × (lookup text_discrete q es ≡ some e)) [
            | yes same ↦ λ gone. absurd (cc)
            | no other ↦ λ there. (other, there)
          ]
      (sym (lookup-delete text_discrete k q es) ∙ h)

insert-lookup :
    (k q : Text) (v e : CacheEntry) (es : Entries)
    → lookup text_discrete q (insert text_discrete k v es) ≡ some e
    → ((k ≡ q) × (v ≡ e)) ⊎ (lookup text_discrete q es ≡ some e)
insert-lookup k q v e es h =
    elim (text_discrete k q)
        as (λ (d : Dec (k ≡ q)).
          ite d (some v) (lookup text_discrete q es) ≡ some e
          → ((k ≡ q) × (v ≡ e)) ⊎ (lookup text_discrete q es ≡ some e)) [
            | yes same ↦ λ here. inl (same, ground (arith, here))
            | no other ↦ λ there. inr there
          ]
      (sym (lookup-insert text_discrete k q v es) ∙ h)

evict_oldest-lookup :
    (q : Text) (e : CacheEntry) (es : Entries)
    → lookup text_discrete q (evict_oldest es) ≡ some e
    → lookup text_discrete q es ≡ some e
unfolding evict_oldest
evict_oldest-lookup q e [] h = h
evict_oldest-lookup q e ((k, v) ∷ es) h =
    (delete-lookup (oldest k v.expires_at es) q e ((k, v) ∷ es) h).1

if-lookup :
    (b : Bool) (q : Text) (e : CacheEntry) (es : Entries)
    → lookup text_discrete q (if b then evict_oldest es else es) ≡ some e
    → lookup text_discrete q es ≡ some e
if-lookup true q e es h = evict_oldest-lookup q e es h
if-lookup false q e es h = h

abbrev entry : Bool → ℕ → CacheEntry
entry active limit = record { is_active = active; expires_at = limit }

store_entry-lookup :
    (now : ℕ) (key q : Text) (active : Bool) (c : ActiveCache) (e : CacheEntry)
    → lookup text_discrete q (store_entry now key active c).entries ≡ some e
    → ((key ≡ q) × (entry active (now + c.ttl) ≡ e)) ⊎ (lookup text_discrete q c.entries ≡ some e)
unfolding store_entry
store_entry-lookup now key q active c e h =
    insert-lookup key q (entry active (now + c.ttl)) e c.entries (
      if-lookup
        (ltb c.max_entries
          (length (insert text_discrete key (entry active (now + c.ttl)) c.entries)))
        q e _ h)

ttl-store_entry :
    (now : ℕ) (key : Text) (b : Bool) (c : ActiveCache) → (store_entry now key b c).ttl ≡ c.ttl
unfolding store_entry
ttl-store_entry now key b c = refl

ttl-Stores :
    (c after : ActiveCache) (Learned : Text → Bool → ℕ → Type 0)
    → Stores c after Learned
    → after.ttl ≡ c.ttl
ttl-Stores c after Learned (inl same) = ap (λ (x : ActiveCache). x.ttl) same
ttl-Stores c after Learned (inr (t, k, b, stored, said)) =
    ap (λ (x : ActiveCache). x.ttl) stored ∙ ttl-store_entry t k b c

ttl-serve_all : (rs : List Request) (c : ActiveCache) → (serve_all rs c).ttl ≡ c.ttl
unfolding serve_all serve invalidate
ttl-serve_all [] c = refl
ttl-serve_all (asks now key answer ∷ rs) c =
    ttl-Stores (serve_all rs c) (serve (asks now key answer) (serve_all rs c))
      (Learns (asks now key answer) (serve_all rs c) (serve_all rs c).ttl)
      (asks-Stores now key answer (serve_all rs c))
    ∙ ttl-serve_all rs c
ttl-serve_all (resolves us now name ∷ rs) c =
    ttl-Stores (serve_all rs c) (serve (resolves us now name) (serve_all rs c))
      (Learns (resolves us now name) (serve_all rs c) (serve_all rs c).ttl)
      (resolves-Stores us now name (serve_all rs c))
    ∙ ttl-serve_all rs c
ttl-serve_all (purges key ∷ rs) c = ttl-serve_all rs c

-- An entry that stands in the cache after a request stood there before, or is what it learned.
Stores-lookup :
    (c after : ActiveCache) (Learned : Text → Bool → ℕ → Type 0) (key : Text) (e : CacheEntry)
    → Stores c after Learned
    → lookup text_discrete key after.entries ≡ some e
    → Learned key e.is_active e.expires_at ⊎ (lookup text_discrete key c.entries ≡ some e)
Stores-lookup c after Learned key e (inl same) h =
    inr (ap (λ (x : ActiveCache). lookup text_discrete key x.entries) (sym same) ∙ h)
Stores-lookup c after Learned key e (inr (t, k, b, stored, said)) h =
    elim (store_entry-lookup t k key b c e
      (ap (λ (x : ActiveCache). lookup text_discrete key x.entries) (sym stored) ∙ h)) [
        | inr there ↦ inr there
        | inl (same, put) ↦ inl (
            subst (λ (x : CacheEntry). Learned key x.is_active x.expires_at) put
              (subst (λ x. Learned x b (t + c.ttl)) same said))
      ]

serve_all-Heard :
    (rs : List Request) (c : ActiveCache) (key : Text) (e : CacheEntry)
    → c.entries ≡ []
    → lookup text_discrete key (serve_all rs c).entries ≡ some e
    → Heard c key e.is_active e.expires_at rs
unfolding serve_all serve invalidate lookup
serve_all-Heard [] c key e empty h =
    absurd (no_entry (sym (ap (lookup text_discrete key) empty) ∙ h))
  where
    no_entry : none ≢ some e
    no_entry x = absurd (cc)
serve_all-Heard (asks now k answer ∷ rs) c key e empty h =
    elim (Stores-lookup (serve_all rs c) (serve (asks now k answer) (serve_all rs c))
      (Learns (asks now k answer) (serve_all rs c) (serve_all rs c).ttl) key e
      (asks-Stores now k answer (serve_all rs c)) h) [
        | inl said ↦ inl (
            subst (λ n. Learns (asks now k answer) (serve_all rs c) n key e.is_active e.expires_at)
              (ttl-serve_all rs c) said)
        | inr there ↦ inr (serve_all-Heard rs c key e empty there)
      ]
serve_all-Heard (resolves us now name ∷ rs) c key e empty h =
    elim (Stores-lookup (serve_all rs c) (serve (resolves us now name) (serve_all rs c))
      (Learns (resolves us now name) (serve_all rs c) (serve_all rs c).ttl) key e
      (resolves-Stores us now name (serve_all rs c)) h) [
        | inl said ↦ inl (
            subst
              (λ n. Learns (resolves us now name) (serve_all rs c) n key e.is_active e.expires_at)
              (ttl-serve_all rs c) said)
        | inr there ↦ inr (serve_all-Heard rs c key e empty there)
      ]
serve_all-Heard (purges k ∷ rs) c key e empty h =
    let (other, there) = delete-lookup k key e (serve_all rs c).entries h in
    (other, serve_all-Heard rs c key e empty there)

live-some :
    (now : ℕ) (o : Option CacheEntry) (b : Bool)
    → live now o ≡ some b
    → (e : CacheEntry) × (o ≡ some e) × (e.is_active ≡ b) × (now < e.expires_at)
live-some now none b h = absurd (cc)
live-some now (some e) b h = (e, refl, ground (arith, h), ground (arith, h))

-- How stale the cache can be: after any lookups of a flag, resolutions of the owner of an API key and
-- purges, on a cache that starts empty, with the evictions between them, a live answer is what the
-- store said less than the lifetime ago, in a request that asked it, and no purge of the key came
-- after it. What it said is the flag of the user that was asked for under the key, false for one
-- without a row; the flag of the row that an owner's address found, whose id is the key; or that an
-- owner named in the configuration, who is cached as active, has no row.
pub cached-Heard :
    (rs : List Request) (c : ActiveCache) (now : ℕ) (key : Text) (b : Bool)
    → c.entries ≡ []
    → cached now key (serve_all rs c) ≡ some b
    → (limit : ℕ) × (now < limit) × Heard c key b limit rs
unfolding cached
cached-Heard rs c now key b empty h =
    let (e, there, same, within) =
      live-some now (lookup text_discrete key (serve_all rs c).entries) b h in
    (
      e.expires_at,
      within,
      subst (λ (x : Bool). Heard c key x e.expires_at rs) same
          (serve_all-Heard rs c key e empty there),
    )
