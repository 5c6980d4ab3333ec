-- ===== src/Users/Keys.antt =====
-- The api_keys table: api/internal/store/pg/api_key.go and its key_hash index of
-- store/pg/migrations/0016_api_keys.sql. The throttle of the last_used writes keeps the time of the
-- last one by key.
use alluredeck.Prelude.{
  ℕ, ◌+◌, ◌-◌, Bool, true, false, not, ◌&&◌, ◌||◌, Option, none, some, List, [], ◌∷◌, Text, text_eq,
  if◌then◌else◌, is_some, ltb, ◌==◌,
}
use alluredeck.Prelude.Maps.{lookup, insert}
use alluredeck.Access.{ApiKey, KeyLookup, key_found, key_not_found, key_lookup_failed}
use native.Mathlib.Decide.{ℕ_discrete}

pub record StoredKey : Type 0 where
  pub key_hash : Text
  pub key : ApiKey
  pub last_used : Option ℕ

abbrev pub Keys : Type 0
Keys = List (ℕ × StoredKey)

pub data KeysOutcome : Type 0 where
  keys_done : Keys → KeysOutcome
  keys_missing : KeysOutcome
  keys_failed : KeysOutcome

abbrev pub hash_taken : Text → Keys → Bool
hash_taken hash [] = false
hash_taken hash ((i, k) ∷ t) = text_eq k.key_hash hash || hash_taken hash t

-- `Create`; the sequence gives the id.
unfoldable pub create_key : Bool → ℕ → Text → ApiKey → Keys → KeysOutcome
create_key down id hash key t =
    if down || (hash_taken hash t || is_some (lookup ℕ_discrete id t))
    then keys_failed
    else keys_done
        (insert ℕ_discrete id (record { key_hash = hash; key = key; last_used = none }) t)

abbrev pub with_hash : Text → Keys → KeyLookup
with_hash hash [] = key_not_found
with_hash hash ((i, k) ∷ t) =
    let rest = with_hash hash t in if text_eq k.key_hash hash then key_found k.key else rest

unfoldable pub get_by_hash : Bool → Text → Keys → KeyLookup
get_by_hash down hash t = if down then key_lookup_failed else with_hash hash t

abbrev pub is_owned : Text → StoredKey → Bool
is_owned username k = text_eq k.key.username username

-- The rows without those for which the test holds, and the number of rows that are gone.
unfoldable pub drop_rows : (ℕ → StoredKey → Bool) → Keys → Keys × ℕ
drop_rows gone [] = ([], 0)
drop_rows gone ((i, k) ∷ t) =
    let (t', n) = drop_rows gone t in
    (if gone i k then t' else (i, k) ∷ t', if gone i k then n + 1 else n)

-- `Delete` is scoped to the owner.
unfoldable pub delete_key : Bool → ℕ → Text → Keys → KeysOutcome
unfolding drop_rows
delete_key down id username t =
    let (t', n) = drop_rows (λ i k. i == id && is_owned username k) t in
    if down then keys_failed else (if n == 0 then keys_missing else keys_done t')

-- `none` is a failing database.
unfoldable pub delete_all_for_user : Bool → Text → Keys → Option (Keys × ℕ)
unfolding drop_rows
delete_all_for_user down username t =
    if down then none else some (drop_rows (λ i k. is_owned username k) t)

unfoldable pub count_by_username : Text → Keys → ℕ
count_by_username username [] = 0
count_by_username username ((i, k) ∷ t) =
    let n = count_by_username username t in if is_owned username k then n + 1 else n

abbrev pub is_recent : ℕ → ℕ → Option ℕ → Bool
is_recent window now none = false
is_recent window now (some last) = ltb (now - last) window

-- Whether the write is due, and the times of the last writes.
unfoldable pub should_write_last_used : ℕ → ℕ → ℕ → List (ℕ × ℕ) → List (ℕ × ℕ) × Bool
should_write_last_used window now id at =
    if window == 0
    then (at, true)
    else (if is_recent window now (lookup ℕ_discrete id at)
        then (at, false)
        else (insert ℕ_discrete id now at, true))

abbrev pub used_at : ℕ → Option StoredKey → Keys → ℕ → Keys
used_at id none t now = t
used_at id (some k) t now = insert ℕ_discrete id (record k { last_used = some now }) t

unfoldable pub update_last_used : Bool → ℕ → ℕ → ℕ → List (ℕ × ℕ) → Keys → List (ℕ × ℕ) × Keys
unfolding should_write_last_used
update_last_used down window now id at t =
    let (at', due) = should_write_last_used window now id at in
    (at', if not due || down then t else used_at id (lookup ℕ_discrete id t) t now)
