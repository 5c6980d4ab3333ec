-- ===== src/Users/Unique.antt =====
-- No two users share an address.
use alluredeck.Prelude.{
  ℕ, ◌≡◌, refl, Bool, true, false, List, [], ◌∷◌, Text, text_eq, codes, text_discrete, All,
}
use alluredeck.Prelude.Ints.{ℤ}
use alluredeck.Prelude.Maps.{lookup}
use alluredeck.Users.{
  Accounts, Written, duplicate_entry, create_local, identity_row, upsert_by_oidc, relink_oidc,
  update_role, update_active, update_profile, update_password_hash, update_last_login, deactivate,
}
use alluredeck.Users.Register.{
  IsRegister, settled, insert_row-IsRegister, update_where-IsRegister, identity_row-real,
  upsert_row-IsRegister,
}

-- What the handlers ask of the table, each with whether the database fails it.
pub data Request : Type 0 where
  creates : Bool → ℕ → ℤ → Text → Text → Text → Text → Request
  upserts : Bool → ℕ → ℤ → Text → Text → Text → Text → Text → Request
  relinks : Bool → ℕ → ℤ → Text → Text → Request
  sets_role : Bool → ℕ → ℤ → Text → Request
  sets_active : Bool → ℕ → ℤ → Bool → Request
  sets_name : Bool → ℕ → ℤ → Text → Request
  sets_hash : Bool → ℕ → ℤ → Text → Request
  logs_in : Bool → ℕ → ℤ → Request
  deactivates : Bool → ℕ → ℤ → Request

unfoldable pub serve : Request → Accounts → Written
serve (creates down now id email name hash role) = create_local down now id email name hash role
serve (upserts down now id provider sub email name role) =
    upsert_by_oidc down now id provider sub email name role
serve (relinks down now id provider sub) = relink_oidc down now id provider sub
serve (sets_role down now id role) = update_role down now id role
serve (sets_active down now id active) = update_active down now id active
serve (sets_name down now id name) = update_profile down now id name
serve (sets_hash down now id hash) = update_password_hash down now id hash
serve (logs_in down now id) = update_last_login down now id
serve (deactivates down now id) = deactivate down now id

-- The table after the requests, the latest one first; a refused one leaves it.
unfoldable pub table_after : List Request → Accounts → Accounts
table_after [] t = t
table_after (q ∷ qs) t = let before = table_after qs t in settled before (serve q before)

-- The provider of an outside login is not that of the configuration's users.
abbrev pub NotEnv : Request → Type 0
NotEnv (upserts _ _ _ provider _ _ _ _) = text_eq provider (codes "env") ≡ false
NotEnv (relinks _ _ _ provider _) = text_eq provider (codes "env") ≡ false
NotEnv _ = Unit

create_local-IsRegister :
    (down : Bool) (now : ℕ) (id : ℤ) (email name hash role : Text) (t : Accounts)
    → IsRegister t
    → IsRegister (settled t (create_local down now id email name hash role t))
unfolding create_local text_discrete
create_local-IsRegister true now id email name hash role t reg = reg
create_local-IsRegister false now id email name hash role t reg =
    insert_row-IsRegister duplicate_entry duplicate_entry id _ t reg refl

upsert_by_oidc-IsRegister :
    (down : Bool) (now : ℕ) (id : ℤ) (provider sub email name role : Text) (t : Accounts)
    → text_eq provider (codes "env") ≡ false
    → IsRegister t
    → IsRegister (settled t (upsert_by_oidc down now id provider sub email name role t))
unfolding upsert_by_oidc
upsert_by_oidc-IsRegister true now id provider sub email name role t real reg = reg
upsert_by_oidc-IsRegister false now id provider sub email name role t real reg =
    upsert_row-IsRegister now id provider sub email name role (identity_row provider sub t) t real
      (λ j b here. identity_row-real provider sub j b t here real) reg

pub serve-IsRegister :
    (q : Request) (t : Accounts) → NotEnv q → IsRegister t → IsRegister (settled t (serve q t))
unfolding serve relink_oidc update_role update_active update_profile update_password_hash
    update_last_login deactivate
serve-IsRegister (creates down now id email name hash role) t h reg =
    create_local-IsRegister down now id email name hash role t reg
serve-IsRegister (upserts down now id provider sub email name role) t h reg =
    upsert_by_oidc-IsRegister down now id provider sub email name role t h reg
serve-IsRegister (relinks down now id provider sub) t h reg =
    update_where-IsRegister down id _ t (λ a _. h) reg
serve-IsRegister (sets_role down now id role) t h reg =
    update_where-IsRegister down id _ t (λ a r. r) reg
serve-IsRegister (sets_active down now id active) t h reg =
    update_where-IsRegister down id _ t (λ a r. r) reg
serve-IsRegister (sets_name down now id name) t h reg =
    update_where-IsRegister down id _ t (λ a r. r) reg
serve-IsRegister (sets_hash down now id hash) t h reg =
    update_where-IsRegister down id _ t (λ a r. r) reg
serve-IsRegister (logs_in down now id) t h reg = update_where-IsRegister down id _ t (λ a r. r) reg
serve-IsRegister (deactivates down now id) t h reg =
    update_where-IsRegister down id _ t (λ a r. r) reg

-- One user per address: after any statements on the users table, failed ones included, no two rows
-- have one id, or addresses that differ in case only, whether they are active or not, and no row claims to be a
-- user of the configuration; provided that no outside login does.
pub table_after-IsRegister : (qs : List Request) → All NotEnv qs → IsRegister (table_after qs [])
unfolding table_after lookup
table_after-IsRegister [] h = record {
  keyed = tt;
  real = λ id a found. absurd (cc);
  single = λ i j a b found. absurd (cc);
}
table_after-IsRegister (q ∷ qs) h =
    serve-IsRegister q (table_after qs []) h.0 (table_after-IsRegister qs h.1)
