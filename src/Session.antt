-- ===== src/Session.antt =====
-- Login sessions: refresh-token families and revoked tokens, over api/internal/store/types.go,
-- store/pg/refresh_token_families.go, store/pg/blacklist.go, security/jwt.go and handlers/auth.go.
-- A table is the list of its rows by primary key. A time is a number of seconds; the database and the
-- handlers read one clock.
pub mod Families
pub mod Tokens
pub mod Refresh
pub mod Reuse
pub mod Touch
pub mod Grants
pub mod Ended
pub mod Users
mod Examples
use alluredeck.Prelude.{ℕ, List, Option, Text, Bool, text_discrete}
use alluredeck.Prelude.Ints.{ℤ}

-- The status column. `unset` is the empty string, which `Create` replaces.
pub data FamilyStatus : Type 0 where
  unset active compromised revoked : FamilyStatus

unfoldable pub FamilyStatus-discrete : Discrete FamilyStatus
FamilyStatus-discrete = hlevel

pub record Family : Type 0 where
  pub user_id : Text
  pub role : Text
  pub provider : Text
  pub current_jti : Text
  pub previous_jti : Option Text
  pub grace_until : Option ℕ
  pub status : FamilyStatus
  pub created_at : ℕ
  pub updated_at : ℕ
  pub expires_at : ℕ

abbrev pub Families : Type 0
Families = List (Text × Family)

-- The state that the handlers share: the families, and the revoked JTIs with their expiry.
pub record Sessions : Type 0 where
  pub families : Families
  pub blacklist : List (Text × ℕ)

pub data StoreError : Type 0 where
  database not_found family_id_required : StoreError

pub data Stored {ℓ} (A : Type ℓ) : Type ℓ where
  ok : A → Stored A
  err : StoreError → Stored A

-- The columns of a user that the session code reads.
pub record User : Type 0 where
  pub id : ℤ
  pub email : Text
  pub is_active : Bool

pub data Lookup : Type 0 where
  found : User → Lookup
  user_not_found : Lookup
  lookup_failed : Lookup

-- `store.UserStorer`, as far as a session reads it.
pub record UserStore : Type 0 where
  pub get_by_id : ℤ → Lookup
  pub get_by_email : Text → Lookup
