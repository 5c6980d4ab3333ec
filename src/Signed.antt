-- ===== src/Signed.antt =====
-- Authenticated values that leave the MCP server and come back: api/internal/mcp/signed/signed.go.
-- HMAC-SHA256 in hex, unpadded base64url and the JSON of the value are the parameters of `Codec`. A time
-- is a number of nanoseconds since the Unix epoch.
pub mod Round
pub mod Authentic
use alluredeck.Prelude.{
  ℕ, ◌+◌, ◌/◌, Bool, true, false, Option, none, some, List, [], ◌∷◌, ◌++◌, Text, text_eq, codes,
  if◌then◌else◌,
}
use alluredeck.Prelude.Ints.{ℤ, pos, ltz, parse_int}
use alluredeck.Prelude.Decimal.{format_int}
use alluredeck.Prelude.Texts.{cut}
use alluredeck.Throttle.{second}

pub record Codec (A : Type 0) : Type 0 where
  pub mac : Text → Text → Text
  pub encode : Text → Text
  pub decode : Text → Option Text
  pub marshal : A → Option Text
  pub unmarshal : Text → Option A

pub data SignedError : Type 0 where
  malformed_token malformed_expiry invalid_exp expired mismatch malformed_body undecodable_body :
      SignedError

pub data Opened (A : Type 0) : Type 0 where
  value : A → Opened A
  rejected : SignedError → Opened A

-- `now.Unix()`.
abbrev pub unix : ℕ → ℤ
unix now = pos (now / second)

module _ {A : Type 0} (k : Codec A) where
  unfoldable pub sign : Text → Text → ℤ → Text
  sign key payload exp = k.mac key (payload ++ (codes ":exp:" ++ format_int exp))

  -- `none` if the signature is good.
  unfoldable pub verify : Text → Text → ℤ → Text → ℕ → Option SignedError
  unfolding sign
  verify key payload exp sig now =
      if ltz exp (pos 1)
      then some invalid_exp
      else (if ltz exp (unix now)
          then some expired
          else (if text_eq (sign key payload exp) sig then none else some mismatch))

  abbrev pub seal_body : Text → ℕ → Text → Text
  seal_body key exp body =
      k.encode body
      ++ (b'.' ∷ (format_int (pos exp) ++ (b'.' ∷ sign key (k.encode body) (pos exp))))

  abbrev pub seal_marshalled : Text → ℕ → Option Text → Option Text
  seal_marshalled key exp none = none
  seal_marshalled key exp (some body) = some (seal_body key exp body)

  -- `none` if the value has no JSON.
  unfoldable pub seal : Text → A → ℕ → ℕ → Option Text
  seal key v ttl now = seal_marshalled key ((now + ttl) / second) (k.marshal v)

  abbrev pub open_body : Option A → Opened A
  open_body none = rejected undecodable_body
  open_body (some v) = value v

  abbrev pub open_decoded : Option Text → Opened A
  open_decoded none = rejected malformed_body
  open_decoded (some body) = open_body (k.unmarshal body)

  abbrev pub open_verified : Text → Option SignedError → Opened A
  open_verified encoded (some e) = rejected e
  open_verified encoded none = open_decoded (k.decode encoded)

  abbrev pub open_parsed : Text → Text → Text → ℕ → Option ℤ → Opened A
  open_parsed key encoded sig now none = rejected malformed_expiry
  open_parsed key encoded sig now (some exp) =
      open_verified encoded (verify key encoded exp sig now)

  abbrev pub open_rest : Text → Text → ℕ → Option (Text × Text) → Opened A
  open_rest key encoded now none = rejected malformed_token
  open_rest key encoded now (some (raw, sig)) = open_parsed key encoded sig now (parse_int raw)

  abbrev pub open_cut : Text → ℕ → Option (Text × Text) → Opened A
  open_cut key now none = rejected malformed_token
  open_cut key now (some (encoded, rest)) = open_rest key encoded now (cut b'.' rest)

  unfoldable pub open_token : Text → Text → ℕ → Opened A
  open_token key token now = open_cut key now (cut b'.' token)
