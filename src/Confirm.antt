-- ===== src/Confirm.antt =====
-- The confirmation of a write that an MCP client proposes: evaluateWriteGate of
-- api/internal/mcp/tools/confirm.go. The JSON of the arguments and SHA-256 in hex are parameters, as are
-- those of Signed. The prompt, which the code passes on, is left out.
pub mod Gate
mod Examples
use alluredeck.Prelude.{
  ℕ, Bool, true, false, not, ◌||◌, Option, none, some, [], Text, text_eq, codes, if◌then◌else◌,
}
use alluredeck.Signed.{Codec, Opened, value, rejected, SignedError, seal, open_token}

pub record ConfirmState : Type 0 where
  pub kind : Text
  pub user : Text
  pub args_hash : Text

-- What the client has put under the key "confirm".
pub data Response : Type 0 where
  no_response : Response
  unexpected_type : Response
  elicited : Text → Response

-- The parts of a call that the gate reads.
pub record CallRequest : Type 0 where
  pub request_state : Text
  pub response : Response
  pub can_confirm : Bool

pub data GateError : Type 0 where
  hash_failed seal_failed different_tool different_user arguments_changed response_missing
        response_type :
      GateError
  state_rejected : SignedError → GateError

-- `gate_ask` has the signed state.
pub data WriteGate : Type 0 where
  gate_write : WriteGate
  gate_ask : Text → WriteGate
  gate_declined : WriteGate
  gate_error : GateError → WriteGate

-- Ten minutes.
abbrev pub confirm_ttl : ℕ
confirm_ttl = 600_000_000_000

abbrev pub client_can_confirm : Option CallRequest → Bool
client_can_confirm none = false
client_can_confirm (some req) = req.can_confirm

abbrev pub answered : Response → WriteGate
answered no_response = gate_error response_missing
answered unexpected_type = gate_error response_type
answered (elicited action) = if text_eq action (codes "accept") then gate_write else gate_declined

-- The retry leg, once the state is opened.
unfoldable pub retry : Text → Text → Text → Response → Opened ConfirmState → WriteGate
retry kind user hash answer (rejected e) = gate_error (state_rejected e)
retry kind user hash answer (value s) =
    if not (text_eq s.kind kind)
    then gate_error different_tool
    else (if not (text_eq s.user user)
        then gate_error different_user
        else (if not (text_eq s.args_hash hash)
            then gate_error arguments_changed
            else answered answer))

abbrev pub asked : Option Text → WriteGate
asked none = gate_error seal_failed
asked (some token) = gate_ask token

module _ (k : Codec ConfirmState) (key : Text) where
  unfoldable pub first_leg : Text → Text → Text → ℕ → Bool → WriteGate
  first_leg kind user hash now able =
      if text_eq key [] || not able
      then gate_write
      else asked
          (seal k key (record { kind = kind; user = user; args_hash = hash }) confirm_ttl now)

  unfoldable pub gate_hashed : Option CallRequest → Text → Text → Text → ℕ → WriteGate
  unfolding retry first_leg
  gate_hashed none kind user hash now = first_leg kind user hash now (client_can_confirm none)
  gate_hashed (some req) kind user hash now =
      if text_eq req.request_state []
      then first_leg kind user hash now (client_can_confirm (some req))
      else retry kind user hash req.response (open_token k key req.request_state now)

  abbrev pub with_hash : Option CallRequest → Text → Text → ℕ → Option Text → WriteGate
  with_hash req kind user now none = gate_error hash_failed
  with_hash req kind user now (some hash) = gate_hashed req kind user hash now

-- `hashArgs`: `none` if the arguments have no JSON.
abbrev pub hash_args : {B : Type 0} → (B → Option Text) → (Text → Text) → B → Option Text
hash_args marshal_args digest args = digested digest (marshal_args args)
  where
    digested : (Text → Text) → Option Text → Option Text
    digested digest none = none
    digested digest (some body) = some (digest body)

module _ {B : Type 0} (k : Codec ConfirmState) (marshal_args : B → Option Text)
    (digest : Text → Text) where
  unfoldable pub evaluate_write_gate : Option CallRequest → Text → Text → Text → B → ℕ → WriteGate
  unfolding gate_hashed
  evaluate_write_gate req key kind user args now =
      with_hash k key req kind user now (hash_args marshal_args digest args)
