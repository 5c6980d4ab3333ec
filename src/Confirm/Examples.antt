-- ===== src/Confirm/Examples.antt =====
-- A confirmed write at concrete inputs, with a simple encoding in place of base64url and JSON.
use alluredeck.Prelude.{
  ◌+◌, ◌-◌, ◌/◌, ◌≡◌, refl, ap, ◌∙◌, true, Option, none, some, [], ◌∷◌, ◌++◌, arith, Text, codes,
  ltb, if◌then◌else◌, All, text_discrete,
}
use alluredeck.Prelude.Texts.{cut}
use alluredeck.Signed.{Codec, value, rejected, expired, seal, open_token, sign, seal_body}
use alluredeck.Signed.Round.{IsCodec, NotDot, cut-append, open_token-seal}
use alluredeck.Throttle.{second}
use alluredeck.Confirm.{
  ConfirmState, elicited, no_response, CallRequest, gate_write, confirm_ttl, evaluate_write_gate,
  gate_hashed, first_leg,
}
use alluredeck.Confirm.Gate.{
  IsConfirmed, evaluate_write_gate-IsConfirmed, evaluate_write_gate-asked, state_of,
}

unfoldable shift : Text → Text
shift [] = []
shift (c ∷ s) = (c + 100) ∷ shift s

unfoldable unshift : Text → Text
unshift [] = []
unshift (c ∷ s) = (c - 100) ∷ unshift s

unshift-shift : (s : Text) → unshift (shift s) ≡ s
unfolding shift unshift
unshift-shift [] = refl
unshift-shift (c ∷ s) = ground (arith, unshift-shift s)

shift-NotDot : (s : Text) → All NotDot (shift s)
unfolding shift
shift-NotDot [] = tt
shift-NotDot (c ∷ s) = (ground arith, shift-NotDot s)

unfoldable print : ConfirmState → Text
print v = shift v.kind ++ (b'.' ∷ (shift v.user ++ (b'.' ∷ shift v.args_hash)))

abbrev read_rest : Text → Option (Text × Text) → Option ConfirmState
read_rest kind none = none
read_rest kind (some (user, hash)) = some (state_of (unshift kind) (unshift user) (unshift hash))

abbrev read_first : Option (Text × Text) → Option ConfirmState
read_first none = none
read_first (some (kind, rest)) = read_rest kind (cut b'.' rest)

unfoldable read : Text → Option ConfirmState
read s = read_first (cut b'.' s)

read-print : (v : ConfirmState) → read (print v) ≡ some v
unfolding read print
read-print v =
    rw
      (
        cut-append (shift v.kind) (shift v.user ++ (b'.' ∷ shift v.args_hash))
            (shift-NotDot v.kind),
        cut-append (shift v.user) (shift v.args_hash) (shift-NotDot v.user),
        unshift-shift v.kind,
        unshift-shift v.user,
        unshift-shift v.args_hash,
      )
      refl

abbrev codec : Codec ConfirmState
codec = record {
  mac = λ key message. key ++ message;
  encode = shift;
  decode = λ s. some (unshift s);
  marshal = λ v. some (print v);
  unmarshal = read;
}

codec-IsCodec : IsCodec codec
codec-IsCodec = record {
  decodes = λ s. ap some (unshift-shift s);
  dotless = shift-NotDot;
  unmarshals = λ v s json. ap read (ground (arith, json)) ∙ read-print v;
}

abbrev state : ConfirmState
state = state_of (codes "defect") (codes "7") (codes "x")

-- What the gate hands out at time 0; ten minutes are 600 seconds.
abbrev token : Text
token = seal_body codec (codes "k") 600 (print state)

abbrev first_call : Option CallRequest
first_call = some (record { request_state = []; response = no_response; can_confirm = true })

abbrev retried_call : Option CallRequest
retried_call =
    some
      (record { request_state = token; response = elicited (codes "accept"); can_confirm = true })

open_token-seal_example : open_token codec (codes "k") token 5_000_000_000 ≡ (
    if ltb ((0 + confirm_ttl) / second) (5_000_000_000 / second)
    then rejected expired
    else value state)
unfolding seal sign
open_token-seal_example =
    open_token-seal codec codec-IsCodec (codes "k") state token confirm_ttl 0 5_000_000_000 refl
      (omega arith) (omega arith)

evaluate_write_gate-asked_example :
    evaluate_write_gate codec
      (λ (s : Text). some s)
      (λ s. s)
      retried_call
      (codes "k")
      (codes "defect")
      (codes "7")
      (codes "x")
      5_000_000_000
    ≡ gate_write
unfolding evaluate_write_gate gate_hashed first_leg seal sign text_discrete shift print
evaluate_write_gate-asked_example =
    evaluate_write_gate-asked codec (λ (s : Text). some s) (λ s. s) (codes "k") (codes "defect")
      (codes "7") first_call (codes "x") 0 5_000_000_000 token (codes "accept") true codec-IsCodec
      refl refl (omega arith) (omega arith)

evaluate_write_gate-IsConfirmed_example :
    IsConfirmed codec retried_call
      (codes "k")
      (codes "defect")
      (codes "7")
      (some (codes "x"))
      5_000_000_000
unfolding evaluate_write_gate gate_hashed first_leg seal sign text_discrete shift print
evaluate_write_gate-IsConfirmed_example =
    evaluate_write_gate-IsConfirmed codec (λ (s : Text). some s) (λ s. s) (codes "k")
      (codes "defect") (codes "7") retried_call (codes "x") 5_000_000_000 refl
      (evaluate_write_gate-asked codec (λ (s : Text). some s) (λ s. s) (codes "k") (codes "defect")
        (codes "7") first_call (codes "x") 0 5_000_000_000 token (codes "accept") true codec-IsCodec
        refl refl (omega arith) (omega arith))
