-- ===== src/Confirm/Gate.antt =====
-- When a proposed write is performed.
use alluredeck.Prelude.{
  ℕ, ◌+◌, ◌/◌, ◌<◌, ◌≤◌, ◌^◌, ◌≡◌, ◌≢◌, refl, ◌∙◌, ap, Bool, true, false, not, ◌||◌, Option, none,
  some, [], arith, Text, text_eq, codes, ltb, text_eq_iff, if◌then◌else◌, Bool-cases, Option-cases,
  inl, inr,
}
use alluredeck.Signed.{Codec, Opened, value, rejected, open_token, seal}
use alluredeck.Signed.Round.{IsCodec, open_token-seal}
use alluredeck.Signed.Authentic.{IsAuthentic, open_token-IsAuthentic}
use alluredeck.Throttle.{second}
use alluredeck.Confirm.{
  ConfirmState, Response, elicited, no_response, unexpected_type, CallRequest, gate_write, gate_ask,
  gate_declined, confirm_ttl, client_can_confirm, answered, retry, first_leg, gate_hashed,
  hash_args, evaluate_write_gate, asked,
}

abbrev pub state_of : Text → Text → Text → ConfirmState
state_of kind user hash = record { kind = kind; user = user; args_hash = hash }

not_eq : (a b : Text) → not (text_eq a b) ≡ false → a ≡ b
not_eq a b h = (text_eq_iff a b).0 (ground (arith, h))

answered-write : (r : Response) → answered r ≡ gate_write → r ≡ elicited (codes "accept")
answered-write no_response h = absurd (cc)
answered-write unexpected_type h = absurd (cc)
answered-write (elicited action) h = elim (Bool-cases (text_eq action (codes "accept"))) [
  | inl yes' ↦ ap elicited ((text_eq_iff action (codes "accept")).0 yes')
  | inr no' ↦ absurd (cc (rw no' at h))
]

retry-write :
    (kind user hash : Text) (r : Response) (o : Opened ConfirmState)
    → retry kind user hash r o ≡ gate_write
    → (o ≡ value (state_of kind user hash)) × (r ≡ elicited (codes "accept"))
unfolding retry
retry-write kind user hash r (rejected e) h = absurd (cc)
retry-write kind user hash r (value s) h = elim (Bool-cases (not (text_eq s.kind kind))) [
  | inl other ↦ absurd (cc (rw other at h))
  | inr k ↦ elim (Bool-cases (not (text_eq s.user user))) [
    | inl other ↦ absurd (cc (rw (k, other) at h))
    | inr u ↦ elim (Bool-cases (not (text_eq s.args_hash hash))) [
      | inl other ↦ absurd (cc (rw (k, u, other) at h))
      | inr a ↦ (
        rw (← not_eq s.kind kind k, ← not_eq s.user user u, ← not_eq s.args_hash hash a) refl,
        answered-write r (rw (k, u, a) at h),
      )
    ]
  ]
]

asked-write : (o : Option Text) → asked o ≢ gate_write
asked-write none h = absurd (cc)
asked-write (some t) h = absurd (cc)

asked-ask : (o : Option Text) (token : Text) → asked o ≡ gate_ask token → o ≡ some token
asked-ask none token h = absurd (cc)
asked-ask (some t) token h = ground (arith, h)

answered-ask : (r : Response) (token : Text) → answered r ≢ gate_ask token
answered-ask no_response token h = absurd (cc)
answered-ask unexpected_type token h = absurd (cc)
answered-ask (elicited action) token h = elim (Bool-cases (text_eq action (codes "accept"))) [
  | inl yes' ↦ absurd (cc (rw yes' at h))
  | inr no' ↦ absurd (cc (rw no' at h))
]

-- The retry leg never asks again.
retry-ask :
    (kind user hash : Text) (r : Response) (o : Opened ConfirmState) (token : Text)
    → retry kind user hash r o ≢ gate_ask token
unfolding retry
retry-ask kind user hash r (rejected e) token h = absurd (cc)
retry-ask kind user hash r (value s) token h = elim (Bool-cases (not (text_eq s.kind kind))) [
  | inl other ↦ absurd (cc (rw other at h))
  | inr k ↦ elim (Bool-cases (not (text_eq s.user user))) [
    | inl other ↦ absurd (cc (rw (k, other) at h))
    | inr u ↦ elim (Bool-cases (not (text_eq s.args_hash hash))) [
      | inl other ↦ absurd (cc (rw (k, u, other) at h))
      | inr a ↦ answered-ask r token (rw (k, u, a) at h)
    ]
  ]
]

in_time : (m n : ℕ) → m ≤ n → ltb n m ≡ false
in_time m n h = ground arith

-- A write that the user has confirmed: the client brings back a state that this key signed for the
-- same tool, user and arguments less than the lifetime ago, and the user's answer is to accept.
pub record IsConfirmed (k : Codec ConfirmState) (req : Option CallRequest) (key kind user : Text)
    (hash : Option Text) (now : ℕ) : Type 0 where
  pub call : CallRequest
  pub fingerprint : Text
  pub made : req ≡ some call
  pub hashed : hash ≡ some fingerprint
  pub authentic : IsAuthentic k key call.request_state now (state_of kind user fingerprint)
  pub accepted : call.response ≡ elicited (codes "accept")

module _ {B : Type 0} (k : Codec ConfirmState) (marshal_args : B → Option Text)
    (digest : Text → Text) (key kind user : Text) where
  gate_hashed-write :
      (req : Option CallRequest) (hash : Text) (now : ℕ)
      → (text_eq key [] || not (client_can_confirm req)) ≡ false
      → gate_hashed k key req kind user hash now ≡ gate_write
      → (call : CallRequest) × (req ≡ some call)
        × (open_token k key call.request_state now ≡ value (state_of kind user hash))
        × (call.response ≡ elicited (codes "accept"))
  unfolding gate_hashed first_leg
  gate_hashed-write none hash now able h = absurd (asked-write _ (rw able at h))
  gate_hashed-write (some req) hash now able h = elim (Bool-cases (text_eq req.request_state [])) [
    | inl first ↦ absurd (asked-write _ (rw (first, able) at h))
    | inr back ↦
        let (opened, accepted) = retry-write kind user hash req.response _ (rw back at h) in
        (req, refl, opened, accepted)
  ]

  -- No write without consent: with a signing key and a client that can be asked, a write goes ahead only
  -- on the retry of a confirmed call: its state carries this key's signature of a payload and a time
  -- that has not passed, the payload is the tool, the user and the fingerprint of the very arguments
  -- of this call, and the user's answer is to accept.
  pub evaluate_write_gate-IsConfirmed :
      (req : Option CallRequest) (args : B) (now : ℕ)
      → (text_eq key [] || not (client_can_confirm req)) ≡ false
      → evaluate_write_gate k marshal_args digest req key kind user args now ≡ gate_write
      → IsConfirmed k req key kind user (hash_args marshal_args digest args) now
  unfolding evaluate_write_gate
  evaluate_write_gate-IsConfirmed req args now able h =
      elim (Option-cases (hash_args marshal_args digest args)) [
        | inl bad ↦ absurd (cc (rw bad at h))
        | inr (hash, made) ↦
            let (call, same, opened, accepted) =
              gate_hashed-write req hash now able (rw made at h) in
            record {
              call = call;
              fingerprint = hash;
              made = same;
              hashed = made;
              authentic =
                  open_token-IsAuthentic k key call.request_state now (state_of kind user hash)
                    opened;
              accepted = accepted;
            }
      ]

  first_leg-ask :
      (hash : Text) (now : ℕ) (able : Bool) (token : Text)
      → first_leg k key kind user hash now able ≡ gate_ask token
      → seal k key (state_of kind user hash) confirm_ttl now ≡ some token
  unfolding first_leg
  first_leg-ask hash now able token h = elim (Bool-cases (text_eq key [] || not able)) [
    | inl writes ↦ absurd (cc (rw writes at h))
    | inr asks ↦
        asked-ask (seal k key (state_of kind user hash) confirm_ttl now) token (rw asks at h)
  ]

  gate_hashed-ask :
      (req : Option CallRequest) (hash : Text) (now : ℕ) (token : Text)
      → gate_hashed k key req kind user hash now ≡ gate_ask token
      → seal k key (state_of kind user hash) confirm_ttl now ≡ some token
  unfolding gate_hashed
  gate_hashed-ask none hash now token h = first_leg-ask hash now (client_can_confirm none) token h
  gate_hashed-ask (some req) hash now token h = elim (Bool-cases (text_eq req.request_state [])) [
    | inl first ↦ first_leg-ask hash now (client_can_confirm (some req)) token (rw first at h)
    | inr back ↦ absurd (retry-ask kind user hash req.response _ token (rw back at h))
  ]

  retried :
      (hash token action : Text) (can : Bool) (later : ℕ)
      → text_eq token [] ≡ false
      → open_token k key token later ≡ value (state_of kind user hash)
      → gate_hashed k key
          (some (record { request_state = token; response = elicited action; can_confirm = can }))
          kind
          user
          hash
          later
        ≡ (if text_eq action (codes "accept") then gate_write else gate_declined)
  unfolding gate_hashed retry
  retried hash token action can later carried opened =
      rw (carried, opened, self kind, self user, self hash) refl
    where
      self : (t : Text) → text_eq t t ≡ true
      self t = (text_eq_iff t t).1 refl

  -- The confirmation round trip: when the gate asks, the same call with the state that it handed out
  -- and the user's answer is decided by that answer alone, until the second in which ten minutes have
  -- passed is over: accepting performs the write, any other answer declines it; for encodings that
  -- are decoded again and hold no dot, a state that is not empty, and a time limit below 2^63 seconds.
  pub evaluate_write_gate-asked :
      (req : Option CallRequest) (args : B) (now later : ℕ) (token action : Text) (can : Bool)
      → IsCodec k
      → evaluate_write_gate k marshal_args digest req key kind user args now ≡ gate_ask token
      → text_eq token [] ≡ false
      → (now + confirm_ttl) / second < 2 ^ 63
      → later / second ≤ (now + confirm_ttl) / second
      → evaluate_write_gate k marshal_args digest
          (some (record { request_state = token; response = elicited action; can_confirm = can }))
          key
          kind
          user
          args
          later
        ≡ (if text_eq action (codes "accept") then gate_write else gate_declined)
  unfolding evaluate_write_gate
  evaluate_write_gate-asked req args now later token action can law asked' carried small soon =
      elim (Option-cases (hash_args marshal_args digest args)) [
        | inl bad ↦ absurd (cc (rw bad at asked'))
        | inr (hash, made) ↦
            let sealed = gate_hashed-ask req hash now token (rw made at asked') in
            let positive : 0 < (now + confirm_ttl) / second = omega arith in
            rw made (
              retried hash token action can later carried (
                open_token-seal k law key (state_of kind user hash) token confirm_ttl now later
                  sealed positive small
                ∙ rw (in_time (later / second) ((now + confirm_ttl) / second) soon) refl))
      ]
