-- ===== src/Signed/Round.antt =====
-- What is sealed is opened again.
use alluredeck.Prelude.{
  ℕ, ◌+◌, ◌/◌, ◌<◌, ◌^◌, ◌≡◌, refl, sym, ◌∙◌, ap, false, none, some, [], ◌∷◌, ◌++◌, arith, Text,
  ◌==◌, text_eq_iff, All, if◌then◌else◌, ltb, Bool-cases, Option-cases, inl, inr,
}
use alluredeck.Prelude.Ints.{pos}
use alluredeck.Prelude.Decimal.{
  format_int, format_nat, IsDigit, format_nat-IsDigit, parse_int-format_nat,
}
use alluredeck.Prelude.Texts.{cut}
use alluredeck.Throttle.{second}
use alluredeck.Signed.{Codec, value, rejected, expired, sign, verify, seal, seal_body, open_token}

-- The character is not the dot.
abbrev pub NotDot : ℕ → Type 0
NotDot c = (c == b'.') ≡ false

-- What the encodings promise: base64url has no dot and is decoded again, as the JSON is.
pub record IsCodec {A : Type 0} (k : Codec A) : Type 0 where
  pub decodes : (s : Text) → k.decode (k.encode s) ≡ some s
  pub dotless : (s : Text) → All NotDot (k.encode s)
  pub unmarshals : (v : A) (s : Text) → k.marshal v ≡ some s → k.unmarshal s ≡ some v

pub cut-append : (a b : Text) → All NotDot a → cut b'.' (a ++ (b'.' ∷ b)) ≡ some (a, b)
unfolding cut
cut-append [] b h = refl
cut-append (c ∷ a) b h = rw (h.0, cut-append a b h.1) refl

digits-NotDot : (s : Text) → All IsDigit s → All NotDot s
digits-NotDot [] h = tt
digits-NotDot (c ∷ s) h = (ground (arith, h.0), digits-NotDot s h.1)

module _ {A : Type 0} (k : Codec A) (law : IsCodec k) (key : Text) where
  -- A fresh signature is good until its time has passed.
  verify-sign :
      (payload : Text) (exp later : ℕ)
      → 0 < exp
      → verify k key payload (pos exp) (sign k key payload (pos exp)) later
        ≡ (if ltb exp (later / second) then some expired else none)
  unfolding verify
  verify-sign payload exp later positive =
      let known : ltb exp 1 ≡ false = ground arith in
      rw (known, (text_eq_iff (sign k key payload (pos exp)) (sign k key payload (pos exp))).1 refl)
        refl

  open-seal_body :
      (v : A) (body : Text) (exp later : ℕ)
      → k.marshal v ≡ some body
      → 0 < exp
      → exp < 2 ^ 63
      → open_token k key (seal_body k key exp body) later
        ≡ (if ltb exp (later / second) then rejected expired else value v)
  unfolding open_token format_int
  open-seal_body v body exp later json positive small =
      rw
        (
          cut-append (k.encode body)
              (format_nat exp ++ (b'.' ∷ sign k key (k.encode body) (pos exp))) (law.dotless body),
          cut-append (format_nat exp) (sign k key (k.encode body) (pos exp))
              (digits-NotDot (format_nat exp) (format_nat-IsDigit exp)),
          parse_int-format_nat exp small,
          verify-sign (k.encode body) exp later positive,
        )
        (elim (Bool-cases (ltb exp (later / second))) [
          | inl late ↦ rw late refl
          | inr fresh ↦ rw (fresh, law.decodes body, law.unmarshals v body json) refl
        ])

  -- The round trip: a value that was sealed is opened as itself with the same key until the second in
  -- which its lifetime ends has passed, and is rejected as expired from then on; for encodings that
  -- are decoded again and hold no dot, and an expiry between 1 and 2^63.
  pub open_token-seal :
      (v : A) (token : Text) (ttl now later : ℕ)
      → seal k key v ttl now ≡ some token
      → 0 < (now + ttl) / second
      → (now + ttl) / second < 2 ^ 63
      → open_token k key token later
        ≡ (if ltb ((now + ttl) / second) (later / second) then rejected expired else value v)
  unfolding seal
  open_token-seal v token ttl now later made positive small = elim (Option-cases (k.marshal v)) [
    | inl none' ↦ absurd (cc (rw none' at made))
    | inr (body, json) ↦
        let e : seal_body k key ((now + ttl) / second) body ≡ token =
          ground (arith, rw json at made) in
        ap (λ t. open_token k key t later) (sym e)
        ∙ open-seal_body v body ((now + ttl) / second) later json positive small
  ]
