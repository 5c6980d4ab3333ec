-- ===== src/Signed/Authentic.antt =====
-- Only what was signed is opened.
use alluredeck.Prelude.{
  ℕ, ◌≡◌, refl, sym, ◌∙◌, ap, false, Option, none, some, [], ◌∷◌, ◌++◌, arith, Text, text_eq, ◌==◌,
  ==_iff, text_eq_iff, Bool-cases, Option-cases, inl, inr,
}
use alluredeck.Prelude.Ints.{ℤ, pos, ltz, parse_int}
use alluredeck.Prelude.Texts.{cut, push}
use alluredeck.Signed.{
  Codec, value, SignedError, sign, verify, open_token, open_parsed, open_verified, open_decoded,
  unix,
}

-- What an opened token consists of.
pub record IsAuthentic {A : Type 0} (k : Codec A) (key token : Text) (now : ℕ) (v : A)
    : Type 0 where
  pub encoded : Text
  pub raw : Text
  pub exp : ℤ
  pub body : Text
  pub whole : token ≡ encoded ++ (b'.' ∷ (raw ++ (b'.' ∷ sign k key encoded exp)))
  pub number : parse_int raw ≡ some exp
  pub positive : ltz exp (pos 1) ≡ false
  pub fresh : ltz exp (unix now) ≡ false
  pub decoded : k.decode encoded ≡ some body
  pub unmarshalled : k.unmarshal body ≡ some v

push-some :
    (c : ℕ) (o : Option (Text × Text)) (a b : Text)
    → push c o ≡ some (a, b)
    → (a' : Text) × (o ≡ some (a', b)) × (a ≡ c ∷ a')
push-some c none a b h = absurd (cc)
push-some c (some (a', b')) a b h = (a', ground (arith, h), ground (arith, h))

pub cut-some : (d : ℕ) (s a b : Text) → cut d s ≡ some (a, b) → s ≡ a ++ (d ∷ b)
unfolding cut
cut-some d [] a b h = absurd (cc)
cut-some d (c ∷ s) a b h = elim (Bool-cases (c == d)) [
  | inl here ↦
      let e : some ([], s) ≡ some (a, b) = rw here at h in
      let start : [] ≡ a = ground (arith, e) in
      let rest : s ≡ b = ground (arith, e) in rw (← start, ← rest, (==_iff c d).0 here) refl
  | inr later ↦
      let (a', found, front) = push-some c (cut d s) a b (rw later at h) in
      rw front (ap (λ t. c ∷ t) (cut-some d s a' b found))
]

module _ {A : Type 0} (k : Codec A) (key : Text) where
  -- What a good signature has passed.
  verify-none :
      (payload : Text) (exp : ℤ) (sig : Text) (now : ℕ)
      → verify k key payload exp sig now ≡ none
      → (ltz exp (pos 1) ≡ false) × (ltz exp (unix now) ≡ false) × (sign k key payload exp ≡ sig)
  unfolding verify
  verify-none payload exp sig now h = elim (Bool-cases (ltz exp (pos 1))) [
    | inl negative ↦ absurd (cc (rw negative at h))
    | inr positive ↦ elim (Bool-cases (ltz exp (unix now))) [
      | inl late ↦ absurd (cc (rw (positive, late) at h))
      | inr fresh ↦ elim (Bool-cases (text_eq (sign k key payload exp) sig)) [
        | inr forged ↦ absurd (cc (rw (positive, fresh, forged) at h))
        | inl good ↦ (positive, fresh, (text_eq_iff (sign k key payload exp) sig).0 good)
      ]
    ]
  ]

  decoded-value :
      (o : Option Text) (v : A)
      → open_decoded k o ≡ value v
      → (body : Text) × (o ≡ some body) × (k.unmarshal body ≡ some v)
  decoded-value none v h = absurd (cc)
  decoded-value (some body) v h = elim (Option-cases (k.unmarshal body)) [
    | inl bad ↦ absurd (cc (rw bad at h))
    | inr (v', good) ↦ (body, refl, good ∙ ground (arith, rw good at h))
  ]

  verified-value :
      (encoded : Text) (o : Option SignedError) (v : A)
      → open_verified k encoded o ≡ value v
      → (o ≡ none) × (body : Text) × (k.decode encoded ≡ some body) × (k.unmarshal body ≡ some v)
  verified-value encoded (some e) v h = absurd (cc)
  verified-value encoded none v h =
      let (body, decoded, made) = decoded-value (k.decode encoded) v h in
      (refl, body, decoded, made)

  parsed-IsAuthentic :
      (token encoded raw sig : Text) (now : ℕ) (o : Option ℤ) (v : A)
      → token ≡ encoded ++ (b'.' ∷ (raw ++ (b'.' ∷ sig)))
      → parse_int raw ≡ o
      → open_parsed k key encoded sig now o ≡ value v
      → IsAuthentic k key token now v
  parsed-IsAuthentic token encoded raw sig now none v whole number h = absurd (cc)
  parsed-IsAuthentic token encoded raw sig now (some exp) v whole number h =
      let (good, body, decoded, made) =
        verified-value encoded (verify k key encoded exp sig now) v h in
      let (positive, fresh, same) = verify-none encoded exp sig now good in
      record {
        encoded = encoded;
        raw = raw;
        exp = exp;
        body = body;
        whole = whole ∙ ap (λ s. encoded ++ (b'.' ∷ (raw ++ (b'.' ∷ s)))) (sym same);
        number = number;
        positive = positive;
        fresh = fresh;
        decoded = decoded;
        unmarshalled = made;
      }

  -- A token that opens is a payload, a time that has not passed and the signature of both.
  pub open_token-IsAuthentic :
      (token : Text) (now : ℕ) (v : A)
      → open_token k key token now ≡ value v
      → IsAuthentic k key token now v
  unfolding open_token
  open_token-IsAuthentic token now v h = elim (Option-cases (cut b'.' token)) [
    | inl whole ↦ absurd (cc (rw whole at h))
    | inr ((encoded, rest), first) ↦ elim (Option-cases (cut b'.' rest)) [
      | inl short ↦ absurd (cc (rw (first, short) at h))
      | inr ((raw, sig), second) ↦
          parsed-IsAuthentic token encoded raw sig now (parse_int raw) v
            (cut-some b'.' token encoded rest first
              ∙ ap (λ r. encoded ++ (b'.' ∷ r)) (cut-some b'.' rest raw sig second))
            refl (rw (first, second) at h)
    ]
  ]
