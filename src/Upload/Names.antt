-- ===== src/Upload/Names.antt =====
-- The names that an archive's files are written under.
use alluredeck.Prelude.{
  ℕ, ◌≡◌, ◌≢◌, refl, sym, ◌∙◌, ap, subst, inl, inr, ◌⊎◌, true, false, List, [], ◌∷◌, Text, text_eq,
  codes, ◌==◌, text_discrete, All, Bool-cases, is_yes-false,
}
use alluredeck.Prelude.Texts.{starts_with}
use mathlib.Core.List.{reverse}
use alluredeck.Upload.{secure_base_name}
use alluredeck.Upload.Paths.{
  extend, split_slash, last_part, drop_slashes, or_slash, base, clean, is_local, clean_parts,
  join_slash,
}

abbrev pub NotSlash : ℕ → Type 0
NotSlash c = (c == b'/') ≡ false

-- A name of one part that names no other directory.
pub record IsSafeName (s : Text) : Type 0 where
  pub named : s ≢ []
  pub flat : All NotSlash s
  pub not_here : s ≢ codes "."
  pub not_up : s ≢ codes ".."

extend-NotSlash :
    (c : ℕ) (parts : List Text)
    → NotSlash c
    → All (All NotSlash) parts
    → All (All NotSlash) (extend c parts)
extend-NotSlash c [] h hs = ((h, tt), tt)
extend-NotSlash c (part ∷ parts) h hs = ((h, hs.0), hs.1)

split_slash-NotSlash : (s : Text) → All (All NotSlash) (split_slash s)
unfolding split_slash
split_slash-NotSlash [] = (tt, tt)
split_slash-NotSlash (c ∷ s) = elim (Bool-cases (c == b'/')) [
  | inl slash ↦ rw slash (tt, split_slash-NotSlash s)
  | inr other ↦ rw other (extend-NotSlash c (split_slash s) other (split_slash-NotSlash s))
]

last_part-NotSlash : (parts : List Text) → All (All NotSlash) parts → All NotSlash (last_part parts)
last_part-NotSlash [] h = tt
last_part-NotSlash (part ∷ []) h = h.0
last_part-NotSlash (part ∷ (next ∷ parts)) h = last_part-NotSlash (next ∷ parts) h.1

or_slash-cases : (s : Text) → (or_slash s ≡ codes "/") ⊎ (or_slash s ≡ s)
or_slash-cases s = elim (Bool-cases (text_eq s [])) [
  | inl none' ↦ inl (rw none' refl)
  | inr some' ↦ inr (rw some' refl)
]

-- The last part of a path is the slash, the dot, or has no slash.
base-cases :
    (path : Text) → (base path ≡ codes "/") ⊎ ((base path ≡ codes ".") ⊎ All NotSlash (base path))
unfolding base
base-cases path = elim (Bool-cases (text_eq path [])) [
  | inl none' ↦ inr (inl (rw none' refl))
  | inr some' ↦
      rw some'
        (elim (or_slash-cases (last_part (split_slash (reverse (drop_slashes (reverse path)))))) [
          | inl slash ↦ inl slash
          | inr part ↦ inr (
              inr (
                subst (All NotSlash) (sym part) (
                  last_part-NotSlash _
                    (split_slash-NotSlash (reverse (drop_slashes (reverse path)))))))
        ])
]

slash_not_local : is_local (codes "/") ≡ false
unfolding is_local starts_with
slash_not_local = refl

up_not_local : is_local (codes "..") ≡ false
unfolding is_local starts_with split_slash clean clean_parts join_slash text_discrete
up_not_local = refl

local-IsSafeName :
    (b : Text)
    → b ≢ []
    → b ≢ codes "."
    → is_local b ≡ true
    → (b ≡ codes "/") ⊎ ((b ≡ codes ".") ⊎ All NotSlash b)
    → IsSafeName b
local-IsSafeName b named here local (inl slash) =
    absurd (cc (ap is_local slash, slash_not_local, local))
local-IsSafeName b named here local (inr (inl dot)) = absurd (here dot)
local-IsSafeName b named here local (inr (inr flat)) = record {
  named = named;
  flat = flat;
  not_here = here;
  not_up = λ up. absurd (cc (ap is_local up, up_not_local, local));
}

-- What is left of a name is safe, if anything is.
pub secure_base_name-IsSafeName :
    (name : Text) → secure_base_name name ≢ [] → IsSafeName (secure_base_name name)
unfolding secure_base_name
secure_base_name-IsSafeName name some' =
    elim (Bool-cases (text_eq (base (clean name)) (codes "."))) [
      | inl dot ↦ absurd (some' (rw dot refl))
      | inr other ↦ elim (Bool-cases (is_local (base (clean name)))) [
        | inr away ↦ absurd (some' (rw (other, away) refl))
        | inl local ↦
            let kept : secure_base_name name ≡ base (clean name) = rw (other, local) refl in
            rw (other, local)
              (local-IsSafeName (base (clean name)) (λ e. some' (kept ∙ e))
                (is_yes-false (text_discrete (base (clean name)) (codes ".")) other) local
                (base-cases (clean name)))
      ]
    ]
