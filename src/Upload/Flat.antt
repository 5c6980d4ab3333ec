-- ===== src/Upload/Flat.antt =====
-- A name that secureBaseName has cleaned stays as it is.
use alluredeck.Prelude.{
  All-append, ◌≡◌, ◌≢◌, refl, sym, subst, inl, inr, true, false, [], ◌∷◌, arith, Text, text_eq,
  codes, text_eq_iff, All, Bool-cases,
}
use alluredeck.Prelude.Texts.{starts_with}
use mathlib.Core.List.{reverse, reverse-cons, reverse-reverse}
use alluredeck.Upload.{secure_base_name}
use alluredeck.Upload.Paths.{
  split_slash, drop_slashes, is_rooted, base, clean, is_local, clean_parts, join_slash,
}
use alluredeck.Upload.Names.{IsSafeName, NotSlash}

other_text : (s t : Text) → s ≢ t → text_eq s t ≡ false
other_text s t h = elim (Bool-cases (text_eq s t)) [
  | inl same ↦ absurd (h ((text_eq_iff s t).0 same))
  | inr other ↦ other
]

split_slash-flat : (s : Text) → All NotSlash s → split_slash s ≡ s ∷ []
unfolding split_slash
split_slash-flat [] h = refl
split_slash-flat (c ∷ s) h = rw (h.0, split_slash-flat s h.1) refl

not_rooted : (s : Text) → All NotSlash s → is_rooted s ≡ false
unfolding starts_with
not_rooted [] h = refl
not_rooted (c ∷ s) h = ground (arith, h.0)

drop_slashes-flat : (s : Text) → All NotSlash s → drop_slashes s ≡ s
drop_slashes-flat [] h = refl
drop_slashes-flat (c ∷ s) h = rw h.0 refl

-- No name without a slash starts with "../".
not_above : (s : Text) → All NotSlash s → starts_with s (codes "../") ≡ false
unfolding starts_with
not_above [] h = refl
not_above (a ∷ []) h = ground arith
not_above (a ∷ (b ∷ [])) h = ground arith
not_above (a ∷ (b ∷ (c ∷ s))) h = ground (arith, h.1.1.0)

reverse-NotSlash : (s : Text) → All NotSlash s → All NotSlash (reverse s)
reverse-NotSlash [] h = tt
reverse-NotSlash (c ∷ s) h =
    subst (All NotSlash) (sym (reverse-cons c s))
      (All-append NotSlash (reverse s) (c ∷ []) (reverse-NotSlash s h.1) (h.0, tt))

module _ (s : Text) (h : IsSafeName s) where
  kept : clean_parts false [] (s ∷ []) ≡ s ∷ []
  unfolding clean_parts
  kept =
      rw
        (
          other_text s [] h.named,
          other_text s (codes ".") h.not_here,
          other_text s (codes "..") h.not_up,
        )
        refl

  clean-flat : clean s ≡ s
  unfolding clean join_slash
  clean-flat =
      rw (not_rooted s h.flat, split_slash-flat s h.flat, kept, other_text s [] h.named) refl

  base-flat : base s ≡ s
  unfolding base
  base-flat =
      rw
        (
          other_text s [] h.named,
          drop_slashes-flat (reverse s) (reverse-NotSlash s h.flat),
          reverse-reverse s,
          split_slash-flat s h.flat,
          other_text s [] h.named,
        )
        refl

  is_local-flat : is_local s ≡ true
  unfolding is_local
  is_local-flat =
      rw
        (
          split_slash-flat s h.flat,
          other_text s (codes ".") h.not_here,
          other_text s (codes "..") h.not_up,
          not_rooted s h.flat,
          other_text s [] h.named,
          not_above s h.flat,
          other_text s (codes "..") h.not_up,
        )
        refl

  -- A safe name is kept as it is.
  pub secure_base_name-flat : secure_base_name s ≡ s
  unfolding secure_base_name
  secure_base_name-flat =
      rw (clean-flat, base-flat, other_text s (codes ".") h.not_here, is_local-flat) refl
