-- ===== src/Upload/Checks.antt =====
-- What a file that passes the checks keeps to, and the files that an archive has.
use alluredeck.Prelude.{
  ℕ, ◌+◌, ◌≤◌, ◌<◌, ◌≡◌, ◌≢◌, refl, inl, inr, false, Option, none, some, List, [], ◌∷◌, arith, Text,
  text_eq, text_eq_iff, text_discrete, All, if◌then◌else◌, Bool-cases, ltb, length, is_yes-false,
}
use alluredeck.Upload.{
  ArchiveError, TarEntry, Item, body_over, entry, broken, PendingEntry, Extracted, entries, failed,
  secure_base_name, is_seen, rejects, with_entry, Rest, read_body, unless,
}
use alluredeck.Upload.Paths.{clean}
use alluredeck.Upload.Names.{IsSafeName}

-- No name is in the list, and no name stands twice.
abbrev pub IsNew : List Text → PendingEntry → Type 0
IsNew seen e = is_seen e.name seen ≡ false

abbrev pub AllDifferent : List Text → List PendingEntry → Type 0
AllDifferent seen [] = Unit
AllDifferent seen (e ∷ es) = IsNew seen e × AllDifferent (e.name ∷ seen) es

-- The regular files of the archive under their cleaned names, in its order.
abbrev pub regular : List Item → List PendingEntry
regular [] = []
regular (broken k ∷ items) = regular items
regular (entry e ∷ items) =
    let rest = regular items in
    if e.is_regular then (record { name = clean e.name; body = e.body }) ∷ rest else rest

-- The decompressed bytes that the files' bodies take.
abbrev pub bytes_kept : List Item → ℕ
bytes_kept [] = 0
bytes_kept (broken k ∷ items) = bytes_kept items
bytes_kept (entry e ∷ items) =
    let rest = bytes_kept items in if e.is_regular then e.body_bytes + rest else rest

pub record IsRead (limit max_files n : ℕ) (seen : List Text) (count : ℕ) (items : List Item)
    (es : List PendingEntry) : Type 0 where
  pub safe : All (λ (e : PendingEntry). IsSafeName e.name) es
  pub different : AllDifferent seen es
  pub few : count ≤ max_files → count + length es ≤ max_files
  pub whole : es ≡ regular items
  pub bounded : 0 < bytes_kept items → n + bytes_kept items ≤ limit

-- A name that passes the checks.
pub record IsPassed (max_files count : ℕ) (seen : List Text) (name : Text) : Type 0 where
  pub named : secure_base_name name ≢ []
  pub flat : clean name ≡ secure_base_name name
  pub new : is_seen (secure_base_name name) seen ≡ false
  pub few : count + 1 ≤ max_files

pub rejects-none :
    (max_files count : ℕ) (seen : List Text) (name : Text)
    → rejects max_files count seen name ≡ none
    → IsPassed max_files count seen name
unfolding rejects
rejects-none max_files count seen name h = elim (Bool-cases (text_eq (secure_base_name name) [])) [
  | inl blank ↦ absurd (cc (rw blank at h))
  | inr named ↦ elim (Bool-cases (text_eq (clean name) (secure_base_name name))) [
    | inr nested ↦ absurd (cc (rw (named, nested) at h))
    | inl flat ↦ elim (Bool-cases (is_seen (secure_base_name name) seen)) [
      | inl old ↦ absurd (cc (rw (named, flat, old) at h))
      | inr new ↦ elim (Bool-cases (ltb max_files (count + 1))) [
        | inl many ↦ absurd (cc (rw (named, flat, new, many) at h))
        | inr few ↦ record {
          named = is_yes-false (text_discrete (secure_base_name name) []) named;
          flat = (text_eq_iff (clean name) (secure_base_name name)).0 flat;
          new = new;
          few = ground (arith, few);
        }
      ]
    ]
  ]
]

with_entry-entries :
    (e : PendingEntry) (x : Extracted) (es : List PendingEntry)
    → with_entry e x ≡ entries es
    → (es' : List PendingEntry) × (x ≡ entries es') × (es ≡ e ∷ es')
with_entry-entries e (failed err) es h = absurd (cc)
with_entry-entries e (entries es') es h = (es', refl, ground (arith, h))

pub unless-entries :
    (o : Option ArchiveError) (x : Extracted) (es : List PendingEntry)
    → unless o x ≡ entries es
    → (o ≡ none) × (x ≡ entries es)
unless-entries none x es h = (refl, h)
unless-entries (some err) x es h = absurd (cc)

body_fits : (limit n k : ℕ) → body_over limit n k ≡ false → 0 < k → n + k ≤ limit
body_fits limit n k h some' = ground (arith, h)

pub read_body-entries :
    (limit n : ℕ) (seen : List Text) (count : ℕ) (e : TarEntry) (rest : Rest)
    (es : List PendingEntry)
    → read_body limit n seen count e rest ≡ entries es
    → (0 < e.body_bytes → n + e.body_bytes ≤ limit)
      × (es' : List PendingEntry) × (rest
            (n + e.body_bytes)
            (secure_base_name e.name ∷ seen)
            (count + 1)
          ≡ entries es')
      × (es ≡ (record { name = secure_base_name e.name; body = e.body }) ∷ es')
unfolding read_body
read_body-entries limit n seen count e rest es h =
    elim (Bool-cases (body_over limit n e.body_bytes)) [
      | inl much ↦ absurd (cc (rw much at h))
      | inr fits ↦ elim (Bool-cases e.body_fails) [
        | inl fails ↦ absurd (cc (rw (fits, fails) at h))
        | inr works ↦
            let (es', read, whole) = with_entry-entries _ _ es (rw (fits, works) at h) in
            (body_fits limit n e.body_bytes fits, es', read, whole)
      ]
    ]
