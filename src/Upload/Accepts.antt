-- ===== src/Upload/Accepts.antt =====
-- Which archives are accepted.
use alluredeck.Prelude.{
  ℕ, ◌+◌, ◌≤◌, ◌<◌, ◌≡◌, refl, sym, ◌∙◌, ap, subst, inl, inr, Bool, true, false, ◌&&◌, none, List,
  [], ◌∷◌, arith, Text, text_eq, text_eq_iff, All, if◌then◌else◌, Bool-cases, ltb, length,
}
use alluredeck.Upload.{
  TarEntry, Item, Reading, size, is_over, entry, broken, PendingEntry, entries, secure_base_name,
  is_seen, rejects, Rest, read_body, read_entry, read_entries, refuse_empty, read_and_validate,
}
use alluredeck.Upload.Paths.{clean}
use alluredeck.Upload.Checks.{AllDifferent, regular}

-- The tar reader hands the entry out, and the name of a file is one part that is not empty.
abbrev pub IsSound : Item → Type 0
IsSound (broken k) = ⊥
IsSound (entry e) =
    e.is_regular ≡ true
    → (e.body_fails ≡ false)
      × (text_eq (secure_base_name e.name) [] ≡ false)
      × (clean e.name ≡ secure_base_name e.name)

-- The decompressed bytes that are read.
abbrev pub bytes_read : Reading → List Item → ℕ
bytes_read trailer [] = size trailer
bytes_read trailer (broken k ∷ items) = k + bytes_read trailer items
bytes_read trailer (entry e ∷ items) =
    let rest = bytes_read trailer items in
    size e.header + (if e.is_regular then e.body_bytes + rest else rest)

and_false : (a b : Bool) → b ≡ false → (a && b) ≡ false
and_false false b h = refl
and_false true b h = h

not_over : (limit n : ℕ) (r : Reading) → n + size r ≤ limit → is_over limit n r ≡ false
not_over limit n r fits = and_false r.is_heard (ltb limit (n + r.passed)) (ground arith)

rejects-accepts :
    (max_files count : ℕ) (seen : List Text) (name : Text)
    → text_eq (secure_base_name name) [] ≡ false
    → clean name ≡ secure_base_name name
    → is_seen (secure_base_name name) seen ≡ false
    → count + 1 ≤ max_files
    → rejects max_files count seen name ≡ none
unfolding rejects
rejects-accepts max_files count seen name named flat new few =
    let enough : ltb max_files (count + 1) ≡ false = ground arith in
    rw (named, (text_eq_iff (clean name) (secure_base_name name)).1 flat, new, enough) refl

module _ (limit max_files : ℕ) (trailer : Reading) where
  -- A regular file is read, and the rest behind it.
  read_entry-accepts :
      (n : ℕ) (seen : List Text) (count : ℕ) (e : TarEntry) (rest : Rest) (es : List PendingEntry)
      → e.is_regular ≡ true
      → IsSound (entry e)
      → is_seen (clean e.name) seen ≡ false
      → count + 1 ≤ max_files
      → n + e.body_bytes ≤ limit
      → rest (n + e.body_bytes) (clean e.name ∷ seen) (count + 1) ≡ entries es
      → read_entry limit max_files n seen count e rest
        ≡ entries ((record { name = clean e.name; body = e.body }) ∷ es)
  unfolding read_entry read_body
  read_entry-accepts n seen count e rest es kind sound new few fits h =
      let (works, named, flat) = sound kind in
      let small = and_false (ltb 0 e.body_bytes) (ltb limit (n + e.body_bytes)) (ground arith) in
      rw
        (
          kind,
          rejects-accepts max_files count seen e.name named flat
              (ap (λ s. is_seen s seen) (sym flat) ∙ new) few,
          small,
          works,
          ← flat,
          h,
        )
        refl

  read_entry-other :
      (n : ℕ) (seen : List Text) (count : ℕ) (e : TarEntry) (rest : Rest)
      → e.is_regular ≡ false
      → read_entry limit max_files n seen count e rest ≡ rest n seen count
  unfolding read_entry
  read_entry-other n seen count e rest other = rw other refl

  read_entries-entry :
      (items : List Item) (n : ℕ) (seen : List Text) (count : ℕ) (e : TarEntry)
      → n + size e.header ≤ limit
      → read_entries limit max_files trailer (entry e ∷ items) n seen count
        ≡ read_entry limit max_files
            (n + size e.header)
            seen
            count
            e
            (read_entries limit max_files trailer items)
  unfolding read_entries
  read_entries-entry items n seen count e fits =
      let small = not_over limit n e.header fits in rw small refl

  regular-true :
      (e : TarEntry) (items : List Item)
      → e.is_regular ≡ true
      → regular (entry e ∷ items) ≡ (record { name = clean e.name; body = e.body }) ∷ regular items
  regular-true e items kind = rw kind refl

  regular-false :
      (e : TarEntry) (items : List Item)
      → e.is_regular ≡ false
      → regular (entry e ∷ items) ≡ regular items
  regular-false e items kind = rw kind refl

  bytes_true :
      (e : TarEntry) (items : List Item)
      → e.is_regular ≡ true
      → bytes_read trailer (entry e ∷ items)
        ≡ size e.header + (e.body_bytes + bytes_read trailer items)
  bytes_true e items kind = rw kind refl

  bytes_false :
      (e : TarEntry) (items : List Item)
      → e.is_regular ≡ false
      → bytes_read trailer (entry e ∷ items) ≡ size e.header + bytes_read trailer items
  bytes_false e items kind = rw kind refl

  -- What is shown of the items of an archive.
  abbrev Accepts : List Item → Type 0
  Accepts items =
      (n : ℕ) (seen : List Text) (count : ℕ)
      → All IsSound items
      → AllDifferent seen (regular items)
      → count + length (regular items) ≤ max_files
      → n + bytes_read trailer items ≤ limit
      → read_entries limit max_files trailer items n seen count ≡ entries (regular items)

  file-Accepts :
      (e : TarEntry) (items : List Item)
      → e.is_regular ≡ true
      → Accepts items
      → Accepts (entry e ∷ items)
  file-Accepts e items kind hyp n seen count sound different few fits =
      let whole = regular-true e items kind in
      let bytes = bytes_true e items kind in
      let apart = subst (AllDifferent seen) whole different in
      read_entries-entry items n seen count e (omega (arith, bytes))
      ∙ read_entry-accepts (n + size e.header) seen count e
          (read_entries limit max_files trailer items) (regular items) kind sound.0 apart.0
          (omega (arith, ap length whole)) (omega (arith, bytes))
          (hyp (n + size e.header + e.body_bytes) (clean e.name ∷ seen) (count + 1) sound.1 apart.1
            (omega (arith, ap length whole)) (omega (arith, bytes)))
      ∙ ap entries (sym whole)

  other-Accepts :
      (e : TarEntry) (items : List Item)
      → e.is_regular ≡ false
      → Accepts items
      → Accepts (entry e ∷ items)
  other-Accepts e items kind hyp n seen count sound different few fits =
      let whole = regular-false e items kind in
      let bytes = bytes_false e items kind in
      read_entries-entry items n seen count e (omega (arith, bytes))
      ∙ read_entry-other (n + size e.header) seen count e
          (read_entries limit max_files trailer items) kind
      ∙ hyp (n + size e.header) seen count sound.1 (subst (AllDifferent seen) whole different)
          (omega (arith, ap length whole)) (omega (arith, bytes))
      ∙ ap entries (sym whole)

  read_entries-Accepts : (items : List Item) → Accepts items
  unfolding read_entries
  read_entries-Accepts [] = λ n seen count sound different few fits.
      let small = not_over limit n trailer (omega (arith, fits)) in rw small refl
  read_entries-Accepts (broken k ∷ items) = λ n seen count sound different few fits. absurd sound.0
  read_entries-Accepts (entry e ∷ items) = elim (Bool-cases e.is_regular) [
    | inl kind ↦ file-Accepts e items kind (read_entries-Accepts items)
    | inr other ↦ other-Accepts e items other (read_entries-Accepts items)
  ]

  -- Every sound archive is accepted: one with at least one file and no more than the limit, whose
  -- entries the tar reader hands out without an error, whose files have names of one part that are
  -- not empty and all different, and whose decompressed bytes are within the limit, yields its files
  -- in order.
  pub read_and_validate-accepts :
      (items : List Item)
      → All IsSound items
      → AllDifferent [] (regular items)
      → 0 < length (regular items)
      → length (regular items) ≤ max_files
      → bytes_read trailer items ≤ limit
      → read_and_validate limit max_files trailer items ≡ entries (regular items)
  unfolding read_and_validate
  read_and_validate-accepts items sound different some_file few fits =
      ap refuse_empty
        (read_entries-Accepts items 0 [] 0 sound different (omega arith) (omega arith))
      ∙ filled (regular items) some_file
    where
      filled : (es : List PendingEntry) → 0 < length es → refuse_empty (entries es) ≡ entries es
      filled [] h = absurd (omega arith)
      filled (e ∷ es) h = refl
