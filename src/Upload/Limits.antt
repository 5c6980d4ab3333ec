-- ===== src/Upload/Limits.antt =====
-- What an accepted archive keeps to.
use alluredeck.Prelude.{
  ℕ, zero, suc, ◌+◌, ◌≤◌, ◌<◌, ◌≡◌, refl, sym, ap, subst, inl, inr, true, false, List, [], ◌∷◌,
  arith, Text, All, Bool-cases, length,
}
use alluredeck.Upload.{
  TarEntry, Item, Reading, size, is_over, entry, broken, PendingEntry, Extracted, entries, failed,
  secure_base_name, rejects, read_entry, read_entries, refuse_empty, read_and_validate,
}
use alluredeck.Upload.Names.{IsSafeName, secure_base_name-IsSafeName}
use alluredeck.Upload.Checks.{
  AllDifferent, regular, bytes_kept, IsRead, IsPassed, rejects-none, unless-entries,
  read_body-entries,
}

-- The bound for a file and what follows it.
body_bound :
    (limit n h k rest : ℕ)
    → (0 < k → n + h + k ≤ limit)
    → (0 < rest → n + h + k + rest ≤ limit)
    → 0 < k + rest
    → n + (k + rest) ≤ limit
body_bound limit n h k zero fits after some' = let le = fits (omega arith) in omega (arith, le)
body_bound limit n h k (suc rest) fits after some' =
    let le = after (omega arith) in omega (arith, le)

bound_zero : (k limit : ℕ) → (0 < k → 0 + k ≤ limit) → k ≤ limit
bound_zero zero limit h = omega arith
bound_zero (suc k) limit h = let le = h (omega arith) in omega (arith, le)

module _ (limit max_files : ℕ) where
  -- One regular file before what follows it.
  regular-IsRead :
      (n : ℕ) (seen : List Text) (count : ℕ) (e : TarEntry) (items : List Item)
      (es : List PendingEntry)
      → e.is_regular ≡ true
      → (0 < e.body_bytes → n + size e.header + e.body_bytes ≤ limit)
      → IsPassed max_files count seen e.name
      → IsRead limit max_files
          (n + size e.header + e.body_bytes)
          (secure_base_name e.name ∷ seen)
          (count + 1)
          items
          es
      → IsRead limit max_files n seen count
          (entry e ∷ items)
          ((record { name = secure_base_name e.name; body = e.body }) ∷ es)
  regular-IsRead n seen count e items es kind fits ok' r = record {
    safe = (secure_base_name-IsSafeName e.name ok'.named, r.safe);
    different = (ok'.new, r.different);
    few = λ _. omega (arith, r.few ok'.few);
    whole = rw (kind, ok'.flat, ← r.whole) refl;
    bounded =
        rw kind (body_bound limit n (size e.header) e.body_bytes (bytes_kept items) fits r.bounded);
  }

  other-IsRead :
      (n : ℕ) (seen : List Text) (count : ℕ) (e : TarEntry) (items : List Item)
      (es : List PendingEntry)
      → e.is_regular ≡ false
      → IsRead limit max_files (n + size e.header) seen count items es
      → IsRead limit max_files n seen count (entry e ∷ items) es
  other-IsRead n seen count e items es kind r = record {
    safe = r.safe;
    different = r.different;
    few = r.few;
    whole = rw kind r.whole;
    bounded = rw kind (λ some'. let le = r.bounded some' in omega (arith, le));
  }

  read_entries-IsRead :
      (trailer : Reading) (items : List Item) (n : ℕ) (seen : List Text) (count : ℕ)
      (es : List PendingEntry)
      → read_entries limit max_files trailer items n seen count ≡ entries es
      → IsRead limit max_files n seen count items es
  unfolding read_entries read_entry
  read_entries-IsRead trailer [] n seen count es h = elim (Bool-cases (is_over limit n trailer)) [
    | inl much ↦ absurd (cc (rw much at h))
    | inr fits ↦
        let e : [] ≡ es = ground (arith, rw fits at h) in
        subst (IsRead limit max_files n seen count []) e (record {
          safe = tt;
          different = tt;
          few = λ le. omega arith;
          whole = refl;
          bounded = λ some'. absurd (omega arith);
        })
  ]
  read_entries-IsRead trailer (broken k ∷ items) n seen count es h = absurd (cc)
  read_entries-IsRead trailer (entry e ∷ items) n seen count es h =
      elim (Bool-cases (is_over limit n e.header)) [
        | inl much ↦ absurd (cc (rw much at h))
        | inr fits ↦ elim (Bool-cases e.is_regular) [
          | inr other ↦ other-IsRead n seen count e items es other (
              read_entries-IsRead trailer items (n + size e.header) seen count es
                (rw (fits, other) at h))
          | inl kind ↦
              let (passed, read) =
                unless-entries (rejects max_files count seen e.name) _ es (rw (fits, kind) at h) in
              let (within, es', after, whole) =
                read_body-entries limit (n + size e.header) seen count e
                  (read_entries limit max_files trailer items) es read in
              rw whole (
                regular-IsRead n seen count e items es' kind within
                  (rejects-none max_files count seen e.name passed)
                  (read_entries-IsRead trailer items (n + size e.header + e.body_bytes)
                    (secure_base_name e.name ∷ seen) (count + 1) es' after))
        ]
      ]

refuse_empty-entries :
    (x : Extracted) (es : List PendingEntry)
    → refuse_empty x ≡ entries es
    → (x ≡ entries es) × (0 < length es)
refuse_empty-entries (failed err) es h = absurd (cc)
refuse_empty-entries (entries []) es h = absurd (cc)
refuse_empty-entries (entries (e ∷ es')) es h =
    let same : (e ∷ es') ≡ es = ground (arith, h) in (h, omega (arith, ap length (sym same)))

-- An accepted archive.
pub record IsAccepted (limit max_files : ℕ) (items : List Item) (es : List PendingEntry)
    : Type 0 where
  pub safe : All (λ (e : PendingEntry). IsSafeName e.name) es
  pub different : AllDifferent [] es
  pub some_file : 0 < length es
  pub few : length es ≤ max_files
  pub whole : es ≡ regular items
  pub bounded : bytes_kept items ≤ limit

-- What an archive that is accepted keeps to: its files are its regular entries, in order and with
-- their bodies, at least one and no more than the limit; every name is one part, without a slash and
-- neither empty nor "." nor "..", and no name stands twice; and the decompressed bytes that the bodies
-- took are within the limit.
pub read_and_validate-IsAccepted :
    (limit max_files : ℕ) (trailer : Reading) (items : List Item) (es : List PendingEntry)
    → read_and_validate limit max_files trailer items ≡ entries es
    → IsAccepted limit max_files items es
unfolding read_and_validate
read_and_validate-IsAccepted limit max_files trailer items es h =
    let (read, some_file) = refuse_empty-entries _ es h in
    let r = read_entries-IsRead limit max_files trailer items 0 [] 0 es read in
    record {
      safe = r.safe;
      different = r.different;
      some_file = some_file;
      few = omega (arith, r.few (omega arith));
      whole = r.whole;
      bounded = bound_zero (bytes_kept items) limit r.bounded;
    }
