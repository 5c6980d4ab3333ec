-- ===== src/Upload/Written.antt =====
-- What the directory holds after an upload has been written.
use alluredeck.Prelude.{
  ℕ, ◌+◌, ◌≡◌, ◌≢◌, refl, ◌∙◌, ap, subst, inl, inr, ◌⊎◌, true, Option, some, List, [], ◌∷◌, ◌++◌,
  arith, Text, text_discrete, text_eq_iff, All, Bool-cases, length, map,
}
use alluredeck.Prelude.Maps.{insert, lookup, lookup-insert_self, lookup-insert_ne}
use mathlib.Core.List.{append_assoc, append-nil}
use alluredeck.Upload.{
  Item, Reading, PendingEntry, Extracted, entries, failed, secure_base_name, is_seen,
  read_and_validate,
}
use alluredeck.Upload.Names.{IsSafeName}
use alluredeck.Upload.Flat.{secure_base_name-flat}
use alluredeck.Upload.Checks.{AllDifferent, regular}
use alluredeck.Upload.Limits.{IsAccepted, read_and_validate-IsAccepted}
use alluredeck.Upload.Extract.{
  Options, default_max_bytes, default_max_files, or_default, Dir, Write, done, broken_off, World,
  written, Outcome, reported, write_files, write_all, extract_read, extract_tar_gz_to_dir,
}

abbrev pub IsNamed : PendingEntry → Type 0
IsNamed e = IsSafeName e.name

abbrev pub IsStored : Dir → PendingEntry → Type 0
IsStored dir e = lookup text_discrete e.name dir ≡ some e.body

abbrev pub IsOther : Text → PendingEntry → Type 0
IsOther q e = e.name ≢ q

abbrev pub names_of : List PendingEntry → List Text
names_of = map (λ (e : PendingEntry). e.name)

-- One report for each file.
abbrev pub steps : ℕ → ℕ → List PendingEntry → List (ℕ × ℕ)
steps total i [] = []
steps total i (e ∷ es) = (i + 1, total) ∷ steps total (i + 1) es

seen_later : (x y : Text) (seen : List Text) → is_seen x seen ≡ true → is_seen x (y ∷ seen) ≡ true
seen_later x y seen h = ground (arith, h)

seen_now : (x : Text) (seen : List Text) → is_seen x (x ∷ seen) ≡ true
seen_now x seen = rw ((text_eq_iff x x).1 refl) refl

-- A name that has been seen does not come again.
apart :
    (x : Text) (seen : List Text) (es : List PendingEntry)
    → is_seen x seen ≡ true
    → AllDifferent seen es
    → All (IsOther x) es
apart x seen [] h d = tt
apart x seen (e ∷ es) h d = (
  λ same. absurd (cc (ap (λ s. is_seen s seen) same, d.0, h)),
  apart x (e.name ∷ seen) es (seen_later x e.name seen h) d.1,
)

Write-cases : (x : Write) → (x ≡ done) ⊎ ((t : Option Text) × (x ≡ broken_off t))
Write-cases done = inl refl
Write-cases (broken_off t) = inr (t, refl)

module _ (sort : List Text → List Text) (w : World) (total : ℕ) where
  record IsWritten (es : List PendingEntry) (i : ℕ) (names : List Text) (dir : Dir) (ns : List Text)
      (o : Outcome) : Type 0 where
    listed : ns ≡ sort (names ++ names_of es)
    told : o.reports ≡ steps total i es
    stored : All (IsStored o.dir) es
    others :
        (q : Text) → All (IsOther q) es → lookup text_discrete q o.dir ≡ lookup text_discrete q dir

  -- One file before the others.
  file-IsWritten :
      (e : PendingEntry) (es : List PendingEntry) (i : ℕ) (names : List Text) (dir : Dir)
      (ns : List Text) (o : Outcome)
      → IsNamed e
      → All (IsOther e.name) es
      → IsWritten es
          (i + 1)
          (names ++ (e.name ∷ []))
          (insert text_discrete (secure_base_name e.name) e.body dir)
          ns
          o
      → IsWritten (e ∷ es) i names dir ns (reported (i + 1, total) o)
  file-IsWritten e es i names dir ns o safe later r =
      let place = secure_base_name-flat e.name safe in
      record {
        listed = r.listed ∙ ap sort (append_assoc names (e.name ∷ []) (names_of es));
        told = ap (λ rs. (i + 1, total) ∷ rs) r.told;
        stored = (
          r.others e.name later
              ∙ ap (λ s. lookup text_discrete e.name (insert text_discrete s e.body dir)) place
              ∙ lookup-insert_self text_discrete e.name e.body dir,
          r.stored,
        );
        others = λ q away.
            r.others q away.1
            ∙ ap (λ s. lookup text_discrete q (insert text_discrete s e.body dir)) place
            ∙ lookup-insert_ne text_discrete e.name q e.body dir away.0;
      }

  write_files-IsWritten :
      (seen : List Text) (es : List PendingEntry) (i : ℕ) (names : List Text) (dir : Dir)
      (ns : List Text)
      → All IsNamed es
      → AllDifferent seen es
      → (write_files sort w total es i names dir).result ≡ written ns
      → IsWritten es i names dir ns (write_files sort w total es i names dir)
  unfolding write_files
  write_files-IsWritten seen [] i names dir ns safe d h = record {
    listed = ground (arith, h, ap sort (append-nil names));
    told = refl;
    stored = tt;
    others = λ q away. refl;
  }
  write_files-IsWritten seen (e ∷ es) i names dir ns safe d h =
      elim (Bool-cases (w.is_cancelled i)) [
        | inl late ↦ absurd (cc (rw late at h))
        | inr on_time ↦ elim (Write-cases (w.write i)) [
          | inr (t, off) ↦ absurd (cc (rw (on_time, off) at h))
          | inl did ↦
              rw (on_time, did)
                (file-IsWritten e es i names dir ns _ safe.0
                  (apart e.name (e.name ∷ seen) es (seen_now e.name seen) d.1)
                  (write_files-IsWritten (e.name ∷ seen) es (i + 1) (names ++ (e.name ∷ [])) _ ns
                    safe.1 d.1 (rw (on_time, did) at h)))
        ]
      ]

-- What is left of an upload that went through.
pub record IsExtracted (sort : List Text → List Text) (limit max_files : ℕ) (items : List Item)
    (dir : Dir) (ns : List Text) (o : Outcome) : Type 0 where
  pub accepted : IsAccepted limit max_files items (regular items)
  pub listed : ns ≡ sort (names_of (regular items))
  pub stored : All (IsStored o.dir) (regular items)
  pub others :
      (q : Text)
      → All (IsOther q) (regular items)
      → lookup text_discrete q o.dir ≡ lookup text_discrete q dir
  pub told :
      o.reports ≡ (0, length (regular items)) ∷ steps (length (regular items)) 0 (regular items)

write_all-IsExtracted :
    (sort : List Text → List Text) (w : World) (limit max_files : ℕ) (items : List Item) (dir : Dir)
    (ns : List Text)
    → IsAccepted limit max_files items (regular items)
    → (write_all sort w (regular items) dir).result ≡ written ns
    → IsExtracted sort limit max_files items dir ns (write_all sort w (regular items) dir)
unfolding write_all
write_all-IsExtracted sort w limit max_files items dir ns a h = elim (Bool-cases w.mkdir_fails) [
  | inl no_dir' ↦ absurd (cc (rw no_dir' at h))
  | inr made ↦
      let r =
        write_files-IsWritten sort w (length (regular items)) [] (regular items) 0 [] dir ns a.safe
          a.different (rw made at h) in
      rw made (record {
        accepted = a;
        listed = r.listed;
        stored = r.stored;
        others = r.others;
        told = ap (λ rs. (0, length (regular items)) ∷ rs) r.told;
      })
]

extract_read-IsExtracted :
    (sort : List Text → List Text) (w : World) (limit max_files : ℕ) (trailer : Reading)
    (items : List Item) (dir : Dir) (ns : List Text) (x : Extracted)
    → read_and_validate limit max_files trailer items ≡ x
    → (extract_read sort w x dir).result ≡ written ns
    → IsExtracted sort limit max_files items dir ns (extract_read sort w x dir)
extract_read-IsExtracted sort w limit max_files trailer items dir ns (failed err) read h =
    absurd (cc)
extract_read-IsExtracted sort w limit max_files trailer items dir ns (entries es) read h =
    let a = read_and_validate-IsAccepted limit max_files trailer items es read in
    let b = subst (IsAccepted limit max_files items) a.whole a in
    rw a.whole (write_all-IsExtracted sort w limit max_files items dir ns b (rw a.whole at h))

-- What an upload that goes through leaves behind: its archive was acceptable under the limits that are
-- set, or their defaults; the names that are returned are those of its files, sorted; each file is in
-- the directory under its own name with its body, and no other file there has changed; and the
-- reporter was told 0 and then each count up to the number of files, out of that number.
pub extract_tar_gz_to_dir-IsExtracted :
    (sort : List Text → List Text) (w : World) (opts : Options) (trailer : Reading)
    (items : List Item) (dir : Dir) (ns : List Text)
    → (extract_tar_gz_to_dir sort w opts trailer (some items) dir).result ≡ written ns
    → IsExtracted sort
        (or_default default_max_bytes opts.max_decompressed_bytes)
        (or_default default_max_files opts.max_file_count)
        items
        dir
        ns
        (extract_tar_gz_to_dir sort w opts trailer (some items) dir)
unfolding extract_tar_gz_to_dir
extract_tar_gz_to_dir-IsExtracted sort w opts trailer items dir ns h =
    extract_read-IsExtracted sort w _ _ trailer items dir ns _ refl h
