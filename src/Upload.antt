-- ===== src/Upload.antt =====
-- The reading of an uploaded archive: readAndValidateTarGz and secureBaseName of
-- api/internal/runner/tar_extract.go. The gzip and the tar reader are libraries; an archive is what they
-- deliver: for each entry the reads of decompressed bytes for its header and for its body, its name,
-- whether it is a regular file, and the body as the tar reader hands it out.
pub mod Paths
pub mod Names
pub mod Checks
pub mod Limits
pub mod Accepts
pub mod Flat
pub mod Extract
pub mod Written
pub mod Completes
mod Examples
use alluredeck.Prelude.{
  ℕ, ◌+◌, Bool, true, false, not, ◌&&◌, Option, none, some, List, [], ◌∷◌, Text, text_eq, codes,
  if◌then◌else◌, ltb, leb, ◌==◌, any, length,
}
use alluredeck.Upload.Paths.{clean, base, is_local}

pub data ArchiveError : Type 0 where
  empty too_many_files decomp_bomb nested_path invalid_entry duplicate_file read_failed
        write_failed :
      ArchiveError

-- The reads for a header or for the end of the archive. The counting reader fails every read that
-- ends above the limit, but the tar reader drops the error of a read that fills its block: `passed` is
-- what is read up to the last read whose error it passes on, if it passes one on at all, and `dropped`
-- what is read after that.
pub record Reading : Type 0 where
  pub is_heard : Bool
  pub passed : ℕ
  pub dropped : ℕ

-- A body of `body_bytes` decompressed bytes is read with every error passed on, and an empty one is
-- not read at all; `body_fails` is an error of the tar reader's own.
pub record TarEntry : Type 0 where
  pub name : Text
  pub is_regular : Bool
  pub header : Reading
  pub body_bytes : ℕ
  pub body : Text
  pub body_fails : Bool

-- `broken` is an error of the tar reader's own in place of the next header, after so many bytes.
pub data Item : Type 0 where
  entry : TarEntry → Item
  broken : ℕ → Item

pub record PendingEntry : Type 0 where
  pub name : Text
  pub body : Text

pub data Extracted : Type 0 where
  entries : List PendingEntry → Extracted
  failed : ArchiveError → Extracted

unfoldable pub secure_base_name : Text → Text
secure_base_name name =
    let b = base (clean name) in
    if text_eq b (codes ".") then [] else (if is_local b then b else [])

abbrev pub is_seen : Text → List Text → Bool
is_seen name seen = any (text_eq name) seen

-- The checks of a regular entry before its body is read.
unfoldable pub rejects : ℕ → ℕ → List Text → Text → Option ArchiveError
rejects max_files count seen name =
    let safe = secure_base_name name in
    if text_eq safe []
    then some invalid_entry
    else (if not (text_eq (clean name) safe)
        then some nested_path
        else (if is_seen safe seen
            then some duplicate_file
            else (if ltb max_files (count + 1) then some too_many_files else none)))

abbrev pub with_entry : PendingEntry → Extracted → Extracted
with_entry e (entries es) = entries (e ∷ es)
with_entry e (failed err) = failed err

abbrev pub size : Reading → ℕ
size r = r.passed + r.dropped

-- A read above the limit whose error is passed on.
abbrev pub is_over : ℕ → ℕ → Reading → Bool
is_over limit n r = r.is_heard && ltb limit (n + r.passed)

abbrev pub body_over : ℕ → ℕ → ℕ → Bool
body_over limit n k = ltb 0 k && ltb limit (n + k)

-- An error of the tar reader is put down to the limit if any read has ended above it.
abbrev pub read_error : ℕ → ℕ → ArchiveError
read_error limit n = if ltb limit n then decomp_bomb else read_failed

-- The rest of the archive, from the bytes read so far, the names seen and the number of files.
abbrev pub Rest : Type 0
Rest = ℕ → List Text → ℕ → Extracted

unfoldable pub read_body : ℕ → ℕ → List Text → ℕ → TarEntry → Rest → Extracted
read_body limit n seen count e rest =
    let safe = secure_base_name e.name in
    if body_over limit n e.body_bytes
    then failed decomp_bomb
    else (if e.body_fails
        then failed (read_error limit (n + e.body_bytes))
        else with_entry (record { name = safe; body = e.body })
            (rest (n + e.body_bytes) (safe ∷ seen) (count + 1)))

abbrev pub unless : Option ArchiveError → Extracted → Extracted
unless (some err) x = failed err
unless none x = x

-- What follows the header of an entry.
unfoldable pub read_entry : ℕ → ℕ → ℕ → List Text → ℕ → TarEntry → Rest → Extracted
unfolding rejects read_body
read_entry limit max_files n seen count e rest =
    if not e.is_regular
    then rest n seen count
    else unless (rejects max_files count seen e.name) (read_body limit n seen count e rest)

-- The loop; `trailer` is what is read for the end of the archive.
unfoldable pub read_entries : ℕ → ℕ → Reading → List Item → ℕ → List Text → ℕ → Extracted
unfolding read_entry
read_entries limit max_files trailer [] n seen count =
    if is_over limit n trailer then failed decomp_bomb else entries []
read_entries limit max_files trailer (broken k ∷ items) n seen count =
    failed (read_error limit (n + k))
read_entries limit max_files trailer (entry e ∷ items) n seen count =
    let rest = read_entries limit max_files trailer items in
    if is_over limit n e.header
    then failed decomp_bomb
    else read_entry limit max_files (n + size e.header) seen count e rest

abbrev pub refuse_empty : Extracted → Extracted
refuse_empty (entries []) = failed empty
refuse_empty (entries (e ∷ es)) = entries (e ∷ es)
refuse_empty (failed err) = failed err

unfoldable pub read_and_validate : ℕ → ℕ → Reading → List Item → Extracted
unfolding read_entries
read_and_validate limit max_files trailer items =
    refuse_empty (read_entries limit max_files trailer items 0 [] 0)
