-- ===== src/Upload/Extract.antt =====
-- The writing of an upload's files into a directory: ExtractTarGzToDir of
-- api/internal/runner/tar_extract.go. The file system's answers and the context's are inputs: whether
-- the directory cannot be made, whether the context is over before a write, and whether a write fails
-- and what it leaves under the name. `sort` is the library's sort.Strings.
use alluredeck.Prelude.{
  ℕ, zero, suc, ◌+◌, Bool, if◌then◌else◌, Option, none, some, List, [], ◌∷◌, ◌++◌, Text,
  text_discrete, length,
}
use alluredeck.Prelude.Ints.{ℤ, pos, negsuc}
use alluredeck.Prelude.Maps.{insert}
use alluredeck.Upload.{
  ArchiveError, Item, Reading, PendingEntry, Extracted, entries, failed, secure_base_name,
  read_and_validate,
}

-- The settings that count here; the number of parallel writes is not used, and a reporter listens.
pub record Options : Type 0 where
  pub max_decompressed_bytes : ℤ
  pub max_file_count : ℤ

abbrev pub default_max_bytes : ℕ
default_max_bytes = 1073741824

abbrev pub default_max_files : ℕ
default_max_files = 5000

-- A setting of zero or less stands for the default.
abbrev pub or_default : ℕ → ℤ → ℕ
or_default d (pos zero) = d
or_default d (pos (suc n)) = suc n
or_default d (negsuc n) = d

-- The files of the directory.
abbrev pub Dir : Type 0
Dir = List (Text × Text)

-- What a write does: it succeeds, or it fails and leaves this under the name, if anything new.
pub data Write : Type 0 where
  done : Write
  broken_off : Option Text → Write

pub record World : Type 0 where
  pub mkdir_fails : Bool
  pub is_cancelled : ℕ → Bool
  pub write : ℕ → Write

pub data ExtractError : Type 0 where
  bad_gzip no_dir cancelled not_written : ExtractError
  bad_archive : ArchiveError → ExtractError

pub data Names : Type 0 where
  written : List Text → Names
  refused : ExtractError → Names

-- The directory, the calls of the reporter in their order, and the result.
pub record Outcome : Type 0 where
  pub dir : Dir
  pub reports : List (ℕ × ℕ)
  pub result : Names

abbrev pub left_behind : Text → Option Text → Dir → Dir
left_behind name none dir = dir
left_behind name (some t) dir = insert text_discrete name t dir

abbrev pub stopped : ExtractError → Dir → Outcome
stopped err dir = record { dir = dir; reports = []; result = refused err }

abbrev pub reported : ℕ × ℕ → Outcome → Outcome
reported r o = record o { reports = r ∷ o.reports }

-- One write, and the loop behind it.
abbrev pub after_write : Write → ℕ → ℕ → PendingEntry → Dir → (Dir → Outcome) → Outcome
after_write (broken_off t) i total e dir rest =
    stopped not_written (left_behind (secure_base_name e.name) t dir)
after_write done i total e dir rest =
    reported (i + 1, total) (rest (insert text_discrete (secure_base_name e.name) e.body dir))

module _ (sort : List Text → List Text) (w : World) where
  unfoldable pub write_files : ℕ → List PendingEntry → ℕ → List Text → Dir → Outcome
  write_files total [] i names dir = record {
    dir = dir;
    reports = [];
    result = written (sort names);
  }
  write_files total (e ∷ es) i names dir =
      let rest = write_files total es (i + 1) (names ++ (e.name ∷ [])) in
      if w.is_cancelled i then stopped cancelled dir else after_write (w.write i) i total e dir rest

  unfoldable pub write_all : List PendingEntry → Dir → Outcome
  unfolding write_files
  write_all es dir =
      if w.mkdir_fails
      then stopped no_dir dir
      else reported (0, length es) (write_files (length es) es 0 [] dir)

  abbrev pub extract_read : Extracted → Dir → Outcome
  extract_read (failed err) dir = stopped (bad_archive err) dir
  extract_read (entries es) dir = write_all es dir

  -- `none` is a stream that is not gzip.
  unfoldable pub extract_tar_gz_to_dir : Options → Reading → Option (List Item) → Dir → Outcome
  unfolding write_all
  extract_tar_gz_to_dir opts trailer none dir = stopped bad_gzip dir
  extract_tar_gz_to_dir opts trailer (some items) dir =
      extract_read
        (read_and_validate (or_default default_max_bytes opts.max_decompressed_bytes)
          (or_default default_max_files opts.max_file_count) trailer items)
        dir
