-- ===== src/Upload/Examples.antt =====
-- Archives at concrete inputs.
use alluredeck.Prelude.{
  some, ◌≡◌, refl, Bool, true, false, List, [], ◌∷◌, Text, codes, text_discrete, arith,
}
use alluredeck.Prelude.Texts.{starts_with}
use alluredeck.Upload.{
  Reading, Item, entry, PendingEntry, entries, failed, nested_path, read_and_validate, read_entries,
  read_entry, rejects, read_body, secure_base_name,
}
use alluredeck.Upload.Paths.{clean, base, is_local, clean_parts, join_slash, split_slash}
use alluredeck.Upload.Extract.{
  Options, Dir, World, done, written, write_files, write_all, extract_tar_gz_to_dir,
}
use alluredeck.Upload.Written.{IsExtracted, extract_tar_gz_to_dir-IsExtracted}
use alluredeck.Upload.Completes.{extract_tar_gz_to_dir-written}
use alluredeck.Prelude.Ints.{pos, negsuc}
use alluredeck.Prelude.Maps.{insert}
use mathlib.Core.List.{reverse}

-- A header is one block, and so is each of the two blocks of the end.
abbrev block : Reading
block = record { is_heard = false; passed = 0; dropped = 512 }

abbrev trailer : Reading
trailer = record { is_heard = false; passed = 0; dropped = 1024 }

abbrev file : Text → Bool → Item
file name is_regular = entry (record {
  name = name;
  is_regular = is_regular;
  header = block;
  body_bytes = 4;
  body = codes "data";
  body_fails = false;
})

abbrev empty_file : Text → Item
empty_file name = entry (record {
  name = name;
  is_regular = true;
  header = block;
  body_bytes = 0;
  body = [];
  body_fails = false;
})

abbrev archive : List Item
archive =
    file (codes "results/") false ∷ file (codes "./a.json") true ∷ file (codes "b.json") true ∷ []

abbrev files : List PendingEntry
files =
    record { name = codes "a.json"; body = codes "data" }
    ∷ record { name = codes "b.json"; body = codes "data" }
    ∷ []

-- Headers alone do not use the limit up: their errors are dropped.
headers_run :
    read_and_validate 600 5 trailer
      (file (codes "a/") false ∷ file (codes "b/") false ∷ empty_file (codes "c.json") ∷ [])
    ≡ entries (record { name = codes "c.json"; body = [] } ∷ [])
unfolding read_and_validate read_entries read_entry rejects read_body secure_base_name clean base
    is_local clean_parts join_slash split_slash starts_with text_discrete
headers_run = refl

nested_runs :
    read_and_validate 4096 5 trailer (file (codes "../etc/x") true ∷ []) ≡ failed nested_path
unfolding read_and_validate read_entries read_entry rejects read_body secure_base_name clean base
    is_local clean_parts join_slash split_slash starts_with text_discrete
nested_runs = refl

-- A sort that turns the list around shows that any sort will do.
abbrev calm : World
calm = record { mkdir_fails = false; is_cancelled = λ i. false; write = λ i. done }

abbrev settings : Options
settings = record { max_decompressed_bytes = pos 4096; max_file_count = negsuc 4 }

abbrev before : Dir
before = (codes "b.json", codes "old") ∷ (codes "env", codes "ci") ∷ []

extract_tar_gz_to_dir-IsExtracted_example :
    IsExtracted reverse 4096 5000 archive before
      (codes "b.json" ∷ codes "a.json" ∷ [])
      (extract_tar_gz_to_dir reverse calm settings trailer (some archive) before)
unfolding extract_tar_gz_to_dir write_all write_files read_and_validate read_entries read_entry
    rejects read_body secure_base_name clean base is_local clean_parts join_slash split_slash
    starts_with text_discrete insert
extract_tar_gz_to_dir-IsExtracted_example =
    extract_tar_gz_to_dir-IsExtracted reverse calm settings trailer archive before
      (codes "b.json" ∷ codes "a.json" ∷ []) refl

extract_tar_gz_to_dir-written_example :
    (extract_tar_gz_to_dir reverse calm settings trailer (some archive) before).result
    ≡ written (codes "b.json" ∷ codes "a.json" ∷ [])
unfolding secure_base_name clean base is_local clean_parts join_slash split_slash starts_with
    text_discrete
extract_tar_gz_to_dir-written_example =
    extract_tar_gz_to_dir-written reverse calm settings trailer archive before
      (record { made = refl; on_time = λ i h. refl; works = λ i h. refl })
      ((λ h. absurd (cc)), ((λ h. (refl, refl, refl)), ((λ h. (refl, refl, refl)), tt)))
      (refl, (refl, tt)) (omega arith) (omega arith) (omega arith)
