-- ===== src/Upload/Completes.antt =====
-- Which uploads go through.
use alluredeck.Prelude.{
  ℕ, ◌+◌, ◌≤◌, ◌<◌, ◌≡◌, sym, ◌∙◌, ap, false, List, [], ◌∷◌, ◌++◌, arith, Text, some, All, length,
}
use alluredeck.Upload.{Item, Reading, PendingEntry}
use mathlib.Core.List.{append_assoc, append-nil}
use alluredeck.Upload.Checks.{AllDifferent, regular}
use alluredeck.Upload.Accepts.{IsSound, bytes_read, read_and_validate-accepts}
use alluredeck.Upload.Written.{names_of}
use alluredeck.Upload.Extract.{
  Options, default_max_bytes, default_max_files, or_default, Dir, done, World, written, write_files,
  write_all, extract_read, extract_tar_gz_to_dir,
}

-- Nothing goes wrong with the first `n` files.
pub record IsCalm (w : World) (n : ℕ) : Type 0 where
  pub made : w.mkdir_fails ≡ false
  pub on_time : (i : ℕ) → i < n → w.is_cancelled i ≡ false
  pub works : (i : ℕ) → i < n → w.write i ≡ done

module _ (sort : List Text → List Text) (w : World) (total : ℕ) (calm : IsCalm w total) where
  write_files-written :
      (es : List PendingEntry) (i : ℕ) (names : List Text) (dir : Dir)
      → i + length es ≤ total
      → (write_files sort w total es i names dir).result ≡ written (sort (names ++ names_of es))
  unfolding write_files
  write_files-written [] i names dir few = ap (λ ns. written (sort ns)) (sym (append-nil names))
  write_files-written (e ∷ es) i names dir few =
      let here : i < total = omega (arith, few) in
      rw (calm.on_time i here, calm.works i here)
        (write_files-written es (i + 1) (names ++ (e.name ∷ [])) _ (omega (arith, few))
          ∙ ap (λ ns. written (sort ns)) (append_assoc names (e.name ∷ []) (names_of es)))

write_all-written :
    (sort : List Text → List Text) (w : World) (es : List PendingEntry) (dir : Dir)
    → IsCalm w (length es)
    → (write_all sort w es dir).result ≡ written (sort (names_of es))
unfolding write_all
write_all-written sort w es dir calm =
    rw calm.made (write_files-written sort w (length es) calm es 0 [] dir (omega arith))

-- An upload goes through when the file system and the context do not fail and the archive is sound:
-- it has at least one file and no more than the limit, the tar reader hands its entries out without an
-- error of its own, its files have names of one part that are not empty and all different, and all
-- its decompressed bytes are within the limit. The result then names all its files, sorted.
pub extract_tar_gz_to_dir-written :
    (sort : List Text → List Text) (w : World) (opts : Options) (trailer : Reading)
    (items : List Item) (dir : Dir)
    → IsCalm w (length (regular items))
    → All IsSound items
    → AllDifferent [] (regular items)
    → 0 < length (regular items)
    → length (regular items) ≤ or_default default_max_files opts.max_file_count
    → bytes_read trailer items ≤ or_default default_max_bytes opts.max_decompressed_bytes
    → (extract_tar_gz_to_dir sort w opts trailer (some items) dir).result
      ≡ written (sort (names_of (regular items)))
unfolding extract_tar_gz_to_dir
extract_tar_gz_to_dir-written sort w opts trailer items dir calm sound different some_file few
      fits =
    ap (λ x. (extract_read sort w x dir).result)
      (read_and_validate-accepts _ _ trailer items sound different some_file few fits)
    ∙ write_all-written sort w (regular items) dir calm
