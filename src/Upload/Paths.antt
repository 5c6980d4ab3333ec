-- ===== src/Upload/Paths.antt =====
-- Go's `path/filepath` on Unix, as far as secureBaseName of api/internal/runner/tar_extract.go calls it.
use alluredeck.Prelude.{
  ℕ, Bool, false, not, ◌||◌, List, [], ◌∷◌, ◌++◌, Text, text_eq, codes, if◌then◌else◌, ◌==◌, any,
}
use alluredeck.Prelude.Texts.{starts_with}
use mathlib.Core.List.{reverse}

abbrev pub extend : ℕ → List Text → List Text
extend c [] = (c ∷ []) ∷ []
extend c (part ∷ parts) = (c ∷ part) ∷ parts

-- The parts between the slashes.
unfoldable pub split_slash : Text → List Text
split_slash [] = [] ∷ []
split_slash (c ∷ s) = let parts = split_slash s in if c == b'/' then [] ∷ parts else extend c parts

abbrev pub up : Bool → List Text → List Text
up rooted [] = if rooted then [] else codes ".." ∷ []
up rooted (top ∷ stack) = if text_eq top (codes "..") then codes ".." ∷ (top ∷ stack) else stack

-- The parts that `Clean` keeps, the last one first.
unfoldable pub clean_parts : Bool → List Text → List Text → List Text
clean_parts rooted stack [] = stack
clean_parts rooted stack (part ∷ parts) =
    if text_eq part [] || text_eq part (codes ".")
    then clean_parts rooted stack parts
    else (if text_eq part (codes "..")
        then clean_parts rooted (up rooted stack) parts
        else clean_parts rooted (part ∷ stack) parts)

-- The parts, of which the last one stands first, with slashes between them.
unfoldable pub join_slash : List Text → Text
join_slash [] = []
join_slash (part ∷ []) = part
join_slash (part ∷ (before ∷ parts)) = join_slash (before ∷ parts) ++ (b'/' ∷ part)

abbrev pub is_rooted : Text → Bool
is_rooted name = starts_with name (codes "/")

abbrev pub or_dot : Text → Text
or_dot s = if text_eq s [] then codes "." else s

-- `filepath.Clean`.
unfoldable pub clean : Text → Text
clean name =
    let body = join_slash (clean_parts (is_rooted name) [] (split_slash name)) in
    if is_rooted name then b'/' ∷ body else or_dot body

abbrev pub last_part : List Text → Text
last_part [] = []
last_part (part ∷ []) = part
last_part (part ∷ (next ∷ parts)) = last_part (next ∷ parts)

abbrev pub drop_slashes : Text → Text
drop_slashes [] = []
drop_slashes (c ∷ s) = if c == b'/' then drop_slashes s else c ∷ s

abbrev pub or_slash : Text → Text
or_slash s = if text_eq s [] then codes "/" else s

-- `filepath.Base`: the last part, without slashes at the end.
unfoldable pub base : Text → Text
base path =
    if text_eq path []
    then codes "."
    else or_slash (last_part (split_slash (reverse (drop_slashes (reverse path)))))

abbrev pub is_dots : Text → Bool
is_dots part = text_eq part (codes ".") || text_eq part (codes "..")

-- `filepath.IsLocal`.
unfoldable pub is_local : Text → Bool
is_local path =
    let cleaned = if any is_dots (split_slash path) then clean path else path in
    if is_rooted path || text_eq path []
    then false
    else not (text_eq cleaned (codes "..") || starts_with cleaned (codes "../"))
