-- ===== src/Values/Leaves.antt =====
-- cli/values.py: `_leaves`, the walk of a value's own directory.
pub mod Finite
pub mod Tests
use nixplan.Prelude.{
  ℕ, zero, suc, ◌+◌, String, Bool, true, false, not, ◌&&◌, ◌||◌, Option, none, some, List, [], ◌∷◌,
  ◌++◌, map, length, if◌then◌else◌,
}
use nixplan.Sorted.{text_order, contains}
use nixplan.Paths.{FilePath, relative, path_text, below}

-- The file system, as far as the walk asks it. Two paths are equal where their texts are.
pub record Tree : Type 0 where
  pub is_dir : FilePath → Bool
  pub is_file : FilePath → Bool
  pub resolve : FilePath → FilePath
  pub names : FilePath → List String

-- `entry.relative_to(directory).as_posix()`, of an entry below the directory
abbrev dropped : List String → List String → List String
dropped [] parts = parts
dropped (d ∷ ds) [] = []
dropped (d ∷ ds) (p ∷ parts) = dropped ds parts

unfoldable pub relative_text : FilePath → FilePath → String
unfolding path_text
relative_text directory entry =
    path_text (record { anchor = relative; parts = dropped directory.parts entry.parts })

-- The directories of a listing go onto the stack, and its files are found.
unfoldable pub push_dirs : Tree → FilePath → List FilePath → List String → List FilePath
unfolding below
push_dirs tree here pending [] = pending
push_dirs tree here pending (name ∷ names) =
    push_dirs tree here
      (if tree.is_dir (below here name) then below here name ∷ pending else pending) names

unfoldable pub files_in : Tree → FilePath → FilePath → List String → List String
unfolding below relative_text
files_in tree directory here [] = []
files_in tree directory here (name ∷ names) =
    let entry = below here name in
    let rest = files_in tree directory here names in
    if not (tree.is_dir entry) && tree.is_file entry
    then relative_text directory entry ∷ rest
    else rest

abbrev pub is_passed : Tree → List String → FilePath → Bool
is_passed tree walked here =
    not (tree.is_dir here) || contains (path_text (tree.resolve here)) walked

-- The last directory that was put off is walked first. No result is a walk that is out of fuel.
unfoldable pub walk_leaves :
    Tree → FilePath → ℕ → List String → List FilePath → List String → Option (List String)
unfolding contains path_text push_dirs files_in
walk_leaves tree directory zero walked pending found = none
walk_leaves tree directory (suc fuel) walked [] found = some found
walk_leaves tree directory (suc fuel) walked (here ∷ pending) found =
    let passed = walk_leaves tree directory fuel walked pending found in
    let entered =
      walk_leaves tree directory fuel (path_text (tree.resolve here) ∷ walked)
        (push_dirs tree here pending (tree.names here))
        (found ++ files_in tree directory here (tree.names here)) in
    if is_passed tree walked here then passed else entered

unfoldable pub leaves : Tree → ℕ → FilePath → Option (List String)
unfolding walk_leaves
leaves tree fuel directory = walk_leaves tree directory fuel [] (directory ∷ []) []
