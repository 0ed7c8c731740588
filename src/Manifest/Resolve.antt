-- ===== src/Manifest/Resolve.antt =====
-- cli/manifest.py: `resolve`, which finds the directory of a built deployment.
pub mod Tests
use nixplan.Prelude.{
  String, str_eq, Bool, not, ◌&&◌, ◌≡◌, List, [], ◌∷◌, ◌++◌, Option, none, some, if◌then◌else◌,
}
use nixplan.Prelude.Int.{ℤ, pos}
use nixplan.Text.Words.{points, words, strip}
use nixplan.Errors.{
  Result, ok, refuse, collected, not_deployment, not_built, built_nothing, built_other,
}
use nixplan.Sorted.{nat_order, contains}
use nixplan.Paths.{FilePath, path, join, is_relative_to}
use nixplan.Manifest.Read.{Disk, store_dir, file_of}
use nixplan.Remote.Holdings.{is_success}

-- What the file system says of a path, and what `nix build` comes back with.
pub record Places : Type 0 where
  pub disk : Disk
  pub exists : FilePath → Bool
  pub is_dir : FilePath → Bool

pub record Build : Type 0 where
  pub status : ℤ
  pub stdout : String
  pub stderr : String

abbrev pub is_deployment : Places → FilePath → Bool
is_deployment places root = places.disk.is_file (file_of root "manifest.json")

-- A store path that is no longer there.
abbrev pub is_collected : Places → String → Bool
is_collected places target =
    not (contains 35 (points target))
    && (is_relative_to (path target) (path (store_dir places.disk.store_variable))
        && not (places.exists (path target)))

-- A directory that is neither a built deployment nor a flake.
abbrev pub is_neither : Places → String → Bool
is_neither places target =
    places.is_dir (path target) && not (places.disk.is_file (file_of (path target) "flake.nix"))

-- `paths[-1]`
abbrev last_path : String → List String → String
last_path first [] = first
last_path first (p ∷ ps) = last_path p ps

unfoldable pub built_root : Places → String → List String → Result FilePath
unfolding path join
built_root places target [] = refuse (built_nothing target)
built_root places target (p ∷ ps) =
    let root = path (last_path p ps) in
    if is_deployment places root then ok root else refuse (built_other target root)

unfoldable pub built_at : Places → String → Build → Result FilePath
unfolding built_root words strip
built_at places target build =
    if is_success build.status
    then built_root places target (words build.stdout)
    else refuse (not_built target (strip build.stderr))

-- `resolve`, of what `nix build` makes of a target
unfoldable pub resolve : Places → (String → Build) → String → Result FilePath
unfolding path join contains is_relative_to store_dir built_at
resolve places nix target =
    if is_deployment places (path target)
    then ok (path target)
    else if is_collected places target
    then refuse (collected target)
    else if is_neither places target
    then refuse (not_deployment target)
    else built_at places target (nix target)

-- A path is that of the last word of what a build printed.
abbrev pub IsLastPrinted : Build → FilePath → Type 0
IsLastPrinted build root =
    (before : List String) × (last : String) × (words build.stdout ≡ before ++ last ∷ [])
    × (path last ≡ root)
