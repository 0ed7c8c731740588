-- ===== src/Manifest/Artifact.antt =====
-- `_artifact`: where a path that the manifest states lands, settled before any link is followed.
use nixplan.Prelude.{String, if◌then◌else◌}
use nixplan.Errors.{Result, ok, refuse, outside_build}
use nixplan.Paths.{FilePath, path, join, absolute, is_relative_to}

-- The working directory, and `Path.resolve`, which follows the links of the file system.
pub record Links : Type 0 where
  pub cwd : FilePath
  pub resolve : FilePath → FilePath

unfoldable pub landed : Links → FilePath → String → FilePath
unfolding absolute join path
landed links root stated = absolute links.cwd (join (absolute links.cwd root) (path stated))

unfoldable pub artifact : Links → FilePath → String → String → Result FilePath
unfolding landed is_relative_to
artifact links root key stated =
    if is_relative_to (landed links root stated) (absolute links.cwd root)
    then ok (links.resolve (join root (path stated)))
    else refuse (outside_build key stated (landed links root stated))
