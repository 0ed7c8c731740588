-- ===== src/Manifest/Tests.antt =====
-- Where stated artifacts land.
use nixplan.Prelude.{◌≡◌, refl, [], ◌∷◌, false}
use nixplan.Errors.{ok, refuse, outside_build}
use nixplan.Sorted.{text_order, contains}
use nixplan.Paths.{FilePath, relative, slash, path, join}
use nixplan.Manifest.Artifact.{Links, artifact}
use nixplan.Manifest.Contained.{Inside, artifact-Inside, artifact-ok}
use nixplan.Samples.{build_root}

abbrev links : Links
links = record { cwd = record { anchor = slash; parts = "home" ∷ [] }; resolve = λ p. p }

abbrev found : FilePath
found = record { anchor = slash; parts = "build" ∷ "web" ∷ ".." ∷ "api" ∷ [] }

artifact-inside : artifact links build_root "api" "web/../api" ≡ ok found
unfolding artifact
artifact-inside = refl

artifact-climbs :
    artifact links build_root "api" "../api"
    ≡ refuse (outside_build "api" "../api" (record { anchor = slash; parts = "api" ∷ [] }))
unfolding artifact
artifact-climbs = refl

artifact-Inside_example : Inside links build_root "web/../api" found
artifact-Inside_example = artifact-Inside links build_root "api" "web/../api" found artifact-inside

without_dots : contains ".." (path "api/bin").parts ≡ false
unfolding contains path
without_dots = refl

stated_relative : (path "api/bin").anchor ≡ relative
unfolding path
stated_relative = refl

artifact-ok_example :
    artifact links build_root "api" "api/bin"
    ≡ ok (links.resolve (join build_root (path "api/bin")))
artifact-ok_example = artifact-ok links build_root "api" "api/bin" refl stated_relative without_dots
