-- ===== src/Manifest/Resolve/Tests.antt =====
-- A flake reference that builds one output.
use nixplan.Prelude.{String, str_eq, Bool, true, false, ◌&&◌, none, List, [], ◌∷◌}
use nixplan.Prelude.Int.{pos}
use nixplan.Paths.{slash}
use nixplan.Manifest.Read.{os_error}
use nixplan.Manifest.Resolve.{Places, Build, resolve}

abbrev is_output : List String → Bool
is_output (out ∷ file ∷ []) = str_eq out "out" && str_eq file "manifest.json"
is_output _ = false

abbrev places : Places
places = record {
  disk = record {
    links = record { cwd = record { anchor = slash; parts = [] }; resolve = λ p. p };
    is_file = λ p. is_output p.parts;
    text_at = λ p. os_error;
    json_at = λ p. os_error;
    store_variable = none;
    str = λ j. "";
  };
  exists = λ p. true;
  is_dir = λ p. false;
}

abbrev nix : String → Build
nix target = record { status = pos 0; stdout = "/out\n"; stderr = "" }
