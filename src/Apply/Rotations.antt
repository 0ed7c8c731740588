-- ===== src/Apply/Rotations.antt =====
-- cli/apply.py: the entries that a run restarts because a value they read moved (`rotations` and
-- `_reads`).
use nixplan.Prelude.{
  String, str_eq, Bool, not, ◌&&◌, Option, none, some, List, [], ◌∷◌, flat_map, is_empty,
  if◌then◌else◌,
}
use nixplan.Errors.{Result, ok, traverse, traverse_flat, ◌>>=◌}
use nixplan.Sorted.{text_order, pair_order, contains, sorted, sorted_set}
use nixplan.Dict.{Dict, get, put, values}
use nixplan.Order.{Plan, Read, Pair, reads}
use nixplan.Manifest.{ValueFile, Value, Entry, Deployment}
use nixplan.Apply.{entry_at}

-- `index`: every declared path, to its value. A later file replaces an earlier one at its path.
unfoldable pub index_files : Dict String → String → List ValueFile → Dict String
unfolding put
index_files d key [] = d
index_files d key (f ∷ fs) = index_files (put d f.path key) key fs

unfoldable pub index_values : Dict String → List Value → Dict String
unfolding index_files
index_values d [] = d
index_values d (v ∷ vs) = index_values (index_files d v.key v.files) vs

unfoldable pub index_paths : Deployment → Dict String
unfolding index_values
index_paths d = index_values [] (values d.values)

abbrev pub found_at : Option String → List String
found_at none = []
found_at (some key) = key ∷ []

-- `_reads`
unfoldable pub reads_values : Plan → String → Dict String → Result (List String)
unfolding reads get
reads_values plan key index = do
  rs ← reads plan key
  ok (flat_map (λ (r : Read). flat_map (λ path. found_at (get index path)) r.paths) rs)

-- `reading`: each entry with the values that its reads name
unfoldable pub entry_reading : Plan → Dict String → String → Result (String × List String)
unfolding reads_values
entry_reading plan index key = do values ← reads_values plan key index; ok (key, values)

-- Whether a value that moved on a machine restarts an entry.
abbrev pub restarts_entry : Entry → List String → Pair → Bool
restarts_entry e reading (value, machine) =
    str_eq e.machine machine && (not (is_empty e.units) && contains value reading)

unfoldable pub restart_if : Deployment → Pair → String × List String → Result (List Pair)
unfolding entry_at contains
restart_if d (value, machine) (key, reading) = do
  e ← entry_at d key
  ok (if restarts_entry e reading (value, machine) then (value, key) ∷ [] else [])

-- `rotations`: every value that moved, over every entry. The set of what moved is gone through in
-- order here, which the sorting makes no difference to.
unfoldable pub rotations : Deployment → List String → List Pair → Result (List Pair)
unfolding entry_reading restart_if index_paths sorted_set sorted traverse traverse_flat
rotations d ks moved = do
  readings ← traverse (entry_reading d.plan (index_paths d)) ks
  found ← traverse_flat (λ m. traverse_flat (restart_if d m) readings) (sorted_set moved)
  ok (sorted found)
