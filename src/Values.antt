-- ===== src/Values.antt =====
-- cli/values.py: which generated values a run answers for, and the check of the value source.
pub mod Laws
pub mod Sealed
pub mod Leaves
pub mod Checked
pub mod Tests
use nixplan.Prelude.{
  ℕ, String, str_eq, Bool, true, false, not, ◌&&◌, ◌||◌, Option, none, some, List, [], ◌∷◌, ◌++◌,
  map, filter, any, flat_map, is_empty, if◌then◌else◌,
}
use nixplan.Text.Words.{fstring}
use nixplan.Errors.{
  ApplyError, Result, ok, raises, refuse, traverse_flat, key_error, unsealable, no_source,
  undelivered_file, source_not_directory, generated_file, undeclared_files, ◌>>=◌, ◌>>◌,
}
use nixplan.Sorted.{text_order, contains, sorted_set}
use nixplan.Dict.{Dict, get, has, put, keys, sorted_items}
use nixplan.Paths.{FilePath}
use nixplan.Manifest.{ValueFile, Value, Machine, Deployment}
use nixplan.Manifest.Ask.{machine_of}

-- A file of a value, as the program pairs them.
abbrev pub Declared : Type 0
Declared = Value × ValueFile

abbrev pub is_none {ℓ} : {A : Type ℓ} → Option A → Bool
is_none none = true
is_none (some a) = false

abbrev is_delivered : String × Value → Bool
is_delivered (key, value) = not (is_empty value.delivery)

unfoldable pub delivered : Deployment → List String
unfolding sorted_items
delivered d = keys (filter is_delivered (sorted_items d.values))

-- The machines of its delivery set that a run writes one value to; none for a value that the run
-- does not answer for.
unfoldable pub reach_of : List String → List String → String → List String → Option (List String)
unfolding contains
reach_of machines named key delivery =
    if contains key named
    then some delivery
    else if any (λ machine. contains machine machines) delivery
    then some (filter (λ machine. contains machine machines) delivery)
    else none

abbrev reach_item : Option (List String) → String → Dict (List String)
reach_item none key = []
reach_item (some machines) key = (key, machines) ∷ []

abbrev pub delivery_of : Option Value → List String
delivery_of none = []
delivery_of (some value) = value.delivery

-- `reaching`, a `dict` in key order
unfoldable pub reaching : Deployment → List String → List String → Dict (List String)
unfolding delivered reach_of get
reaching d machines named =
    flat_map (λ key. reach_item (reach_of machines named key (delivery_of (get d.values key))) key)
      (delivered d)

abbrev files_if : Bool → Option Value → List Declared
files_if generated none = []
files_if generated (some value) =
    if not (is_empty value.delivery)
      && (if generated then not (is_none value.program) else is_none value.program)
    then map (λ file. (value, file)) value.files
    else []

-- `required`: the files that a run writes. A key of no value is Python's `KeyError`.
unfoldable pub files_of_key : Deployment → String → Result (List Declared)
unfolding get
files_of_key d key = elim (get d.values key) [
  | none ↦ raises (key_error key)
  | some value ↦ ok (files_if false (some value))
]

unfoldable pub required : Deployment → List String → Result (List Declared)
unfolding files_of_key sorted_set traverse_flat
required d ks = traverse_flat (files_of_key d) (sorted_set ks)

-- `generated`: the files that the external generator delivers.
unfoldable pub generated : Deployment → List Declared
unfolding get delivered
generated d = flat_map (λ key. files_if true (get d.values key)) (delivered d)

-- `reaching[key]`
unfoldable pub machines_of : Dict (List String) → String → Result (List String)
unfolding get
machines_of reach key = elim (get reach key) [
  | none ↦ raises (key_error key)
  | some machines ↦ ok machines
]

abbrev if_sealed : String → Machine → List String
if_sealed machine m = if m.sealed then machine ∷ [] else []

-- `machine`, if its copies are sealed
unfoldable pub sealed_machine : Deployment → String → String → Result (List String)
unfolding machine_of
sealed_machine d key machine = do m ← machine_of d machine key; ok (if_sealed machine m)

unfoldable pub sealed_machines : Deployment → Dict (List String) → Declared → Result (List String)
unfolding sealed_machine machines_of traverse_flat
sealed_machines d reach (value, file) = do
  machines ← machines_of reach value.key
  traverse_flat (sealed_machine d value.key) machines

-- `sealing`: the machines of the run whose copies are sealed
unfoldable pub sealing : Deployment → Dict (List String) → Result (List String)
unfolding sealed_machines required sorted_set traverse_flat
sealing d reach = do
  files ← required d (keys reach)
  found ← traverse_flat (sealed_machines d reach) files
  ok (sorted_set found)

-- `sealer`, where `runs` says whether a path names a file that the process may execute
unfoldable pub sealer : (String → Bool) → List String → Option String → Result (Option String)
sealer runs [] program = ok none
sealer runs (m ∷ ms) none = refuse (unsealable (m ∷ ms))
sealer runs (m ∷ ms) (some program) =
    if not (str_eq program "") && runs program
    then ok (some program)
    else refuse (unsealable (m ∷ ms))

-- `_index`: each file by the path that a source addresses it at.
abbrev pub place_in_source : Declared → String
place_in_source (value, file) = fstring (value.key ∷ "/" ∷ file.name ∷ [])

unfoldable pub index_onto : Dict Declared → List Declared → Dict Declared
unfolding put
index_onto d [] = d
index_onto d (f ∷ fs) = index_onto (put d (place_in_source f) f) fs

unfoldable pub index : List Declared → Dict Declared
unfolding index_onto
index fs = index_onto [] fs

-- A value source that was named: whether it is a directory, and the files under the directory of
-- one value, each by its path below that directory.
pub record Source : Type 0 where
  pub root : FilePath
  pub is_directory : Bool
  pub leaves : String → List String

-- `held`
unfoldable pub held : Source → List String → List String
unfolding sorted_set
held source ks =
    sorted_set
      (flat_map (λ key. map (λ below. fstring (key ∷ "/" ∷ below ∷ [])) (source.leaves key)) ks)

abbrev present_in : Option Source → List String → List String
present_in none ks = []
present_in (some source) ks = held source ks

-- A declared file that the source has to hold and does not.
abbrev is_missing : List String → List String → String × Declared → Bool
is_missing answerable present (relative, (value, file)) =
    contains value.key answerable && not (contains relative present)

abbrev missing_refusal : Option Source → Declared → Result (Unit {0})
missing_refusal none (value, file) = refuse (no_source value.key file.name)
missing_refusal (some source) (value, file) = refuse (undelivered_file value.key file.name)

-- The loop over the declared files, which ends at the first one missing.
unfoldable pub check_declared :
    Option Source → List String → List String → Dict Declared → Result (Unit {0})
unfolding contains
check_declared source answerable present [] = ok tt
check_declared source answerable present ((relative, file) ∷ rest) =
    if is_missing answerable present (relative, file)
    then missing_refusal source file
    else check_declared source answerable present rest

abbrev key_at : Dict Declared → String → String
key_at mine relative = elim (get mine relative) [ none ↦ "" | some (value, file) ↦ value.key ]

abbrev pub refuse_any : (String → List String → ApplyError) → List String → Result (Unit {0})
refuse_any refusal [] = ok tt
refuse_any refusal (first ∷ others) = refuse (refusal first others)

-- The refusal of a source that holds a file of the generator's.
unfoldable pub check_generated : List String → Dict Declared → Result (Unit {0})
unfolding get has sorted_set
check_generated present mine =
    refuse_any (λ first others. generated_file first (key_at mine first))
      (sorted_set (filter (has mine) present))

-- The refusal of a source that holds a file that no value declares.
unfoldable pub check_extra : List String → Dict Declared → Result (Unit {0})
unfolding has sorted_set
check_extra present files =
    refuse_any (λ first others. undeclared_files (first ∷ others))
      (sorted_set (filter (λ relative. not (has files relative)) present))

unfoldable pub check_root : Option Source → Result (Unit {0})
check_root none = ok tt
check_root (some source) =
    if source.is_directory then ok tt else refuse (source_not_directory source.root)

-- `check`
unfoldable pub check : Deployment → Option Source → List String → Result (Unit {0})
unfolding check_root required delivered held index check_declared check_generated check_extra
    generated
check d source answerable = do
  check_root source
  let present = present_in source (delivered d)
  declared ← required d (delivered d)
  check_declared source answerable present (index declared)
  check_generated present (index (generated d))
  check_extra present (index declared)
