-- ===== src/Manifest/Read.antt =====
-- `read` of cli/manifest.py and what it calls: the decode of the files of a build, the checks of
-- `manifest.json` as a whole, and one function per kind of record in it.
use nixplan.Prelude.{
  zero, suc, String, str_eq, Bool, true, false, not, ◌||◌, Option, none, some, List, [], ◌∷◌,
  if◌then◌else◌, is_empty, flat_map,
}
use nixplan.Prelude.Int.{pos}
use nixplan.Text.Words.{fstring}
use nixplan.Errors.{
  ApplyError, Result, ok, refuse, traverse, not_text, not_json, unreadable, rows_not_list,
  wrong_version, wrong_store, no_entries, no_realisers, no_machines, bad_profile, bad_address,
  bad_path, bad_program, bad_sealed, bad_machine_path, no_unsealer, realiser_without_scope,
  realiser_without_holdings, ◌>>=◌, ◌>>◌,
}
use nixplan.Sorted.{text_order}
use nixplan.Dict.{Dict, get, has, sorted_items}
use nixplan.Json.{Json, null, int, float, text, as_dict, as_list, as_bool}
use nixplan.Paths.{FilePath, path_text, join, relative}
use nixplan.Manifest.{
  ValueFile, Value, Entry, Machine, Coordination, Diagnostic, Realiser, Deployment,
}
use nixplan.Manifest.Fields.{mapping, text_field, texts_field, scope_field}
use nixplan.Manifest.Artifact.{Links, artifact}

-- What reading a file comes to: `OSError` and `ValueError` are the exceptions that are caught.
pub data Content (A : Type 0) : Type 0 where
  content : A → Content A
  os_error value_error : Content A

-- The file system, the environment, and Python's `str` of a value that is no text.
pub record Disk : Type 0 where
  pub links : Links
  pub is_file : FilePath → Bool
  pub text_at : FilePath → Content String
  pub json_at : FilePath → Content Json
  pub store_variable : Option String
  pub str : Json → String

-- `os.environ.get(STORE_VARIABLE) or DEFAULT_STORE`
unfoldable pub store_dir : Option String → String
store_dir none = "/nix/store"
store_dir (some s) = if str_eq s "" then "/nix/store" else s

unfoldable pub decoded : Disk → FilePath → Result Json
decoded disk p = elim (disk.json_at p) [
  | content j ↦ ok j
  | os_error ↦ refuse (unreadable p)
  | value_error ↦ refuse (not_json p)
]

unfoldable pub load : Disk → FilePath → Result (Dict Json)
unfolding decoded mapping path_text
load disk p = do j ← decoded disk p; mapping j (path_text p)

-- `_read`: a file that is not there has no text.
unfoldable pub read_text : Disk → FilePath → Result String
read_text disk p =
    if disk.is_file p
    then elim (disk.text_at p) [
      | content s ↦ ok s
      | os_error ↦ refuse (unreadable p)
      | value_error ↦ refuse (not_text p)
    ]
    else ok ""

abbrev is_three : Option Json → Bool
is_three (some (int (pos (suc (suc (suc zero)))))) = true
is_three (some (float s (some (pos (suc (suc (suc zero))))))) = true
is_three _ = false

abbrev is_text : Option Json → String → Bool
is_text (some (text s)) t = str_eq s t
is_text _ t = false

abbrev refuse_unless : Bool → ApplyError → Result (Unit {0})
refuse_unless true e = ok tt
refuse_unless false e = refuse e

-- `_shape`
unfoldable pub shape : Option String → FilePath → Dict Json → Result (Unit {0})
unfolding get has store_dir
shape store p interface = do
  refuse_unless (is_three (get interface "version")) (wrong_version p)
  refuse_unless (is_text (get interface "storeDir") (store_dir store)) (wrong_store p)
  refuse_unless (has interface "entries") (no_entries p)
  refuse_unless (has interface "realisers") (no_realisers p)
  refuse_unless (has interface "machines") (no_machines p)

-- A field that is absent or `null`, or a text.
abbrev optional_text : Option Json → ApplyError → Result (Option String)
optional_text none e = ok none
optional_text (some null) e = ok none
optional_text (some (text s)) e = ok (some s)
optional_text (some _) e = refuse e

-- A path: absent, `null`, or a text that is not empty.
abbrev optional_path : Option Json → ApplyError → Result (Option String)
optional_path none e = ok none
optional_path (some null) e = ok none
optional_path (some (text s)) e = if str_eq s "" then refuse e else ok (some s)
optional_path (some _) e = refuse e

abbrev located : Links → FilePath → String → Option String → Result (Option FilePath)
located links root key none = ok none
located links root key (some stated) = do p ← artifact links root key stated; ok (some p)

abbrev not_empty : Option String → Option String
not_empty none = none
not_empty (some s) = if str_eq s "" then none else some s

-- `_entry`
unfoldable pub entry : Links → FilePath → String → Dict Json → Result Entry
unfolding get text_field texts_field artifact
entry links root key fs = do
  profile ← optional_text (get fs "profile") (bad_profile key)
  address ← optional_text (get fs "address") (bad_address key)
  stated ← optional_path (get fs "path") (bad_path key)
  at ← located links root key stated
  realiser ← text_field fs "realiser" key
  machine ← text_field fs "machine" key
  units ← texts_field fs "units" key
  digest ← text_field fs "key" key
  ok (record {
    key = key;
    path = at;
    realiser = realiser;
    profile = profile;
    machine = machine;
    address = not_empty address;
    units = units;
    digest = digest;
  })

abbrev stated_bool : Option Json → ApplyError → Result Bool
stated_bool stated e = elim (as_bool stated) [ none ↦ refuse e | some b ↦ ok b ]

abbrev is_stated : Option String → Bool
is_stated none = false
is_stated (some s) = true

-- `_machine`
unfoldable pub machine : Links → FilePath → String → Dict Json → Result Machine
unfolding get scope_field artifact
machine links root name fs = do
  sealed ← stated_bool (get fs "sealed") (bad_sealed name)
  stated ← optional_path (get fs "path") (bad_machine_path name)
  refuse_unless (not sealed || is_stated stated) (no_unsealer name)
  scope ← scope_field fs (fstring ("machine " ∷ name ∷ []))
  at ← located links root (fstring ("machine " ∷ name ∷ [])) stated
  ok (record { name = name; sealed = sealed; scope = scope; path = at })

abbrev not_empty_dict : Option (Dict Json) → ApplyError → Result (Dict Json)
not_empty_dict none e = refuse e
not_empty_dict (some []) e = refuse e
not_empty_dict (some (h ∷ hs)) e = ok (h ∷ hs)

-- `_published`
unfoldable pub published : String → Dict Json → Result Realiser
unfolding get texts_field
published name fs = do
  scopes ← texts_field fs "scopes" (fstring ("realiser " ∷ name ∷ []))
  refuse_unless (not (is_empty scopes)) (realiser_without_scope name)
  holdings ← not_empty_dict (as_dict (get fs "holdings")) (realiser_without_holdings name)
  ok (record { name = name; scopes = scopes; holdings = holdings })

-- `_coordination`: an absent key and `null` are no statement.
unfoldable pub coordination : Option Json → Result (Option Coordination)
unfolding mapping text_field
coordination none = ok none
coordination (some null) = ok none
coordination (some stated) = do
  fs ← mapping stated "the coordination record of manifest.json"
  named ← text_field fs "entry" "the coordination record"
  credential ← text_field fs "credential" "the coordination record"
  program ← text_field fs "program" "the coordination record"
  configuration ← text_field fs "configuration" "the coordination record"
  ok (
      some (record {
        entry = named;
        credential = credential;
        program = program;
        configuration = configuration;
      }))

-- `_file`
unfoldable pub value_file : String → String × Json → Result ValueFile
unfolding mapping text_field
value_file key (name, stated) = do
  fs ← mapping stated (fstring (key ∷ " file " ∷ name ∷ []))
  let at = fstring (key ∷ "/" ∷ name ∷ [])
  p ← text_field fs "path" at
  sealed ← text_field fs "sealed" at
  secrecy ← text_field fs "secrecy" at
  owner ← text_field fs "owner" at
  group ← text_field fs "group" at
  mode ← text_field fs "mode" at
  ok (record {
    name = name;
    path = p;
    sealed = sealed;
    secrecy = secrecy;
    owner = owner;
    group = group;
    mode = mode;
  })

-- `record.get(field, {})`, checked to be a record
unfoldable pub optional_mapping : Option Json → String → Result (Dict Json)
unfolding mapping
optional_mapping none of = ok []
optional_mapping (some stated) of = mapping stated of

-- `_value`
unfoldable pub value : String → Dict Json → Result Value
unfolding get optional_mapping texts_field value_file sorted_items traverse
value key fs = do
  declared ← optional_mapping (get fs "files") (fstring ("the files of " ∷ key ∷ []))
  program ← optional_text (get fs "program") (bad_program key)
  delivery ← texts_field fs "delivery" key
  files ← traverse (value_file key) (sorted_items declared)
  ok (record { key = key; delivery = delivery; program = program; files = files })

-- `str(row.get(field, ""))`
unfoldable pub row_text : (Json → String) → Dict Json → String → String
unfolding get
row_text str fs field = elim (get fs field) [
  | none ↦ ""
  | some (text s) ↦ s
  | some other ↦ str other
]

unfoldable pub row : (Json → String) → Json → List Diagnostic
unfolding row_text
row str stated = elim (as_dict (some stated)) [
  | none ↦ []
  | some fs ↦
      record {
        id = row_text str fs "id";
        subject = row_text str fs "subject";
        severity = row_text str fs "severity";
        message = row_text str fs "message";
        evidence = row_text str fs "evidence";
        resolution = row_text str fs "resolution";
      }
      ∷ []
]

abbrev rows_in : Disk → FilePath → Option (List Json) → Result (List Diagnostic)
rows_in disk p none = refuse (rows_not_list p)
rows_in disk p (some xs) = ok (flat_map (row disk.str) xs)

-- `_rows`: no file is no row, and what is no record is passed over.
unfoldable pub rows : Disk → FilePath → Result (List Diagnostic)
unfolding decoded row
rows disk p =
    if disk.is_file p then (do j ← decoded disk p; rows_in disk p (as_list (some j))) else ok []

-- `{key: of(key, record) for key, record in sorted(table.items())}`, where each has to be a record.
unfoldable pub table_item {ℓ} :
    {A : Type ℓ} → String → (String → Dict Json → Result A) → String × Json → Result (String × A)
unfolding mapping
table_item kind make (key, stated) = do
  fs ← mapping stated (fstring ("manifest " ∷ kind ∷ " " ∷ key ∷ []))
  made ← make key fs
  ok (key, made)

unfoldable pub table {ℓ} :
    {A : Type ℓ} → String → (String → Dict Json → Result A) → Option Json → Result (Dict A)
unfolding table_item optional_mapping sorted_items traverse
table kind make stated = do
  fs ← optional_mapping stated "manifest.json"
  traverse (table_item kind make) (sorted_items fs)

abbrev pub file_of : FilePath → String → FilePath
file_of root name = join root (record { anchor = relative; parts = name ∷ [] })

-- `read`
unfoldable pub read : Disk → FilePath → Result Deployment
unfolding load shape table entry value machine published rows read_text coordination get join
read disk root = do
  interface ← load disk (file_of root "manifest.json")
  shape disk.store_variable (file_of root "manifest.json") interface
  plan ← load disk (file_of root "plan.json")
  entries ← table "entry" (entry disk.links root) (get interface "entries")
  values ← table "value" value (get interface "values")
  machines ← table "machine" (machine disk.links root) (get interface "machines")
  realisers ← table "realiser" published (get interface "realisers")
  diagnostics ← rows disk (file_of root "diagnostics.json")
  rendered ← read_text disk (file_of root "diagnostics.txt")
  stated ← coordination (get interface "coordination")
  ok (record {
    root = root;
    plan = plan;
    entries = entries;
    values = values;
    machines = machines;
    realisers = realisers;
    diagnostics = diagnostics;
    table = rendered;
    coordination = stated;
  })
