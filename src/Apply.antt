-- ===== src/Apply.antt =====
-- cli/apply.py: what a run decides before it dials a machine. `Run` has the steps that it then
-- takes, and `Rotated` and `Walked` the proofs.
pub mod Rotations
pub mod Run
pub mod Whole
pub mod Commands
pub mod Failed
pub mod Dry
pub mod Through
pub mod Steps
pub mod Retired
pub mod Walked
pub mod Stopped
pub mod Indexed
pub mod Rotated
pub mod Tests
use nixplan.Prelude.{
  ℕ, String, str_eq, Bool, true, false, not, ◌&&◌, Option, none, some, List, [], ◌∷◌, ◌++◌, map,
  filter, any, flat_map, is_empty, if◌then◌else◌,
}
use nixplan.Text.Words.{fstring, join_by}
use nixplan.Errors.{
  Result, ok, raises, refuse, traverse, traverse_flat, key_error, unknown_key, not_applicable,
  no_source, ◌>>=◌, ◌>>◌,
}
use nixplan.Sorted.{text_order, pair_order, contains, sorted, sorted_set}
use nixplan.Dict.{Dict, get, has, put, keys, values, sorted_items}
use nixplan.Paths.{FilePath}
use nixplan.Order.{Plan, Read, Pair, WalkResult, reads}
use nixplan.Manifest.{ValueFile, Value, Entry, Machine, Deployment, errors, user}
use nixplan.Manifest.Ask.{address_of, machine_address, machine_of, machine_recipient, machine_scope}
use nixplan.Values.{Declared, is_none, machines_of, required}

-- The bytes of a file
abbrev pub Bytes : Type 0
Bytes = List ℕ

pub record Write : Type 0 where
  pub value : Value
  pub file : ValueFile
  pub machine : String
  pub address : String
  pub content : Bytes
  pub sealed : Option Bytes

-- The requirements of a `Preflight` follow from whether the account's portabled is among them.
pub record Preflight : Type 0 where
  pub machine : String
  pub address : String
  pub portabled : Bool

pub record Unsealer : Type 0 where
  pub machine : String
  pub address : String
  pub scope : String
  pub artifact : FilePath

-- What a run reads: a file of the value source, and what the sealing program makes of a recipient
-- and a content, or how it refuses.
pub record Outside : Type 0 where
  pub bytes_of : FilePath → Value → ValueFile → Result Bytes
  pub seal : (program recipient : String) → Bytes → Result Bytes

-- `deployment.entries[key]`
unfoldable pub entry_at : Deployment → String → Result Entry
unfolding get
entry_at d key = elim (get d.entries key) [ none ↦ raises (key_error key) | some e ↦ ok e ]

-- `selection`: the loop over `--only`, and the entries and values that it found.
unfoldable pub select : Deployment → List String → Result (List String × List String)
unfolding has
select d [] = ok ([], [])
select d (key ∷ rest) =
    let later = select d rest in
    if has d.entries key
    then (do (entries, named) ← later; ok (key ∷ entries, named))
    else if has d.values key
    then (do (entries, named) ← later; ok (entries, key ∷ named))
    else refuse (unknown_key key)

unfoldable pub selection : Deployment → List String → Result (List String × List String)
unfolding select sorted_set
selection d [] = ok (sorted_set (keys d.entries), [])
selection d (key ∷ rest) = do
  (entries, named) ← select d (key ∷ rest)
  ok (sorted_set entries, sorted_set named)

unfoldable pub refuse_inapplicable : Deployment → Result (Unit {0})
unfolding errors
refuse_inapplicable d = if is_empty (errors d) then ok tt else refuse (not_applicable d.root)

-- `setdefault`
unfoldable pub set_default {ℓ} : {V : Type ℓ} → Dict V → String → V → Dict V
unfolding has put
set_default d k v = if has d k then d else put d k v

unfoldable pub reached_by : Dict String → List Write → Dict String
unfolding set_default
reached_by d [] = d
reached_by d (w ∷ ws) = reached_by (set_default d w.machine w.address) ws

unfoldable pub reached_with :
    Deployment → Dict String → List (String × String) → Result (Dict String)
unfolding set_default entry_at
reached_with d reached [] = ok reached
reached_with d reached ((key, address) ∷ rest) = do
  e ← entry_at d key
  reached_with d (set_default reached e.machine address) rest

-- The machines of the image entries among `taken`.
abbrev machine_if_image : Entry → List String
machine_if_image e = if str_eq e.realiser "image" then e.machine ∷ [] else []

unfoldable pub attaching : Deployment → List String → Result (List String)
unfolding entry_at traverse_flat
attaching d taken = traverse_flat (λ key. do e ← entry_at d key; ok (machine_if_image e)) taken

abbrev preflight_if_user : String → Preflight → List Preflight
preflight_if_user scope asked = if str_eq scope user then asked ∷ [] else []

unfoldable pub preflight_of : Deployment → List String → String × String → Result (List Preflight)
unfolding machine_scope contains
preflight_of d attached (machine, address) = do
  scope ← machine_scope d machine
  ok (
      preflight_if_user scope
        (record { machine = machine; address = address; portabled = contains machine attached }))

-- `preflights`, with the address of each entry beside its key.
unfoldable pub preflights :
    Deployment → List (String × String) → List Write → Result (List Preflight)
unfolding reached_by reached_with attaching preflight_of traverse_flat sorted_items
preflights d taken planned = do
  reached ← reached_with d (reached_by [] planned) taken
  attached ← attaching d (map (λ (t : String × String). t.0) taken)
  traverse_flat (preflight_of d attached) (sorted_items reached)

unfoldable pub announcements : WalkResult → List Pair → List String
unfolding join_by
announcements walked withheld =
    map (λ cycle. fstring ("cycle of " ∷ join_by ", " cycle ∷ [])) walked.cycles
    ++ map (λ (e : Pair). fstring ("ordered against the read of " ∷ e.0 ∷ " by " ∷ e.1 ∷ []))
        walked.broken
    ++ map (λ (e : Pair). fstring ("not applying " ∷ e.1 ∷ ", which " ∷ e.0 ∷ " reads" ∷ []))
        withheld

-- `writes`: the sealed copy of one write, if the run seals and the copies of the machine are sealed.
abbrev pub seal_if : Bool → Result Bytes → Result (Option Bytes)
seal_if false copy = ok none
seal_if true copy = do made ← copy; ok (some made)

unfoldable pub sealed_copy :
    Outside → Deployment → Option String → String → Declared → Bytes → Result (Option Bytes)
unfolding machine_of machine_recipient
sealed_copy outside d none machine (value, file) content = ok none
sealed_copy outside d (some program) machine (value, file) content = do
  m ← machine_of d machine value.key
  seal_if m.sealed (do
    recipient ← machine_recipient d machine (fstring (value.key ∷ " " ∷ file.name ∷ []))
    outside.seal program recipient content)

unfoldable pub write_to :
    Outside → Deployment → Option String → Declared → Bytes → String → Result Write
unfolding machine_address sealed_copy
write_to outside d sealing (value, file) content machine = do
  address ← machine_address d machine value.key
  copy ← sealed_copy outside d sealing machine (value, file) content
  ok (record {
    value = value;
    file = file;
    machine = machine;
    address = address;
    content = content;
    sealed = copy;
  })

unfoldable pub writes_of :
    Outside
    → Deployment
    → Option FilePath
    → Dict (List String)
    → Option String
    → Declared
    → Result (List Write)
unfolding machines_of write_to traverse
writes_of outside d none reach sealing (value, file) = refuse (no_source value.key file.name)
writes_of outside d (some source) reach sealing (value, file) = do
  content ← outside.bytes_of source value file
  machines ← machines_of reach value.key
  traverse (write_to outside d sealing (value, file) content) machines

unfoldable pub writes :
    Outside
    → Deployment
    → Option FilePath
    → Dict (List String)
    → Option String
    → Result (List Write)
unfolding required writes_of traverse_flat
writes outside d source reach sealing = do
  files ← required d (keys reach)
  traverse_flat (writes_of outside d source reach sealing) files

-- `unsealers`
unfoldable pub unsealer_if :
    Deployment → String → String → Machine → Option FilePath → Result (List Unsealer)
unfolding machine_scope
unsealer_if d machine address stated none = ok []
unsealer_if d machine address stated (some artifact) =
    if stated.sealed
    then (do
      scope ← machine_scope d machine
      ok (record { machine = machine; address = address; scope = scope; artifact = artifact } ∷ []))
    else ok []

unfoldable pub unsealer_of : Deployment → String × String → Result (List Unsealer)
unfolding machine_of unsealer_if
unsealer_of d (machine, address) = do
  stated ← machine_of d machine (fstring ("the values of " ∷ machine ∷ []))
  unsealer_if d machine address stated stated.path

unfoldable pub unsealers : Deployment → List Write → Result (List Unsealer)
unfolding reached_by unsealer_of traverse_flat sorted_items
unsealers d planned = traverse_flat (unsealer_of d) (sorted_items (reached_by [] planned))
