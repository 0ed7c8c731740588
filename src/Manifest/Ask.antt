-- ===== src/Manifest/Ask.antt =====
-- What a step asks of a deployment that was read: an address, a recipient, a scope, an artifact and
-- what the artifact declares, each with the refusal that it makes.
use nixplan.Prelude.{String, str_eq, Option, none, some, List, [], ◌∷◌, if◌then◌else◌}
use nixplan.Text.Words.{fstring}
use nixplan.Errors.{
  Result, ok, refuse, undialled_entry, no_machine_record, machine_undialled, no_recipient,
  unlisted_machine, unpublished_realiser, scope_not_realised, no_artifact, not_declared, ◌>>=◌,
}
use nixplan.Sorted.{text_order, contains}
use nixplan.Dict.{Dict, get, put}
use nixplan.Json.{Json, text, as_dict, as_text}
use nixplan.Paths.{FilePath, join, path, path_text}
use nixplan.Order.{Plan}
use nixplan.Manifest.{Entry, Machine, Realiser, Deployment, machine_prefix, system, seal_recipient}
use nixplan.Manifest.Fields.{scope_of, scope_field}
use nixplan.Manifest.Read.{Disk, load}

unfoldable pub address_of : Entry → Result String
address_of e = elim e.address [ none ↦ refuse (undialled_entry e.key e.machine) | some a ↦ ok a ]

-- `deployment.plan.get(f"machine:{machine}")`, if it is a record
unfoldable pub machine_record : Deployment → String → Option (Dict Json)
unfolding get
machine_record d machine = as_dict (get d.plan (fstring (machine_prefix ∷ machine ∷ [])))

unfoldable pub machine_address : Deployment → String → String → Result String
unfolding machine_record get
machine_address d machine of = elim (machine_record d machine) [
  | none ↦ refuse (no_machine_record machine of)
  | some fs ↦ elim (as_text (get fs "address")) [
    | none ↦ refuse (machine_undialled machine of)
    | some a ↦ if str_eq a "" then refuse (machine_undialled machine of) else ok a
  ]
]

unfoldable pub machine_recipient : Deployment → String → String → Result String
unfolding machine_record get
machine_recipient d machine of = elim (machine_record d machine) [
  | none ↦ refuse (no_machine_record machine of)
  | some fs ↦ elim (as_text (get fs seal_recipient)) [
    | none ↦ refuse (no_recipient machine of)
    | some r ↦ if str_eq r "" then refuse (no_recipient machine of) else ok r
  ]
]

unfoldable pub machine_of : Deployment → String → String → Result Machine
unfolding get
machine_of d machine of = elim (get d.machines machine) [
  | none ↦ refuse (unlisted_machine machine of)
  | some m ↦ ok m
]

-- A record that states no scope, and no record, read as the system's.
unfoldable pub stated_scope : Option (Dict Json) → String → Result String
unfolding scope_of scope_field
stated_scope none of = scope_of (text system) of
stated_scope (some fs) of = scope_field fs of

unfoldable pub machine_scope : Deployment → String → Result String
unfolding machine_record stated_scope
machine_scope d machine =
    stated_scope (machine_record d machine) (fstring ("machine " ∷ machine ∷ []))

-- `record.get("target")`, if both are records
unfoldable pub target_of : Plan → String → Option (Dict Json)
unfolding get
target_of plan key = elim (as_dict (get plan key)) [
  | none ↦ none
  | some fs ↦ as_dict (get fs "target")
]

unfoldable pub realised : Entry → String → Option Realiser → Result String
unfolding contains
realised e scope none = refuse (unpublished_realiser e.key e.realiser)
realised e scope (some published) =
    if contains scope published.scopes then ok scope else refuse (scope_not_realised e.key scope)

unfoldable pub entry_scope : Deployment → Entry → Result String
unfolding target_of stated_scope get realised
entry_scope d e = do
  scope ← stated_scope (target_of d.plan e.key) (fstring ("the target of " ∷ e.key ∷ []))
  realised e scope (get d.realisers e.realiser)

unfoldable pub artifact_of : Entry → Result FilePath
artifact_of e = elim e.path [ none ↦ refuse (no_artifact e.key) | some p ↦ ok p ]

-- `_declared`: one text of an artifact's own record.
unfoldable pub declared : Disk → Entry → String → String → Result String
unfolding artifact_of load get join path
declared disk e file field = do
  at ← artifact_of e
  fs ← load disk (join at (path file))
  elim (as_text (get fs field)) [
    | none ↦ refuse (not_declared e.key file)
    | some s ↦ if str_eq s "" then refuse (not_declared e.key file) else ok s
  ]

unfoldable pub service_name : Disk → Entry → Result String
unfolding declared
service_name disk e = declared disk e "meta.json" "name"

unfoldable pub image_file : Disk → Entry → Result String
unfolding declared
image_file disk e = declared disk e "attachment.json" "image"

-- `unit_files`: each unit with the store path of its file.
unfoldable pub unit_files_from : Disk → FilePath → Dict String → List String → Dict String
unfolding join path_text put
unit_files_from disk at files [] = files
unit_files_from disk at files (unit ∷ units) =
    let file = disk.links.resolve (join (join at (path "units")) (path unit)) in
    unit_files_from disk at (put files unit (path_text file)) units

unfoldable pub unit_files : Disk → Entry → Result (Dict String)
unfolding artifact_of unit_files_from
unit_files disk e = do at ← artifact_of e; ok (unit_files_from disk at [] e.units)
