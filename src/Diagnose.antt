-- ===== src/Diagnose.antt =====
-- cli/diagnose.py: the rows of a deployment and the table rendered from them.
pub mod Shapes
pub mod Tests
use nixplan.Prelude.{
  zero, String, str_eq, Bool, true, false, ◌&&◌, Option, none, some, List, [], ◌∷◌, map, filter,
  if◌then◌else◌,
}
use nixplan.Prelude.Int.{ℤ, pos}
use nixplan.Text.Words.{strip}
use nixplan.Errors.{
  Result, ok, refuse, traverse, not_evaluated, answer_not_json, answer_not_record,
  publishes_neither, not_a_table, not_a_row, ◌>>=◌,
}
use nixplan.Dict.{Dict, get}
use nixplan.Json.{Json, null, as_dict, as_list, as_text}
use nixplan.Paths.{FilePath, path}
use nixplan.Manifest.{Diagnostic, Deployment}
use nixplan.Manifest.Read.{Disk, file_of, read, row_text}
use nixplan.Remote.Holdings.{is_success}
use nixplan.Remote.Holdings.Sections.{Decoder}

-- `Answer`: a row is a dict of the six fields.
pub record Answer : Type 0 where
  pub rows : List (Dict String)
  pub rendered : String

abbrev is_error : Dict String → Bool
is_error fs = elim (get fs "severity") [ none ↦ false | some s ↦ str_eq s "error" ]

-- `Answer.errors`
unfoldable pub errors : Answer → List (Dict String)
unfolding get
errors answered = filter is_error answered.rows

-- `_row`
unfoldable pub row : Diagnostic → Dict String
row r =
    ("id", r.id)
    ∷ ("subject", r.subject)
    ∷ ("severity", r.severity)
    ∷ ("message", r.message)
    ∷ ("evidence", r.evidence)
    ∷ ("resolution", r.resolution)
    ∷ []

-- `_stated`
abbrev stated_row : (Json → String) → Dict Json → Dict String
stated_row str fs =
    map (λ field. (field, row_text str fs field))
      ("id" ∷ "subject" ∷ "severity" ∷ "message" ∷ "evidence" ∷ "resolution" ∷ [])

unfoldable pub stated : (Json → String) → String → Json → Result (Dict String)
unfolding row_text
stated str target j = elim (as_dict (some j)) [
  | none ↦ refuse (not_a_row target)
  | some fs ↦ ok (stated_row str fs)
]

-- `rows is None`
abbrev pub is_none : Option Json → Bool
is_none none = true
is_none (some null) = true
is_none (some j) = false

abbrev pub tabled : (Json → String) → String → Option (List Json) → Option String → Result Answer
tabled str target (some rows) (some rendered) = do
  answered ← traverse (stated str target) rows
  ok (record { rows = answered; rendered = rendered })
tabled str target _ _ = refuse (not_a_table target)

-- The record that an evaluation answered, once it was decoded.
unfoldable pub evaluated_record : (Json → String) → String → Option (Dict Json) → Result Answer
unfolding get traverse stated
evaluated_record str target none = refuse (answer_not_record target)
evaluated_record str target (some fs) =
    if is_none (get fs "diagnostics") && is_none (get fs "rendered")
    then refuse (publishes_neither target)
    else tabled str target (as_list (get fs "diagnostics")) (as_text (get fs "rendered"))

abbrev decoded_record : (Json → String) → String → Option Json → Result Answer
decoded_record str target none = refuse (answer_not_json target)
decoded_record str target (some j) = evaluated_record str target (as_dict (some j))

-- What `nix eval` comes back with.
pub record Evaluation : Type 0 where
  pub status : ℤ
  pub stdout : String
  pub stderr : String

-- `_evaluated`
unfoldable pub evaluated : (Json → String) → Decoder → String → Evaluation → Result Answer
unfolding evaluated_record strip
evaluated str decode target e =
    if is_success e.status
    then decoded_record str target (decode e.stdout)
    else refuse (not_evaluated target (strip e.stderr))

-- `answer`, of what `nix eval` makes of a target
unfoldable pub answer : Disk → Decoder → (String → Evaluation) → String → Result Answer
unfolding path read row evaluated
answer disk decode nix target =
    if disk.is_file (file_of (path target) "manifest.json")
    then (do
      d ← read disk (path target)
      ok (record { rows = map row d.diagnostics; rendered = d.table }))
    else evaluated disk.str decode target (nix target)
