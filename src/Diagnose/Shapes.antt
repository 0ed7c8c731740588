-- ===== src/Diagnose/Shapes.antt =====
-- cli/diagnose.py: the two readings of a table, from a build's files and from an evaluation.
use nixplan.Prelude.{
  String, str_eq, Bool, true, false, ◌&&◌, Bool-cases, inl, inr, ◌≡◌, refl, sym, ap, Option, none,
  some, List, [], ◌∷◌, map, filter, flat_map,
}
use nixplan.Errors.{ok, traverse, ◌>>=◌}
use nixplan.Dict.{Dict, get}
use nixplan.Json.{
  Json, Fields, null, bool, int, float, text, array, object, fields, as_list, as_text,
}
use nixplan.Manifest.{Diagnostic, Deployment}
use nixplan.Manifest as Built
use nixplan.Manifest.Read as Reading
use nixplan.Manifest.Read.{Disk, file_of, read}
use nixplan.Paths.{path}
use nixplan.Remote.Holdings.Sections.{Decoder}
use nixplan.Diagnose.{Answer, Evaluation, errors, row, stated, is_none, evaluated_record, answer}

abbrev pub Rows : Type 0
Rows = List Fields

abbrev pub json_rows : Rows → List Json
json_rows [] = []
json_rows (fs ∷ rest) = object fs ∷ json_rows rest

abbrev pub built_rows : (Json → String) → Rows → List Diagnostic
built_rows str rows = flat_map (Reading.row str) (json_rows rows)

-- The rows of a table are read as the same rows from the file of a build and from an evaluation.
traverse-stated :
    (str : Json → String) (target : String) (rows : Rows)
    → traverse (stated str target) (json_rows rows) ≡ ok (map row (built_rows str rows))
unfolding traverse stated row Reading.row
traverse-stated str target [] = refl
traverse-stated str target (fs ∷ rows) =
    ap
      (λ r. r >>= (λ more. ok (
        row (record {
          id = Reading.row_text str (fields fs) "id";
          subject = Reading.row_text str (fields fs) "subject";
          severity = Reading.row_text str (fields fs) "severity";
          message = Reading.row_text str (fields fs) "message";
          evidence = Reading.row_text str (fields fs) "evidence";
          resolution = Reading.row_text str (fields fs) "resolution";
        })
        ∷ more)))
      (traverse-stated str target rows)

errors-map :
    (ds : List Diagnostic) (rendered : String)
    → errors (record { rows = map row ds; rendered = rendered })
      ≡ map row (filter (λ (d : Diagnostic). str_eq d.severity "error") ds)
unfolding errors row get
errors-map [] rendered = refl
errors-map (d ∷ ds) rendered = elim (Bool-cases (str_eq d.severity "error")) [
  | inl y ↦ rw y (ap (λ rs. row d ∷ rs) (errors-map ds rendered))
  | inr n ↦ rw n (errors-map ds rendered)
]

not_absent :
    (o : Option Json) (rows : List Json) (b : Bool)
    → as_list o ≡ some rows
    → (is_none o && b) ≡ false
not_absent none rows b e = cc
not_absent (some (array xs)) rows b e = refl
not_absent (some null) rows b e = cc
not_absent (some (bool x)) rows b e = cc
not_absent (some (int x)) rows b e = cc
not_absent (some (float x y)) rows b e = cc
not_absent (some (text x)) rows b e = cc
not_absent (some (object x)) rows b e = cc

-- The answer about a directory that a build produced is the one of an evaluation that publishes the
-- same rows and the same table, and its errors are the rows that make the build inapplicable.
pub answer-evaluated_record :
    (disk : Disk) (decode : Decoder) (nix : String → Evaluation) (target : String) (d : Deployment)
    (fs : Dict Json) (rows : Rows)
    → disk.is_file (file_of (path target) "manifest.json") ≡ true
    → read disk (path target) ≡ ok d
    → d.diagnostics ≡ built_rows disk.str rows
    → as_list (get fs "diagnostics") ≡ some (json_rows rows)
    → as_text (get fs "rendered") ≡ some d.table
    → (a : Answer) × (answer disk decode nix target ≡ ok a)
      × (evaluated_record disk.str target (some fs) ≡ ok a)
      × (errors a ≡ map row (Built.errors d))
unfolding answer evaluated_record Built.errors
answer-evaluated_record disk decode nix target d fs rows built loaded same listed rendered = (
  record { rows = map row d.diagnostics; rendered = d.table },
  rw (built, loaded) refl,
  rw
      (
        not_absent (get fs "diagnostics") (json_rows rows) (is_none (get fs "rendered")) listed,
        listed,
        rendered,
      )
      (rw (traverse-stated disk.str target rows)
        (ap (λ ds. ok (record { rows = map row ds; rendered = d.table })) (sym same))),
  errors-map d.diagnostics d.table,
)
