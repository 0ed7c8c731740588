-- ===== src/Diagnose/Tests.antt =====
-- The table of a build with one error, and the evaluation that publishes the same.
use nixplan.Prelude.{String, str_eq, if◌then◌else◌, ◌≡◌, refl, true, none, some, List, [], ◌∷◌, map}
use nixplan.Prelude.Int.{pos}
use nixplan.Text.{str_lt}
use nixplan.Errors.{ok}
use nixplan.Dict.{Dict, get}
use nixplan.Json.{Json, Fields, int, object, array, field, text, end, nil, cons, as_list, as_text}
use nixplan.Manifest.{Deployment}
use nixplan.Manifest as Built
use nixplan.Paths.{slash, path}
use nixplan.Manifest.Read.{Disk, Content, content, os_error, read}
use nixplan.Diagnose.{Answer, Evaluation, errors, row, evaluated_record, answer}
use nixplan.Diagnose.Shapes.{Rows, built_rows, answer-evaluated_record}

abbrev error_row : Fields
error_row = field "id" (text "e1") (field "severity" (text "error") end)

abbrev one_row : Rows
one_row = error_row ∷ []

abbrev manifest : Json
manifest = object (
    field "version" (int (pos 3)) (
      field "storeDir" (text "/nix/store") (
        field "entries" (object end) (
          field "values" (object end)
            (field "machines" (object end) (field "realisers" (object end) end))))))

abbrev json_of : List String → Content Json
json_of (b ∷ file ∷ []) =
    if str_eq file "manifest.json"
    then content manifest
    else if str_eq file "diagnostics.json"
    then content (array (cons (object error_row) nil))
    else content (object end)
json_of _ = os_error

abbrev disk : Disk
disk = record {
  links = record { cwd = record { anchor = slash; parts = [] }; resolve = λ p. p };
  is_file = λ p. true;
  text_at = λ p. content "e1";
  json_at = λ p. json_of p.parts;
  store_variable = none;
  str = λ j. "";
}

abbrev built : Deployment
built = record {
  root = record { anchor = slash; parts = "b" ∷ [] };
  plan = [];
  entries = [];
  values = [];
  machines = [];
  realisers = [];
  diagnostics = built_rows (λ j. "") one_row;
  table = "e1";
  coordination = none;
}

read-built : read disk (path "/b") ≡ ok built
unfolding read path str_lt
read-built = refl

abbrev published : Dict Json
published = ("diagnostics", array (cons (object error_row) nil)) ∷ ("rendered", text "e1") ∷ []

listed-published : as_list (get published "diagnostics") ≡ some (object error_row ∷ [])
unfolding get
listed-published = refl

rendered-published : as_text (get published "rendered") ≡ some "e1"
unfolding get
rendered-published = refl

abbrev silent : String → Evaluation
silent target = record { status = pos 1; stdout = ""; stderr = "" }

answer-evaluated_record_example :
    (a : Answer) × (answer disk (λ s. none) silent "/b" ≡ ok a)
    × (evaluated_record disk.str "/b" (some published) ≡ ok a)
    × (errors a ≡ map row (Built.errors built))
answer-evaluated_record_example =
    answer-evaluated_record disk (λ s. none) silent "/b" built published one_row refl read-built
      refl listed-published rendered-published
