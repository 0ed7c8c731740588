-- ===== src/Values/Tests.antt =====
-- The values of the sample deployment.
use nixplan.Prelude.{String, ◌≡◌, refl, true, ◌&&◌, ◌||◌, some, List, [], ◌∷◌}
use nixplan.Text.{str_lt}
use nixplan.Errors.{ok, refuse, undeclared_files}
use nixplan.Sorted.{text_order, contains}
use nixplan.Dict.{get}
use nixplan.Values.{Declared, Source, delivered, delivery_of, reaching, required, check}
use nixplan.Values.Laws.{machines_or_none, contains-reaching}
use nixplan.Values.Checked.{Accepted, check-Accepted}
use nixplan.Samples.{sample, build_root}

abbrev source : Source
source = record { root = build_root; is_directory = true; leaves = λ key. "key" ∷ [] }

check-sample : check sample (some source) ("vars:key" ∷ []) ≡ ok tt
unfolding check str_lt
check-sample = refl

abbrev fuller : Source
fuller = record { root = build_root; is_directory = true; leaves = λ key. "key" ∷ "other" ∷ [] }

check-fuller :
    check sample (some fuller) ("vars:key" ∷ []) ≡ refuse (undeclared_files ("vars:key/other" ∷ []))
unfolding check str_lt
check-fuller = refl

check-Accepted_example :
    (source.is_directory ≡ true)
    × (declared : List Declared) × (required sample (delivered sample) ≡ ok declared)
    × Accepted sample source ("vars:key" ∷ []) declared
check-Accepted_example = check-Accepted sample source ("vars:key" ∷ []) check-sample

contains-reaching_example :
    contains "m1" (machines_or_none (get (reaching sample ("m1" ∷ []) []) "vars:key")) ≡ (
      contains "m1" (delivery_of (get sample.values "vars:key"))
      && (contains {A = String} "vars:key" [] || contains {A = String} "m1" ("m1" ∷ [])))
contains-reaching_example = contains-reaching sample ("m1" ∷ []) [] "vars:key" "m1"
