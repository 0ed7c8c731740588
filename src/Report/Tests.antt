-- ===== src/Report/Tests.antt =====
-- The answers of one machine.
use nixplan.Prelude.{String, str_eq, ◌&&◌, not, any, ◌≡◌, refl, true, some, List, [], ◌∷◌}
use nixplan.Text.{str_lt}
use nixplan.Text.Words.{split_lines, fstring}
use nixplan.Sorted.{text_order, pair_order, contains}
use nixplan.Manifest.{ValueFile}
use nixplan.Samples.{key_file}
use nixplan.Report.{absent, verdict, opens, missing_copy, Image, held_image}
use nixplan.Report.Absent.{is_said_present, contains-absent}
use nixplan.Report.Read.{verdict-opens, held_image-mine}

abbrev delivered : List (String × ValueFile)
delivered = ("vars:key", key_file) ∷ []

absent-later :
    absent delivered "/v/key present\n/v/key absent\nseals\n/v/key present" ≡ "vars:key" ∷ []
unfolding absent str_lt
absent-later = refl

contains-absent_example :
    contains "vars:key" (absent delivered "/v/key absent")
    ≡ any
        (λ (f : String × ValueFile).
          str_eq f.0 "vars:key" && not (is_said_present (split_lines "/v/key absent") (f.1).path))
        delivered
contains-absent_example = contains-absent delivered "/v/key absent" "vars:key"

abbrev copies : List String
copies = "opens" ∷ "bad" ∷ "absent" ∷ []

verdict-opens_example :
    (str_eq (verdict copies) opens ≡ not (any (λ word. not (str_eq word opens)) copies))
    × (str_eq (verdict copies) missing_copy ≡ contains missing_copy copies)
verdict-opens_example = verdict-opens copies

abbrev listed : List Image
listed = ("web_old", "attached") ∷ ("web_new", "running") ∷ []

lists-new : contains {A = Image} ("web_new", "running") listed ≡ true
unfolding contains
lists-new = refl

held_image-mine_example :
    (found : Image) × (held_image "web_new" "web" listed ≡ some found)
    × (fstring ("web" ∷ "_" ∷ found.0 ∷ []) ≡ "web_new")
held_image-mine_example =
    held_image-mine "web_new" "web" "new" "running" listed refl refl lists-new refl
