-- ===== src/Report.antt =====
-- cli/report.py: how the answers of a machine about its values and its images are read.
pub mod Read
pub mod Absent
pub mod Entries
pub mod Lines
pub mod Values
pub mod Status
pub mod Rollback
pub mod Told
pub mod About
pub mod Each
pub mod Tests
use nixplan.Prelude.{
  String, str_eq, Bool, true, false, not, ◌&&◌, Option, none, some, List, [], ◌∷◌, ◌++◌, map,
  filter, any, is_empty, flat_map, if◌then◌else◌,
}
use nixplan.Text.Words.{fstring, words, split_lines, strip, after_prefix}
use nixplan.Sorted.{text_order, contains, sorted_set}
use nixplan.Dict.{Dict, get, put}
use nixplan.Manifest.{ValueFile}

-- SEALS, OPENS, MISSING_COPY, UNCHECKED of cli/remote.py, and CLOSED
abbrev pub seals : String
seals = "seals"

abbrev pub opens : String
opens = "opens"

abbrev pub missing_copy : String
missing_copy = "absent"

abbrev pub unchecked : String
unchecked = "unchecked"

abbrev pub closed : String
closed = "closed"

pub record ValueAnswer : Type 0 where
  pub key : String
  pub machine : String
  pub present : Bool
  pub seal : Option String

-- `_halves`: the lines before the first marker, and those after it that are not blank.
unfoldable pub before_marker : List String → List String
before_marker [] = []
before_marker (line ∷ lines) =
    let rest = before_marker lines in if str_eq line seals then [] else line ∷ rest

unfoldable pub after_marker : List String → List String
after_marker [] = []
after_marker (line ∷ lines) =
    let rest = after_marker lines in if str_eq line seals then lines else rest

unfoldable pub halves : String → List String × List String
unfolding before_marker after_marker split_lines strip
halves reported = (
  before_marker (split_lines reported),
  filter (λ line. not (str_eq (strip line) "")) (after_marker (split_lines reported)),
)

-- `said`: a later line replaces an earlier one about its path.
unfoldable pub say_columns : Dict String → List String → Dict String
unfolding put
say_columns said (path ∷ word ∷ []) = put said path word
say_columns said _ = said

unfoldable pub said_by : Dict String → List String → Dict String
unfolding say_columns words
said_by said [] = said
said_by said (line ∷ lines) = said_by (say_columns said (words line)) lines

abbrev pub is_present : Option String → Bool
is_present none = false
is_present (some word) = str_eq word "present"

abbrev pub is_lacking : Dict String → String × ValueFile → Bool
is_lacking said (key, file) = not (is_present (get said file.path))

-- `_absent`
unfoldable pub absent : List (String × ValueFile) → String → List String
unfolding halves said_by get sorted_set
absent delivered reported = sorted_set (
    map (λ (f : String × ValueFile). f.0)
      (filter (is_lacking (said_by [] (halves reported).0)) delivered))

-- `_verdict`
unfoldable pub verdict : List String → String
unfolding contains
verdict ws =
    if contains missing_copy ws
    then missing_copy
    else if any (λ word. not (str_eq word opens)) ws
    then closed
    else opens

abbrev seal_line : ValueAnswer → String → List String
seal_line answer seal =
    if str_eq seal unchecked
    then fstring (answer.machine ∷ " holds no unsealer, so its sealed copies were not checked" ∷ [])
      ∷ []
    else if str_eq seal missing_copy
    then fstring ("value " ∷ answer.key ∷ " has no sealed copy on " ∷ answer.machine ∷ []) ∷ []
    else if str_eq seal closed
    then fstring ("value " ∷ answer.key ∷ " sealed copy does not open on " ∷ answer.machine ∷ [])
      ∷ []
    else []

abbrev seal_or_opens : Option String → String
seal_or_opens none = opens
seal_or_opens (some seal) = if str_eq seal "" then opens else seal

-- `_value_lines`
unfoldable pub value_lines : ValueAnswer → List String
value_lines answer =
    (if answer.present
      then []
      else fstring ("value " ∷ answer.key ∷ " missing on " ∷ answer.machine ∷ []) ∷ [])
    ++ seal_line answer (seal_or_opens answer.seal)

-- `_held`
abbrev pub Image : Type 0
Image = String × String

abbrev held_if : Option String → String → List Image
held_if none state = []
held_if (some identity) state = if str_eq state "detached" then [] else (identity, state) ∷ []

abbrev pub image_held : String → Image → List Image
image_held name (image, state) =
    if str_eq name "" then [] else held_if (after_prefix (fstring (name ∷ "_" ∷ [])) image) state

unfoldable pub first_mine : String → String → List Image → Option Image
first_mine mine name [] = none
first_mine mine name ((identity, state) ∷ rest) =
    let later = first_mine mine name rest in
    if str_eq (fstring (name ∷ "_" ∷ identity ∷ [])) mine then some (identity, state) else later

abbrev pub first_image : List Image → Option Image
first_image [] = none
first_image (i ∷ is) = some i

abbrev pub or_first : Option Image → List Image → Option Image
or_first none images = first_image images
or_first (some image) images = some image

unfoldable pub held_image : String → String → List Image → Option Image
unfolding first_mine after_prefix
held_image mine name listed =
    let holds = flat_map (image_held name) listed in or_first (first_mine mine name holds) holds
