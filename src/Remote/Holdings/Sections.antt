-- ===== src/Remote/Holdings/Sections.antt =====
-- `_sections` and `_marker` of cli/remote.py: the answer to the question of what a machine holds is
-- a section for each realiser, behind the line that the question prints.
use nixplan.Prelude.{
  String, str_eq, Bool, false, ◌&&◌, ◌||◌, Option, none, some, List, [], ◌∷◌, ◌++◌, if◌then◌else◌,
}
use nixplan.Prelude.Int.{ℤ}
use nixplan.Text.Words.{integer, join_by, words, split_lines, strip}
use nixplan.Errors.{Result, ok, refuse, unreadable_holdings, ◌>>=◌}
use nixplan.Dict.{Dict, has}
use nixplan.Json.{Json}
use nixplan.Manifest.{Realiser}

-- `json.loads`, or `JSONDecodeError`
abbrev pub Decoder : Type 0
Decoder = String → Option Json

pub record Section : Type 0 where
  pub realiser : String
  pub status : ℤ
  pub said : String

-- A section while its lines are read.
pub record Open : Type 0 where
  pub name : String
  pub code : ℤ
  pub lines : List String

abbrev pub is_realiser : String → Bool
is_realiser name = str_eq name "flakelet" || str_eq name "image"

abbrev pub is_marker : List String → Bool
is_marker [] = false
is_marker (column ∷ columns) = str_eq column "holdings"

abbrev opened : String → Option ℤ → Option Open
opened name none = none
opened name (some status) = some (record { name = name; code = status; lines = [] })

-- `_marker`: three columns, the second a realiser that is published and known, the third a number.
unfoldable pub marker : Dict Realiser → List String → Option Open
unfolding has integer
marker published (held ∷ name ∷ status ∷ []) =
    if has published name && is_realiser name then opened name (integer status) else none
marker published _ = none

abbrev or_unreadable : String → String → Option Open → Result Open
or_unreadable machine reported none = refuse (unreadable_holdings machine reported)
or_unreadable machine reported (some s) = ok s

-- The sections so far, the last one first.
unfoldable pub take_line : String → String → String → List Open → Result (List Open)
unfolding strip
take_line machine reported line [] =
    if str_eq (strip line) "" then ok [] else refuse (unreadable_holdings machine reported)
take_line machine reported line (s ∷ before) =
    ok (record s { lines = s.lines ++ line ∷ [] } ∷ before)

unfoldable pub section_line :
    String → String → Dict Realiser → String → List Open → Result (List Open)
unfolding words marker take_line
section_line machine reported published line read =
    if is_marker (words line)
    then (do s ← or_unreadable machine reported (marker published (words line)); ok (s ∷ read))
    else take_line machine reported line read

unfoldable pub read_sections :
    String → String → Dict Realiser → List String → List Open → Result (List Open)
unfolding section_line
read_sections machine reported published [] read = ok read
read_sections machine reported published (line ∷ lines) read = do
  further ← section_line machine reported published line read
  read_sections machine reported published lines further

abbrev pub closed_onto : List Open → List Section → List Section
closed_onto [] onto = onto
closed_onto (s ∷ before) onto =
    closed_onto before
      (record { realiser = s.name; status = s.code; said = join_by "\n" s.lines } ∷ onto)

-- `_sections`
unfoldable pub sections : String → String → Dict Realiser → Result (List Section)
unfolding split_lines read_sections
sections machine reported published = do
  read ← read_sections machine reported published (split_lines reported) []
  ok (closed_onto read [])
