-- ===== src/Report/Lines.antt =====
-- cli/report.py: the lines that a record is printed as, and those of a built deployment.
use nixplan.Prelude.{
  String, str_eq, Bool, false, Option, none, some, List, [], ◌∷◌, ◌++◌, map, if◌then◌else◌,
}
use nixplan.Text.Words.{fstring, join_by, strip, split_lines}
use nixplan.Dict.{values, sorted_items}
use nixplan.Json.{Json, null}
use nixplan.Paths.{FilePath, path_text}
use nixplan.Manifest.{ValueFile, Value, Entry, Diagnostic, Deployment}
use nixplan.Remote.Holdings.{Holding}
use nixplan.Report.{ValueAnswer, value_lines}
use nixplan.Report.Entries.{
  Reached, realises_nothing, not_dialled, unreached, no_endpoint, absent, answered, Running,
  runs_this_build, runs_another_build, nothing_to_compare, EntryAnswer,
}

-- `Verdict`: one record per question asked
pub data Verdict : Type 0 where
  of_entry : EntryAnswer → Verdict
  of_value : ValueAnswer → Verdict
  of_holding : (machine : String) → Holding → Verdict

-- What an f-string makes of `None`, and of a text.
abbrev shown : Option String → String
shown none = "None"
shown (some s) = s

-- `s or other`
abbrev or_text : String → Option String → String
or_text other none = other
or_text other (some s) = if str_eq s "" then other else s

abbrev ran : Option Running → String
ran (some runs_this_build) = "runs this build's units"
ran (some runs_another_build) = "runs units this build did not produce"
ran (some nothing_to_compare) = "reports nothing to compare"
ran none = "reports nothing to compare"

abbrev with_error : (Json → String) → String → Json → String
with_error str line null = line
with_error str line failed = fstring (line ∷ ", last error " ∷ str failed ∷ [])

-- `_endpoint_verdict`, of what `str` makes of a JSON value
unfoldable pub endpoint_verdict : (Json → String) → EntryAnswer → String
endpoint_verdict str answer =
    with_error str
      (fstring (
        "generation "
        ∷ str answer.generation
        ∷ " of "
        ∷ str answer.locked_url
        ∷ " "
        ∷ ran answer.units
        ∷ []))
      answer.last_error

abbrev pairs_of : Option (List (String × String)) → List (String × String)
pairs_of none = []
pairs_of (some pairs) = pairs

-- `_image_verdict`
abbrev beside_line : String → String → String
beside_line at beside =
    if str_eq beside ""
    then fstring (at ∷ " current" ∷ [])
    else fstring (at ∷ " holds this build's image, " ∷ beside ∷ [])

abbrev same_text : String → Option String → Bool
same_text held none = false
same_text held (some built) = str_eq held built

abbrev against : EntryAnswer → String → Option String → String
against answer held built =
    if same_text held built
    then beside_line (or_text (shown answer.listed) answer.state) (
        join_by ", " (
          map (λ (c : String × String). fstring (c.0 ∷ " " ∷ c.1 ∷ []))
            (pairs_of answer.configuration)))
    else fstring (shown answer.listed ∷ " holds " ∷ held ∷ ", built " ∷ shown built ∷ [])

unfoldable pub image_verdict : EntryAnswer → Option String → String
unfolding join_by
image_verdict answer none = or_text "" answer.state
image_verdict answer (some held) = against answer held answer.built

-- `_verdict_of`
unfoldable pub verdict_of : (Json → String) → EntryAnswer → Reached → String
unfolding endpoint_verdict image_verdict
verdict_of str answer realises_nothing =
    "realises nothing: the entry declares no unit, so no machine holds anything for it"
verdict_of str answer not_dialled =
    fstring ("not dialled: machine " ∷ answer.machine ∷ " declares no address" ∷ [])
verdict_of str answer unreached =
    fstring
      ("unreachable: " ∷ answer.machine ∷ " at " ∷ shown answer.address ∷ " answered nothing" ∷ [])
verdict_of str answer no_endpoint =
    fstring ("no endpoint on " ∷ answer.machine ∷ ": " ∷ shown answer.said ∷ [])
verdict_of str answer absent = "absent"
verdict_of str answer answered =
    if str_eq answer.realiser "image"
    then image_verdict answer answer.held
    else endpoint_verdict str answer

unfoldable pub lines_of : (Json → String) → Verdict → List String
unfolding verdict_of value_lines
lines_of str (of_entry answer) =
    fstring (answer.key ∷ " " ∷ answer.realiser ∷ " " ∷ verdict_of str answer answer.reached ∷ [])
    ∷ []
lines_of str (of_value answer) = value_lines answer
lines_of str (of_holding machine holding) =
    fstring (machine ∷ " holds " ∷ holding.identity ∷ ", which this build does not name" ∷ []) ∷ []

-- `Deployment.rendered`
unfoldable pub rendered : Deployment → String
unfolding strip join_by
rendered d =
    if str_eq (strip d.table) ""
    then join_by "\n" (
        map (λ (row : Diagnostic). fstring (row.id ∷ " " ∷ row.subject ∷ " " ∷ row.message ∷ []))
          d.diagnostics)
    else strip d.table

abbrev path_or : String → Option FilePath → String
path_or other none = other
path_or other (some p) = path_text p

abbrev entry_line : Entry → String
entry_line e = fstring (
    e.key
    ∷ " "
    ∷ e.realiser
    ∷ " "
    ∷ e.machine
    ∷ " "
    ∷ or_text "unaddressed" e.address
    ∷ " "
    ∷ path_or "no artifact" e.path
    ∷ " ["
    ∷ join_by " " e.units
    ∷ "]"
    ∷ [])

abbrev value_line : Value → String
value_line v = fstring (
    v.key
    ∷ " delivered to ["
    ∷ join_by " " v.delivery
    ∷ "] files ["
    ∷ join_by " " (map (λ (f : ValueFile). f.name) v.files)
    ∷ "]"
    ∷ [])

unfoldable pub describe : Deployment → List String
unfolding sorted_items join_by path_text rendered split_lines
describe d =
    map entry_line (values (sorted_items d.entries))
    ++ (map value_line (values (sorted_items d.values)) ++ split_lines (rendered d))
