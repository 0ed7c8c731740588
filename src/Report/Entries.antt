-- ===== src/Report/Entries.antt =====
-- cli/report.py: the record of what a machine answered about one entry.
use nixplan.Prelude.{
  String, str_eq, Bool, true, false, not, ◌&&◌, ◌||◌, ◌==◌, Option, none, some, List, [], ◌∷◌,
  filter, all, length, if◌then◌else◌,
}
use nixplan.Prelude.Int.{ℤ, pos, negsuc}
use nixplan.Text.Words.{strip, rpartition, remove_suffix}
use nixplan.Errors.{
  Result, ok, refuse, endpoint_not_json, endpoint_not_list, endpoint_not_entry, ◌>>=◌,
}
use nixplan.Sorted.{text_order, pair_order, sorted}
use nixplan.Dict.{Dict, get}
use nixplan.Json.{Json, null, text, as_dict, as_list, as_text}
use nixplan.Manifest.{Entry}
use nixplan.Manifest.Read.{Disk}
use nixplan.Manifest.Ask.{unit_files, image_file}
use nixplan.Remote.Holdings.{is_missing_tool, is_success, before_last}
use nixplan.Remote.Holdings.Sections.{Decoder}
use nixplan.Remote.Answers.{Attachment, attachment_of}
use nixplan.Report.{Image, held_image}

-- REALISES_NOTHING, NOT_DIALLED, UNREACHED, NO_ENDPOINT, ABSENT and ANSWERED
pub data Reached : Type 0 where
  realises_nothing not_dialled unreached no_endpoint absent answered : Reached

-- RUNS_THIS_BUILD, RUNS_ANOTHER_BUILD and NOTHING_TO_COMPARE
pub data Running : Type 0 where
  runs_this_build runs_another_build nothing_to_compare : Running

-- A field that a machine's JSON fills is `null` where Python has `None`.
pub record EntryAnswer : Type 0 where
  pub key : String
  pub machine : String
  pub realiser : String
  pub reached : Reached
  pub address : Option String
  pub said : Option String
  pub generation : Json
  pub locked_url : Json
  pub units : Option Running
  pub held : Option String
  pub built : Option String
  pub state : Option String
  pub listed : Option String
  pub configuration : Option (List (String × String))
  pub last_error : Json

-- UNDIALLED and UNREALISED
abbrev pub undialled : ℤ
undialled = negsuc 0

abbrev pub unrealised : ℤ
unrealised = negsuc 1

abbrev pub is_undialled : ℤ → Bool
is_undialled (negsuc n) = n == 0
is_undialled _ = false

abbrev pub is_unrealised : ℤ → Bool
is_unrealised (negsuc n) = n == 1
is_unrealised _ = false

abbrev pub is_unreachable : ℤ → Bool
is_unreachable (pos n) = n == 255
is_unreachable _ = false

-- `_the_endpoint_answered`
abbrev pub the_endpoint_answered : ℤ → Bool
the_endpoint_answered status =
    not (
      is_undialled status
      || is_unrealised status
      || is_unreachable status
      || is_missing_tool status)

-- `_reached`
abbrev pub reached_as : Entry → Reached → EntryAnswer
reached_as e reached = record {
  key = e.key;
  machine = e.machine;
  realiser = e.realiser;
  reached = reached;
  address = e.address;
  said = none;
  generation = null;
  locked_url = null;
  units = none;
  held = none;
  built = none;
  state = none;
  listed = none;
  configuration = none;
  last_error = null;
}

-- `_registered`
abbrev listed_entries : String → String → Option Json → Result (List Json)
listed_entries key said none = refuse (endpoint_not_json key said)
listed_entries key said (some j) = elim (as_list (some j)) [
  | none ↦ refuse (endpoint_not_list key said)
  | some js ↦ ok js
]

unfoldable pub registered : Decoder → String → String → Result (List Json)
unfolding strip
registered decode key said =
    if str_eq (strip said) "" then ok [] else listed_entries key said (decode said)

-- `reported == unit_files(entry)`, of two dicts
abbrev has_text : Dict Json → String × String → Bool
has_text reported (k, v) = elim (as_text (get reported k)) [ none ↦ false | some w ↦ str_eq w v ]

unfoldable pub same_units : Dict Json → Dict String → Bool
unfolding get
same_units reported files = (length reported == length files) && all (has_text reported) files

-- `_running`
abbrev compared : Bool → Running
compared true = runs_this_build
compared false = runs_another_build

unfoldable pub running : Disk → Entry → Option (Dict Json) → Result Running
unfolding unit_files same_units
running disk e none = ok nothing_to_compare
running disk e (some []) = ok nothing_to_compare
running disk e (some (f ∷ fs)) = do
  files ← unit_files disk e
  ok (compared (same_units (f ∷ fs) files))

abbrev or_null : Option Json → Json
or_null none = null
or_null (some j) = j

-- `None if failed in (None, "") else failed`
abbrev failure : Json → Json
failure (text s) = if str_eq s "" then null else text s
failure j = j

-- The record of the first registration.
unfoldable pub registration_answer : Disk → Entry → Option (Dict Json) → Result EntryAnswer
unfolding running get
registration_answer disk e none = refuse (endpoint_not_entry e.key)
registration_answer disk e (some first) = do
  runs ← running disk e (as_dict (get first "units"))
  ok (record (reached_as e answered) {
    generation = or_null (get first "generation");
    locked_url = or_null (get first "locked_url");
    units = some runs;
    last_error = failure (or_null (get first "last_error"));
  })

unfoldable pub endpoint_answer : Disk → Entry → List Json → Result EntryAnswer
unfolding registration_answer
endpoint_answer disk e [] = ok (reached_as e absent)
endpoint_answer disk e (first ∷ rest) = registration_answer disk e (as_dict (some first))

-- `_read_attachment`
abbrev unlisted_answer : Entry → String → EntryAnswer
unlisted_answer e state =
    if str_eq state "" || str_eq state "detached"
    then reached_as e absent
    else record (reached_as e answered) { state = some state }

abbrev disagreeing : String × String → Bool
disagreeing (path, word) = not (str_eq word "current")

unfoldable pub attachment_answer : Entry → Attachment → Option Image → EntryAnswer
unfolding sorted
attachment_answer e answer none = unlisted_answer e answer.state
attachment_answer e answer (some (identity, listed)) = record (reached_as e answered) {
  held = some identity;
  built = some e.digest;
  state = some answer.state;
  listed = some listed;
  configuration = some (sorted (filter disagreeing answer.configuration));
}

unfoldable pub read_attachment : Disk → Entry → String → Result EntryAnswer
unfolding image_file attachment_of rpartition remove_suffix held_image attachment_answer
read_attachment disk e reported = do
  file ← image_file disk e
  let mine = remove_suffix ".raw" file
  let answer = attachment_of reported
  ok (
      attachment_answer e answer
        (held_image mine (before_last (rpartition "_" mine)) answer.listed))

-- `_read_status`
unfoldable pub read_status : Disk → Decoder → Entry → String → Result EntryAnswer
unfolding read_attachment registered endpoint_answer
read_status disk decode e reported =
    if str_eq e.realiser "image"
    then read_attachment disk e reported
    else (do listed ← registered decode e.key reported; endpoint_answer disk e listed)

-- `_answered`
unfoldable pub answered_as : Disk → Decoder → Entry → ℤ → String → Result EntryAnswer
unfolding read_status
answered_as disk decode e status said =
    if is_unrealised status
    then ok (reached_as e realises_nothing)
    else if is_undialled status
    then ok (reached_as e not_dialled)
    else if is_unreachable status
    then ok (reached_as e unreached)
    else if is_missing_tool status
    then ok (record (reached_as e no_endpoint) { said = some said })
    else if is_success status
    then read_status disk decode e said
    else ok (reached_as e absent)
