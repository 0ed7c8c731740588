-- ===== src/Report/Values.antt =====
-- cli/report.py: what a status asks of whom, and the records of the answers about values.
use nixplan.Prelude.{
  String, str_eq, Bool, true, not, ◌&&◌, ◌||◌, Option, none, some, List, [], ◌∷◌, ◌++◌, map,
  flat_map, if◌then◌else◌,
}
use nixplan.Text.{str_lt}
use nixplan.Errors.{Result, ok, refuse, traverse, unknown_key}
use nixplan.Sorted.{text_order, contains, sorted_set}
use nixplan.Dict.{Dict, get, put, values, sorted_items}
use nixplan.Paths.{FilePath, below}
use nixplan.Manifest.{ValueFile, Value, Entry, Deployment}
use nixplan.Report.{ValueAnswer, unchecked, halves, said_by, absent, verdict}

-- `_entries`, `_entry` and `_selected`
abbrev entries : Deployment → List Entry
entries d = values (sorted_items d.entries)

unfoldable pub entry_named : Deployment → String → Result Entry
unfolding get
entry_named d key = elim (get d.entries key) [ none ↦ refuse (unknown_key key) | some e ↦ ok e ]

unfoldable pub selected : Deployment → List String → Result (List Entry)
unfolding sorted_items entry_named sorted_set traverse
selected d [] = ok (entries d)
selected d (key ∷ only) = traverse (entry_named d) (sorted_set (key ∷ only))

-- `_machines`, of the entries selected
abbrev addressed_machine : Entry → Option String → List String
addressed_machine e none = []
addressed_machine e (some address) = e.machine ∷ []

unfoldable pub machines : List Entry → List String
unfolding sorted_set
machines es = sorted_set (flat_map (λ (e : Entry). addressed_machine e e.address) es)

-- One declared file of a value, under the value's key.
abbrev pub Delivered : Type 0
Delivered = String × ValueFile

-- By the key and then by the file's name; files that tie stay in their order.
abbrev stands_before : Delivered → Delivered → Bool
stands_before (key, file) (other, next) =
    str_lt key other || (str_eq key other && str_lt file.name next.name)

unfoldable pub push_file : Delivered → List Delivered → List Delivered
push_file x [] = x ∷ []
push_file x (y ∷ ys) =
    let rest = push_file x ys in if stands_before y x then y ∷ rest else x ∷ y ∷ ys

unfoldable pub sort_files : List Delivered → List Delivered
unfolding push_file
sort_files [] = []
sort_files (x ∷ xs) = push_file x (sort_files xs)

abbrev files_on : String → Value → List Delivered
files_on machine v =
    if contains machine v.delivery then map (λ (f : ValueFile). (v.key, f)) v.files else []

-- `_values`: the machines that are delivered a file, each with its files
abbrev if_any : String → List Delivered → Dict (List Delivered)
if_any machine [] = []
if_any machine (f ∷ fs) = (machine, f ∷ fs) ∷ []

unfoldable pub values_on : Deployment → List String → Dict (List Delivered)
unfolding contains sort_files
values_on d [] = []
values_on d (machine ∷ rest) =
    if_any machine (sort_files (flat_map (files_on machine) (values d.values))) ++ values_on d rest

-- `_trial`
abbrev trial_at : Bool → Option FilePath → Option FilePath
trial_at true (some path) = some (below (below path "bin") "check")
trial_at _ _ = none

unfoldable pub trial : Deployment → String → Option FilePath
unfolding get below
trial d machine = elim (get d.machines machine) [
  | none ↦ none
  | some stated ↦ trial_at stated.sealed stated.path
]

-- `answered.setdefault(key, []).append(word)`, for each file that the trial said a word about
abbrev add_word : Dict (List String) → String → Option String → Dict (List String)
add_word answered key none = answered
add_word answered key (some word) = elim (get answered key) [
  | none ↦ put answered key (word ∷ [])
  | some ws ↦ put answered key (ws ++ word ∷ [])
]

unfoldable pub add_words : Dict String → Dict (List String) → List Delivered → Dict (List String)
unfolding get put
add_words said answered [] = answered
add_words said answered ((key, file) ∷ rest) =
    add_words said (add_word answered key (get said file.sealed)) rest

abbrev verdicts : Dict (List String) → Dict String
verdicts [] = []
verdicts ((key, ws) ∷ rest) = (key, verdict ws) ∷ verdicts rest

abbrev unchecked_all : Dict String → List Delivered → Dict String
unchecked_all d [] = d
unchecked_all d ((key, file) ∷ rest) = unchecked_all (put d key unchecked) rest

-- `_seals`
abbrev trial_seals : List Delivered → List String → Dict String
trial_seals delivered [] = []
trial_seals delivered (line ∷ lines) =
    if contains unchecked (line ∷ lines)
    then unchecked_all [] delivered
    else verdicts (add_words (said_by [] (line ∷ lines)) [] delivered)

unfoldable pub seals_of : List Delivered → String → Bool → Dict String
unfolding halves contains put said_by add_words verdict
seals_of delivered reported asked = if asked then trial_seals delivered (halves reported).1 else []

-- `_values_answered`
unfoldable pub values_answered : List Delivered → String → String → Bool → List ValueAnswer
unfolding absent seals_of sorted_set contains get
values_answered delivered machine reported asked =
    map
      (λ key. record {
        key = key;
        machine = machine;
        present = not (contains key (absent delivered reported));
        seal = get (seals_of delivered reported asked) key;
      })
      (sorted_set (map (λ (f : Delivered). f.0) delivered))
