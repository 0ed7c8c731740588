-- ===== src/Remote/Answers.antt =====
-- cli/remote.py: what the other answers of a machine are read into: the facts of a preflight, the
-- attachment of an image, and the files that a generator wrote.
use nixplan.Prelude.{
  ℕ, String, str_eq, Bool, true, false, not, ◌&&◌, Option, none, some, List, [], ◌∷◌, ◌++◌, filter,
  is_empty, if◌then◌else◌,
}
use nixplan.Text.Words.{fstring, words, split_lines, strip, after_prefix, partition_at}
use nixplan.Errors.{Result, ok, refuse, unfit_machine, malformed_bytes, ◌>>=◌}
use nixplan.Sorted.{text_order, contains, sorted}
use nixplan.Dict.{Dict, get, put}

pub record Requirement : Type 0 where
  pub key : String
  pub statement : String
  pub question : String
  pub missing : String

-- `preflight_answer`: a later line replaces an earlier one of its key.
abbrev said_if : Dict String → Option (String × String) → Dict String
said_if said none = said
said_if said (some (key, answer)) =
    if not (str_eq key "") && not (str_eq answer "") then put said key (strip answer) else said

unfoldable pub answers_onto : Dict String → List String → Dict String
unfolding put strip partition_at
answers_onto said [] = said
answers_onto said (line ∷ lines) = answers_onto (said_if said (partition_at b'=' line)) lines

unfoldable pub preflight_answer : String → Dict String
unfolding answers_onto split_lines
preflight_answer reported = answers_onto [] (split_lines reported)

-- `said.get(key) or 'nothing'`
abbrev or_nothing : Option String → String
or_nothing none = "nothing"
or_nothing (some s) = if str_eq s "" then "nothing" else s

abbrev pub is_fine : Option String → Bool
is_fine none = false
is_fine (some s) = str_eq s "ok"

abbrev failed_if : Requirement → Option String → List String
failed_if r answer =
    if is_fine answer
    then []
    else fstring (r.statement ∷ ", and the machine answered " ∷ or_nothing answer ∷ []) ∷ []

unfoldable pub failures : Dict String → List Requirement → List String
unfolding get
failures said [] = []
failures said (r ∷ rs) = failed_if r (get said r.key) ++ failures said rs

-- `verify`
unfoldable pub verify : String → List Requirement → String → Result (Unit {0})
unfolding preflight_answer failures
verify machine requirements reported =
    let failed = failures (preflight_answer reported) requirements in
    if is_empty failed then ok tt else refuse (unfit_machine machine failed)

pub record Attachment : Type 0 where
  pub state : String
  pub listed : List (String × String)
  pub configuration : List (String × String)

-- The lines before the first one that is `LISTING`, and those after it.
unfoldable pub before_listing : List String → List String
before_listing [] = []
before_listing (line ∷ lines) =
    let rest = before_listing lines in if str_eq line "images" then [] else line ∷ rest

unfoldable pub after_listing : List String → List String
after_listing [] = []
after_listing (line ∷ lines) =
    let rest = after_listing lines in if str_eq line "images" then lines else rest

abbrev is_blank : String → Bool
is_blank line = str_eq (strip line) ""

abbrev configured : List String → List (String × String)
configured (mark ∷ path ∷ word ∷ []) = if str_eq mark "config" then (path, word) ∷ [] else []
configured _ = []

abbrev last_column : String → List String → String
last_column column [] = column
last_column column (c ∷ cs) = last_column c cs

abbrev pub listed_row : List String → List (String × String)
listed_row (image ∷ second ∷ rest) = (image, last_column second rest) ∷ []
listed_row _ = []

abbrev pub over_lines :
    (List String → List (String × String)) → List String → List (String × String)
over_lines f [] = []
over_lines f (line ∷ lines) = f (words line) ++ over_lines f lines

abbrev is_configuration : String → Bool
is_configuration line = elim (after_prefix "config " line) [ none ↦ false | some rest ↦ true ]

abbrev first_stripped : List String → String
first_stripped [] = ""
first_stripped (line ∷ lines) = strip line

-- `attachment_of`
unfoldable pub attachment_of : String → Attachment
unfolding words split_lines strip after_prefix before_listing after_listing
attachment_of reported =
    let lines = split_lines reported in
    let head = filter (λ line. not (is_blank line)) (before_listing lines) in
    record {
      state = first_stripped (filter (λ line. not (is_configuration line)) head);
      listed = over_lines listed_row (after_listing lines);
      configuration = over_lines configured head;
    }

-- What `base64.b64decode` makes of a text, or how it fails.
abbrev pub Base64 : Type 0
Base64 = String → Option (List ℕ)

abbrev pub Minted : Type 0
Minted = Dict (List ℕ) × List String

-- The name and the rest of a line, at its first space.
abbrev named_rest : String → Option (String × String) → String × String
named_rest line none = (line, "")
named_rest line (some pair) = pair

abbrev kept_bytes : String → Dict (List ℕ) → Option (List ℕ) → Result (Dict (List ℕ))
kept_bytes name got none = refuse (malformed_bytes name)
kept_bytes name got (some bytes) = ok (put got name bytes)

unfoldable pub mint_line :
    Base64 → List String → Dict (List ℕ) → String × String → Result (Dict (List ℕ))
unfolding contains put
mint_line decode files got (name, encoded) =
    if contains name files then kept_bytes name got (decode encoded) else ok got

-- Every line but the last one names a file and has its bytes.
unfoldable pub mint_lines : Base64 → List String → Dict (List ℕ) → List String → Result Minted
unfolding mint_line partition_at words sorted
mint_lines decode files got [] = ok (got, [])
mint_lines decode files got (line ∷ []) = ok (got, sorted (words line))
mint_lines decode files got (line ∷ next ∷ lines) = do
  more ← mint_line decode files got (named_rest line (partition_at b' ' line))
  mint_lines decode files more (next ∷ lines)

-- `minted`
unfoldable pub minted : Base64 → String → List String → Result Minted
unfolding mint_lines split_lines strip
minted decode reported files =
    mint_lines decode files [] (filter (λ line. not (is_blank line)) (split_lines reported))
