-- ===== src/Remote.antt =====
-- cli/remote.py: the argument vectors of the steps, and the machine that a refusal names.
pub mod Named
pub mod Holdings
pub mod Answers
pub mod Scripts
pub mod Verbs
pub mod Preflight
pub mod Options
pub mod Tests
use nixplan.Prelude.{
  String, str_eq, Bool, true, false, ◌&&◌, ◌||◌, Option, none, some, List, [], ◌∷◌, ◌++◌,
  if◌then◌else◌,
}
use nixplan.Text.Words.{fstring, remove_prefix}
use nixplan.Paths.{FilePath, path_text}

-- COPY, SSH, TO, REMOTE and UNNAMED
abbrev pub nix_copy : List String
nix_copy = "nix" ∷ "copy" ∷ []

abbrev pub ssh : String
ssh = "ssh"

abbrev pub to_option : String
to_option = "--to"

abbrev pub remote : String
remote = "ssh://"

abbrev pub unnamed_machine : String
unnamed_machine = "the machine"

abbrev pub account_at : String → String → String
account_at user address = fstring (user ∷ "@" ∷ address ∷ [])

unfoldable pub copy_argv : FilePath → String → String → List String
unfolding path_text
copy_argv artifact address user =
    nix_copy
    ++ to_option
      ∷ fstring (remote ∷ account_at user address ∷ [])
      ∷ "--no-check-sigs"
      ∷ path_text artifact
      ∷ []

-- `opts` are the words that `shlex.split` makes of the options.
unfoldable pub ssh_argv : String → String → List String → String → List String
ssh_argv address script opts user = ssh ∷ (opts ++ account_at user address ∷ script ∷ [])

-- The word after the first `--to`: there is no such option, nothing after it, or a word.
pub data Found : Type 0 where
  no_option nothing_after : Found
  word_after : String → Found

unfoldable pub after_option : List String → Found
after_option [] = no_option
after_option (w ∷ []) = if str_eq w to_option then nothing_after else no_option
after_option (w ∷ v ∷ rest) =
    let later = after_option (v ∷ rest) in if str_eq w to_option then word_after v else later

-- `words[-2]`, of three words or more
unfoldable pub next_to_last : List String → Option String
next_to_last [] = none
next_to_last (a ∷ []) = none
next_to_last (a ∷ b ∷ []) = some a
next_to_last (a ∷ b ∷ rest) = next_to_last (b ∷ rest)

abbrev pub or_unnamed : Option String → String
or_unnamed none = unnamed_machine
or_unnamed (some word) = word

abbrev starts_with_copy : List String → Bool
starts_with_copy (a ∷ b ∷ rest) = str_eq a "nix" && str_eq b "copy"
starts_with_copy _ = false

unfoldable pub ssh_destination : List String → String
unfolding next_to_last
ssh_destination (a ∷ b ∷ c ∷ rest) =
    if str_eq a ssh then or_unnamed (next_to_last (a ∷ b ∷ c ∷ rest)) else unnamed_machine
ssh_destination _ = unnamed_machine

unfoldable pub copy_destination : List String → Found → String
unfolding remove_prefix ssh_destination
copy_destination cmd no_option = ssh_destination cmd
copy_destination cmd nothing_after = unnamed_machine
copy_destination cmd (word_after word) = remove_prefix remote word

unfoldable pub destination : List String → String
unfolding copy_destination after_option
destination cmd =
    if starts_with_copy cmd then copy_destination cmd (after_option cmd) else ssh_destination cmd
