-- ===== src/Text/Split.antt =====
-- `shlex.split` and `shlex.join`. A line is split where white space of ASCII stands outside of quotes,
-- and no split is `ValueError`.
pub mod Joined
use Prim.Native.Char.{Char, code}
use nixplan.Prelude.{
  ℕ, String, Bool, true, ◌||◌, Option, none, some, List, [], ◌∷◌, ◌==◌, map, if◌then◌else◌,
}
use nixplan.Text.Words.{join_by}
use nixplan.Text.Shell.{quote}

-- What a character does outside of quotes.
pub data Kind : Type 0 where
  blank apostrophe quotation backslash plain : Kind

abbrev pub kind : ℕ → Kind
kind c =
    if c == 32 || c == 9 || c == 10 || c == 13
    then blank
    else if c == 39
    then apostrophe
    else if c == 34
    then quotation
    else if c == 92
    then backslash
    else plain

-- The states of the lexer: between words, in a word, in quotes of either kind, and behind a backslash
-- outside of quotes or in double ones.
pub data Mode : Type 0 where
  between in_word single double escaped escaped_double : Mode

abbrev pub push : Char → Option (List String) → Option (List String)
push c none = none
push c (some []) = some []
push c (some (w ∷ ws)) = some (String.◌∷◌ c w ∷ ws)

abbrev pub new_word : Option (List String) → Option (List String)
new_word none = none
new_word (some ws) = some ("" ∷ ws)

-- The words of what is left, of which the first is the rest of the word that the lexer is in.
unfoldable pub split_in : Mode → String → Option (List String)
split_in between String.[] = some []
split_in between (String.◌∷◌ c s) = elim (kind (code c)) [
  | blank ↦ split_in between s
  | apostrophe ↦ split_in single s
  | quotation ↦ split_in double s
  | backslash ↦ split_in escaped s
  | plain ↦ push c (split_in in_word s)
]
split_in in_word String.[] = some ("" ∷ [])
split_in in_word (String.◌∷◌ c s) = elim (kind (code c)) [
  | blank ↦ new_word (split_in between s)
  | apostrophe ↦ split_in single s
  | quotation ↦ split_in double s
  | backslash ↦ split_in escaped s
  | plain ↦ push c (split_in in_word s)
]
split_in single String.[] = none
split_in single (String.◌∷◌ c s) = elim (kind (code c)) [
  | apostrophe ↦ split_in in_word s
  | _ ↦ push c (split_in single s)
]
split_in double String.[] = none
split_in double (String.◌∷◌ c s) = elim (kind (code c)) [
  | quotation ↦ split_in in_word s
  | backslash ↦ split_in escaped_double s
  | _ ↦ push c (split_in double s)
]
split_in escaped String.[] = none
split_in escaped (String.◌∷◌ c s) = push c (split_in in_word s)
split_in escaped_double String.[] = none
split_in escaped_double (String.◌∷◌ c s) = elim (kind (code c)) [
  | quotation ↦ push c (split_in double s)
  | backslash ↦ push c (split_in double s)
  | _ ↦ push "\\" (push c (split_in double s))
]

unfoldable pub split : String → Option (List String)
unfolding split_in
split s = split_in between s

unfoldable pub join : List String → String
unfolding quote join_by
join ws = join_by " " (map quote ws)
