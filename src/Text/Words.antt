-- ===== src/Text/Words.antt =====
-- The methods of Python's `str` that the command walks a text with. White space and the ends of
-- lines are those of `str.split` and `str.splitlines`, Unicode's included.
use Prim.Native.Char.{Char, code}
use Prim.Native.String.{◌++◌}
use nixplan.Prelude.{
  ℕ, zero, suc, ◌+◌, ◌-◌, ◌*◌, String, str_eq, Bool, true, false, ◌&&◌, ◌||◌, Option, none, some,
  List, [], ◌∷◌, ◌==◌, leb, if◌then◌else◌,
}
use nixplan.Prelude.Int.{ℤ, pos, negsuc}

-- An f-string: its pieces, put together.
abbrev pub fstring : List String → String
fstring [] = ""
fstring (s ∷ rest) = s ++ fstring rest

-- `separator.join(texts)`
unfoldable pub join_by : String → List String → String
join_by separator [] = ""
join_by separator (s ∷ []) = s
join_by separator (s ∷ t ∷ rest) = s ++ (separator ++ join_by separator (t ∷ rest))

abbrev head_with : Char → List String → List String
head_with c [] = String.◌∷◌ c "" ∷ []
head_with c (s ∷ rest) = String.◌∷◌ c s ∷ rest

-- `text.split(separator)` of one character
unfoldable pub split_at : ℕ → String → List String
split_at separator String.[] = "" ∷ []
split_at separator (String.◌∷◌ c s) =
    let rest = split_at separator s in if code c == separator then "" ∷ rest else head_with c rest

abbrev pub is_space : ℕ → Bool
is_space c =
    c == 32
    || (leb 9 c && leb c 13)
    || (leb 28 c && leb c 31)
    || c == 133
    || c == 160
    || (c == 5760
        || (leb 8192 c && leb c 8202)
        || c == 8232
        || c == 8233
        || c == 8239
        || c == 8287
        || c == 12288)

-- What ends a line besides a line feed and a carriage return
abbrev is_line_end : ℕ → Bool
is_line_end c = c == 11 || c == 12 || (leb 28 c && leb c 30) || c == 133 || c == 8232 || c == 8233

abbrev drop_empty : List String → List String
drop_empty [] = []
drop_empty (s ∷ rest) = let kept = drop_empty rest in if str_eq s "" then kept else s ∷ kept

unfoldable pub split_spaces : String → List String
split_spaces String.[] = "" ∷ []
split_spaces (String.◌∷◌ c s) =
    let rest = split_spaces s in if is_space (code c) then "" ∷ rest else head_with c rest

-- `text.split()`
unfoldable pub words : String → List String
unfolding split_spaces
words s = drop_empty (split_spaces s)

-- The pieces between the ends of lines. The flag says that a carriage return stood before.
unfoldable pub split_ends : Bool → String → List String
split_ends returned String.[] = "" ∷ []
split_ends returned (String.◌∷◌ c s) =
    let rest = split_ends false s in
    let ended = split_ends true s in
    if code c == 10
    then (if returned then rest else "" ∷ rest)
    else if code c == 13
    then "" ∷ ended
    else if is_line_end (code c)
    then "" ∷ rest
    else head_with c rest

abbrev drop_last_empty : List String → List String
drop_last_empty [] = []
drop_last_empty (s ∷ []) = if str_eq s "" then [] else s ∷ []
drop_last_empty (s ∷ t ∷ rest) = s ∷ drop_last_empty (t ∷ rest)

-- `text.splitlines()`: no piece follows the last end of a line.
unfoldable pub split_lines : String → List String
unfolding split_ends
split_lines s = drop_last_empty (split_ends false s)

-- `text.lstrip()`, and `text.strip()` of a reversed reversal
unfoldable pub strip_left : String → String
strip_left String.[] = ""
strip_left (String.◌∷◌ c s) = if is_space (code c) then strip_left s else String.◌∷◌ c s

unfoldable pub strip_right : String → String
strip_right String.[] = ""
strip_right (String.◌∷◌ c s) =
    let rest = strip_right s in
    if is_space (code c) && str_eq rest "" then "" else String.◌∷◌ c rest

-- `text.strip()`
unfoldable pub strip : String → String
unfolding strip_left strip_right
strip s = strip_right (strip_left s)

-- `text.removeprefix(prefix)`, where the text starts with it
unfoldable pub after_prefix : String → String → Option String
after_prefix String.[] s = some s
after_prefix (String.◌∷◌ c p) String.[] = none
after_prefix (String.◌∷◌ c p) (String.◌∷◌ d s) = if code c == code d then after_prefix p s else none

-- `text.removeprefix(prefix)`
unfoldable pub remove_prefix : String → String → String
unfolding after_prefix
remove_prefix prefix s = elim (after_prefix prefix s) [ none ↦ s | some rest ↦ rest ]

unfoldable pub remove_suffix : String → String → String
remove_suffix suffix String.[] = ""
remove_suffix suffix (String.◌∷◌ c s) =
    let rest = remove_suffix suffix s in
    if str_eq (String.◌∷◌ c s) suffix then "" else String.◌∷◌ c rest

-- `text.partition(separator)` of one character: what stands before it and after it, if it is there
unfoldable pub partition_at : ℕ → String → Option (String × String)
partition_at separator String.[] = none
partition_at separator (String.◌∷◌ c s) =
    let rest = partition_at separator s in
    if code c == separator
    then some ("", s)
    else elim rest [ none ↦ none | some (a, b) ↦ some (String.◌∷◌ c a, b) ]

-- `text.rpartition(separator)` of a separator that is not empty: what stands before and after its
-- last occurrence, if there is one
unfoldable pub rpartition : String → String → Option (String × String)
unfolding after_prefix
rpartition separator String.[] = none
rpartition separator (String.◌∷◌ c s) = elim (rpartition separator s) [
  | some (a, b) ↦ some (String.◌∷◌ c a, b)
  | none ↦ elim (after_prefix separator (String.◌∷◌ c s)) [
    | none ↦ none
    | some rest ↦ some ("", rest)
  ]
]

-- The code points of a text, so that `len(text)` is their number.
abbrev pub points : String → List ℕ
points String.[] = []
points (String.◌∷◌ c s) = code c ∷ points s

-- `int(text)` of a text without white space: a sign, and decimal digits with single underscores
-- between them. Digits outside ASCII are not read.
abbrev is_digit : ℕ → Bool
is_digit c = leb 48 c && leb c 57

-- The flag says that a digit stood before.
unfoldable pub digits : Bool → ℕ → List ℕ → Option ℕ
digits after n [] = if after then some n else none
digits after n (c ∷ cs) =
    let digit = digits true (10 * n + (c - 48)) cs in
    let gap = digits false n cs in
    if is_digit c then digit else if (c == 95) && after then gap else none

abbrev negative : Option ℕ → Option ℤ
negative none = none
negative (some zero) = some (pos zero)
negative (some (suc n)) = some (negsuc n)

abbrev positive : Option ℕ → Option ℤ
positive none = none
positive (some n) = some (pos n)

unfoldable pub integer_at : List ℕ → Option ℤ
unfolding digits
integer_at [] = none
integer_at (c ∷ cs) =
    if c == 45
    then negative (digits false 0 cs)
    else positive (digits false 0 (if c == 43 then cs else c ∷ cs))

unfoldable pub integer : String → Option ℤ
unfolding integer_at
integer s = integer_at (points s)

-- `==` of two tuples of text
unfoldable pub same_texts : List String → List String → Bool
same_texts [] [] = true
same_texts [] (t ∷ ts) = false
same_texts (s ∷ ss) [] = false
same_texts (s ∷ ss) (t ∷ ts) = str_eq s t && same_texts ss ts
