-- ===== src/Report/Absent.antt =====
-- cli/report.py: the values that `_absent` reports missing on a machine.
use nixplan.Prelude.{
  String, str_eq, ap, sym, ◌≡◌, refl, ◌∙◌, Bool, true, false, not, ◌&&◌, Option, none, some, List,
  [], ◌∷◌, map, filter, any, arith, if◌then◌else◌,
}
use nixplan.Text.Words.{words, split_lines}
use nixplan.Sorted.{text_order, contains}
use nixplan.Sorted.Laws.{contains-sorted_set}
use nixplan.Dict.{Dict, get, get-put}
use nixplan.Manifest.{ValueFile}
use nixplan.Report.{
  seals, before_marker, halves, say_columns, said_by, is_present, is_lacking, absent,
}

-- What one line says of a path: the second of its two words, where the first is the path.
abbrev word_about : String → List String → Option String
word_about p (q ∷ word ∷ []) = if str_eq q p then some word else none
word_about p _ = none

abbrev or_else : Option String → Option String → Option String
or_else none other = other
or_else (some x) other = some x

-- What the lines before the first marker say last of a path.
unfoldable pub said_last : String → List String → Option String
said_last p [] = none
said_last p (line ∷ lines) =
    let rest = said_last p lines in
    if str_eq line seals then none else or_else rest (word_about p (words line))

abbrev is_word : Option String → String → Bool
is_word none word = false
is_word (some said) word = str_eq said word

-- Whether the file at a path is said, last, to be present.
abbrev pub is_said_present : List String → String → Bool
is_said_present lines p = is_word (said_last p lines) "present"

or_else_assoc : (a b c : Option String) → or_else (or_else a b) c ≡ or_else a (or_else b c)
or_else_assoc none b c = refl
or_else_assoc (some x) b c = refl

get-say_columns :
    (said : Dict String) (columns : List String) (p : String)
    → get (say_columns said columns) p ≡ or_else (word_about p columns) (get said p)
unfolding say_columns
get-say_columns said [] p = refl
get-say_columns said (q ∷ []) p = refl
get-say_columns said (q ∷ word ∷ []) p = get-put said q p word ∙ chosen (str_eq q p)
  where
    chosen :
        (b : Bool)
        → (if b then some word else get said p)
          ≡ or_else (if b then some word else none) (get said p)
    chosen true = refl
    chosen false = refl
get-say_columns said (q ∷ word ∷ other ∷ columns) p = refl

get-said_by :
    (said : Dict String) (lines : List String) (p : String)
    → get (said_by said (before_marker lines)) p ≡ or_else (said_last p lines) (get said p)
unfolding said_by before_marker said_last
get-said_by said [] p = refl
get-said_by said (line ∷ lines) p =
    by_marker (str_eq line seals) (get-said_by (say_columns said (words line)) lines p)
  where
    by_marker :
        (b : Bool)
        → get (said_by (say_columns said (words line)) (before_marker lines)) p
          ≡ or_else (said_last p lines) (get (say_columns said (words line)) p)
        → get (said_by said (if b then [] else line ∷ before_marker lines)) p
          ≡ or_else
              (if b then none else or_else (said_last p lines) (word_about p (words line)))
              (get said p)
    by_marker true e = refl
    by_marker false e =
        e
        ∙ ap (or_else (said_last p lines)) (get-say_columns said (words line) p)
        ∙ sym (or_else_assoc (said_last p lines) (word_about p (words line)) (get said p))

is_lacking-said :
    (lines : List String) (f : String × ValueFile)
    → is_lacking (said_by [] (before_marker lines)) f ≡ not (is_said_present lines (f.1).path)
unfolding get
is_lacking-said lines (key, file) =
    ap (λ o. not (is_present o)) (get-said_by [] lines file.path) ∙ same (said_last file.path lines)
  where
    same : (o : Option String) → not (is_present (or_else o none)) ≡ not (is_word o "present")
    same none = refl
    same (some word) = refl

contains-map_lacking :
    (lines : List String) (fs : List (String × ValueFile)) (key : String)
    → contains key (
        map
          (λ (f : String × ValueFile). f.0)
          (filter (is_lacking (said_by [] (before_marker lines))) fs))
      ≡ any
          (λ (f : String × ValueFile). str_eq f.0 key && not (is_said_present lines (f.1).path))
          fs
unfolding contains
contains-map_lacking lines [] key = refl
contains-map_lacking lines (f ∷ fs) key =
    let here = is_lacking-said lines f in ground (arith, contains-map_lacking lines fs key)

-- A value is reported missing on a machine exactly where one of its delivered files has a path that
-- the lines of the answer, before the first marker of the seals, do not say to be present: a line of
-- two words says its second of its first, and the last such line about a path counts.
pub contains-absent :
    (delivered : List (String × ValueFile)) (reported key : String)
    → contains key (absent delivered reported)
      ≡ any
          (λ (f : String × ValueFile).
            str_eq f.0 key && not (is_said_present (split_lines reported) (f.1).path))
          delivered
unfolding absent halves
contains-absent delivered reported key =
    contains-sorted_set key (
      map (λ (f : String × ValueFile). f.0)
        (filter (is_lacking (said_by [] (before_marker (split_lines reported)))) delivered))
    ∙ contains-map_lacking (split_lines reported) delivered key
