-- ===== src/Remote/Holdings/Printed.antt =====
-- `_sections` of cli/remote.py: the sections that a machine printed, read back.
use nixplan.Prelude.{
  String, true, false, ◌≡◌, refl, sym, ap, ◌∙◌, some, List, [], ◌∷◌, ◌++◌, append_assoc, append-nil,
  map,
}
use nixplan.Prelude.Int.{ℤ}
use nixplan.Text.Words.{join_by, words, split_lines}
use nixplan.Errors.{ok, ◌>>=◌}
use nixplan.Dict.{Dict}
use nixplan.Manifest.{Realiser}
use nixplan.Remote.Holdings.Sections.{
  Section, Open, is_marker, marker, take_line, section_line, read_sections, closed_onto, sections,
}

-- What a machine prints of one realiser: the line of the question, with the name and the status, and
-- what the endpoint said.
pub record Printed : Type 0 where
  pub header : String
  pub realiser : String
  pub status : ℤ
  pub body : List String

abbrev pub printed_lines : List Printed → List String
printed_lines [] = []
printed_lines (x ∷ xs) = x.header ∷ (x.body ++ printed_lines xs)

abbrev pub section_of : Printed → Section
section_of x = record { realiser = x.realiser; status = x.status; said = join_by "\n" x.body }

abbrev opened_by : Printed → Open
opened_by x = record { name = x.realiser; code = x.status; lines = [] }

abbrev pub HasNoMarker : List String → Type 0
HasNoMarker [] = Unit
HasNoMarker (line ∷ lines) = (is_marker (words line) ≡ false) × HasNoMarker lines

-- The header of each is a marker of its name and status, and no other line is a marker.
abbrev pub IsPrinted : Dict Realiser → List Printed → Type 0
IsPrinted published [] = Unit
IsPrinted published (x ∷ xs) =
    (is_marker (words x.header) ≡ true)
    × (marker published (words x.header) ≡ some (opened_by x))
    × HasNoMarker x.body
    × IsPrinted published xs

abbrev read_onto : List Printed → List Open → List Open
read_onto [] read = read
read_onto (x ∷ xs) read =
    read_onto xs (record { name = x.realiser; code = x.status; lines = x.body } ∷ read)

closed_onto-read_onto :
    (xs : List Printed) (read : List Open) (onto : List Section)
    → closed_onto (read_onto xs read) onto ≡ closed_onto read (map section_of xs ++ onto)
closed_onto-read_onto [] read onto = refl
closed_onto-read_onto (x ∷ xs) read onto = closed_onto-read_onto xs _ onto

module _ (machine reported : String) (published : Dict Realiser) where
  section_line-plain :
      (line : String) (s : Open) (read : List Open)
      → is_marker (words line) ≡ false
      → section_line machine reported published line (s ∷ read)
        ≡ ok (record s { lines = s.lines ++ line ∷ [] } ∷ read)
  unfolding section_line take_line
  section_line-plain line s read plain = rw plain refl

  section_line-header :
      (line : String) (s : Open) (read : List Open)
      → is_marker (words line) ≡ true
      → marker published (words line) ≡ some s
      → section_line machine reported published line read ≡ ok (s ∷ read)
  unfolding section_line
  section_line-header line s read marks opens = rw (marks, opens) refl

  read_sections-body :
      (body rest : List String) (s : Open) (read : List Open)
      → HasNoMarker body
      → read_sections machine reported published (body ++ rest) (s ∷ read)
        ≡ read_sections machine reported published rest
            (record s { lines = s.lines ++ body } ∷ read)
  unfolding read_sections
  read_sections-body [] rest s read h =
      ap (λ ls. read_sections machine reported published rest (record s { lines = ls } ∷ read))
        (sym (append-nil s.lines))
  read_sections-body (line ∷ body) rest s read (plain, h) =
      ap (λ m. m >>= (λ further. read_sections machine reported published (body ++ rest) further))
        (section_line-plain line s read plain)
      ∙ read_sections-body body rest (record s { lines = s.lines ++ line ∷ [] }) read h
      ∙ ap (λ ls. read_sections machine reported published rest (record s { lines = ls } ∷ read))
          (append_assoc s.lines (line ∷ []) body)

  read_sections-printed :
      (xs : List Printed) (read : List Open)
      → IsPrinted published xs
      → read_sections machine reported published (printed_lines xs) read ≡ ok (read_onto xs read)
  unfolding read_sections
  read_sections-printed [] read h = refl
  read_sections-printed (x ∷ xs) read (marks, opens, plain, h) =
      ap
        (λ m. m >>= (λ further.
          read_sections machine reported published (x.body ++ printed_lines xs) further))
        (section_line-header x.header (opened_by x) read marks opens)
      ∙ read_sections-body x.body (printed_lines xs) (opened_by x) read plain
      ∙ read_sections-printed xs _ h

  -- An answer whose lines are those of sections that a machine printed, the header of each a marker of
  -- its realiser and status and none of its other lines a marker, is read back as these sections, in
  -- their order and with what the endpoints said.
  pub sections-printed :
      (xs : List Printed)
      → split_lines reported ≡ printed_lines xs
      → IsPrinted published xs
      → sections machine reported published ≡ ok (map section_of xs)
  unfolding sections
  sections-printed xs same h =
      ap
        (λ ls.
          read_sections machine reported published ls [] >>= (λ read. ok (closed_onto read [])))
        same
      ∙ ap (λ m. m >>= (λ read. ok (closed_onto read []))) (read_sections-printed xs [] h)
      ∙ ap ok (closed_onto-read_onto xs [] [] ∙ append-nil (map section_of xs))
