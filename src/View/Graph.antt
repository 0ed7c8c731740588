-- ===== src/View/Graph.antt =====
-- view/graph.py: the cells and the edges of the picture, and where each is drawn.
pub mod Reads
pub mod Layout
pub mod Tests
use nixplan.Prelude.{
  ℕ, zero, suc, ◌+◌, ◌-◌, ◌*◌, ltb, leb, ◌==◌, String, str_eq, Bool, true, false, not, ◌&&◌, ◌||◌,
  Option, none, some, List, [], ◌∷◌, ◌++◌, map, filter, flat_map, any, if◌then◌else◌,
}
use nixplan.Prelude.Int.{ℤ, pos, negsuc}
use nixplan.Text.Words.{same_texts}
use nixplan.Errors.{Result, ok, raises, key_error, traverse, ◌>>=◌}
use nixplan.Sorted.{text_order, nat_order, pair_order, contains, sorted_set}
use nixplan.Dict.{Dict, get, put, has, keys, sorted_items}
use nixplan.Order.{Pair, WalkResult, walk}
use nixplan.Manifest.{ValueFile, Value, Entry, Deployment}
use Reads.{Slot, Unrecognised, Reading, reading, projected, readers}

-- CELL_WIDTH, CELL_HEIGHT, COLUMN_GAP, ROW_GAP and MARGIN
abbrev pub cell_width : ℕ
cell_width = 236

abbrev pub cell_height : ℕ
cell_height = 58

abbrev pub column_gap : ℕ
column_gap = 104

abbrev pub row_gap : ℕ
row_gap = 26

abbrev pub margin : ℕ
margin = 24

pub record Cell : Type 0 where
  pub key : String
  pub kind : String
  pub column : ℕ
  pub row : ℕ
  pub machine : Option String

-- `_columns`: `next` is the column that the walk is in, and one more.
abbrev group_of : List (List String) → String → Option (List String)
group_of [] key = none
group_of (g ∷ gs) key = elim (group_of gs key) [
  | some h ↦ some h
  | none ↦ if contains key g then some g else none
]

abbrev is_seen : List (List String) → Option (List String) → Bool
is_seen seen none = false
is_seen seen (some g) = any (same_texts g) seen

abbrev see : List (List String) → Option (List String) → List (List String)
see seen none = seen
see seen (some g) = g ∷ seen

unfoldable pub columns_from : List (List String) → List (List String) → ℕ → List String → Dict ℕ
unfolding contains same_texts
columns_from cycles seen next [] = []
columns_from cycles seen next (key ∷ order) =
    let group = group_of cycles key in
    let here = if is_seen seen group then next else suc next in
    (key, here - 1) ∷ columns_from cycles (see seen group) here order

unfoldable pub columns : WalkResult → Dict ℕ
unfolding columns_from
columns walked = columns_from walked.cycles [] 0 walked.order

-- Where a cell is to stand: one more than its column before the shift, since the least one is -1.
pub record Placing : Type 0 where
  pub level : ℕ
  pub kind : String
  pub machine : Option String

unfoldable pub column_of : Dict ℕ → String → Result ℕ
unfolding get
column_of at key = elim (get at key) [ none ↦ raises (key_error key) | some column ↦ ok column ]

unfoldable pub place_entries : Dict ℕ → Dict Placing → Dict Entry → Result (Dict Placing)
unfolding column_of put
place_entries at placed [] = ok placed
place_entries at placed ((key, e) ∷ rest) = do
  column ← column_of at key
  place_entries at
      (put placed key (record { level = suc column; kind = "entry"; machine = some e.machine }))
      rest

-- `min(into, default=0)`
abbrev pub least_of : ℕ → List ℕ → ℕ
least_of m [] = m
least_of m (n ∷ ns) = least_of (if ltb n m then n else m) ns

abbrev least_or_zero : List ℕ → ℕ
least_or_zero [] = 0
least_or_zero (n ∷ ns) = least_of n ns

abbrev columns_into : Dict ℕ → List Pair → List ℕ
columns_into at [] = []
columns_into at ((consumer, slot) ∷ rest) = elim (get at consumer) [
  | none ↦ columns_into at rest
  | some column ↦ column ∷ columns_into at rest
]

abbrev readers_at : Option (List Pair) → List Pair
readers_at none = []
readers_at (some ps) = ps

unfoldable pub place_values : Dict ℕ → Dict (List Pair) → Dict Placing → Dict Value → Dict Placing
unfolding get put
place_values at read_by placed [] = placed
place_values at read_by placed ((key, v) ∷ rest) =
    let level = least_or_zero (columns_into at (readers_at (get read_by key))) in
    place_values at read_by
      (put placed key (record { level = level; kind = "value"; machine = none })) rest

-- `rows.get(at, 0)` and `rows[at] = row`
unfoldable pub row_at : List (ℕ × ℕ) → ℕ → ℕ
row_at [] column = 0
row_at ((c, row) ∷ rows) column = if c == column then row else row_at rows column

abbrev pub cell_at : String → Placing → ℕ → ℕ → Cell
cell_at key p column row = record {
  key = key;
  kind = p.kind;
  column = column;
  row = row;
  machine = p.machine;
}

-- The cells in the order of their keys, each in the next row of its column.
unfoldable pub place_cells : ℕ → List (ℕ × ℕ) → Dict Placing → List Cell
unfolding row_at
place_cells least rows [] = []
place_cells least rows ((key, p) ∷ placed) =
    let column = p.level - least in
    let row = row_at rows column in
    cell_at key p column row ∷ place_cells least ((column, suc row) ∷ rows) placed

-- `_cells`
unfoldable pub cells : Deployment → Reading → Dict ℕ → Result (List Cell)
unfolding place_entries place_values readers place_cells sorted_items
cells d read at = do
  entries ← place_entries at [] d.entries
  let placed = place_values at (readers d read) entries d.values
  ok (
      place_cells (least_or_zero (map (λ (p : String × Placing). (p.1).level) placed)) []
        (sorted_items placed))

-- `_by_column`: the keys of each column, in the order of the rows
unfoldable pub push_row : Cell → List Cell → List Cell
push_row c [] = c ∷ []
push_row c (b ∷ bs) = let rest = push_row c bs in if ltb b.row c.row then b ∷ rest else c ∷ b ∷ bs

unfoldable pub sort_rows : List Cell → List Cell
unfolding push_row
sort_rows [] = []
sort_rows (c ∷ cs) = push_row c (sort_rows cs)

abbrev in_column : List Cell → ℕ → List String
in_column cs column =
    map (λ (c : Cell). c.key) (sort_rows (filter (λ (c : Cell). c.column == column) cs))

unfoldable pub by_column : List Cell → List (List String)
unfolding sort_rows sorted_set
by_column cs = map (in_column cs) (sorted_set (map (λ (c : Cell). c.column) cs))

abbrev pub x_of : Cell → ℕ
x_of cell = margin + cell.column * (cell_width + column_gap)

abbrev pub y_of : Cell → ℕ
y_of cell = margin + cell.row * (cell_height + row_gap)

-- `_extent`: no cell at all stands for the column -1.
abbrev pub greatest_of : ℕ → List ℕ → ℕ
greatest_of m [] = m
greatest_of m (n ∷ ns) = greatest_of (if ltb m n then n else m) ns

abbrev pub count_of : List ℕ → ℕ
count_of [] = 0
count_of (n ∷ ns) = suc (greatest_of n ns)

abbrev pub minus : ℕ → ℕ → ℤ
minus a b = if leb b a then pos (a - b) else negsuc (b - a - 1)

unfoldable pub extent : List ℕ → ℕ → ℕ → ℤ
extent at size gap = minus (2 * margin + count_of at * (size + gap)) gap

unfoldable pub width : List Cell → ℤ
unfolding extent
width cs = extent (map (λ (c : Cell). c.column) cs) cell_width column_gap

unfoldable pub height : List Cell → ℤ
unfolding extent
height cs = extent (map (λ (c : Cell). c.row) cs) cell_height row_gap

-- An edge: the provider or value, the consumer and the slot, sorted by consumer first
abbrev pub Edge : Type 0
Edge = String × String × String

abbrev by_consumer : String × (String × String) → Edge
by_consumer (consumer, (provider, slot)) = (provider, consumer, slot)

abbrev slot_edges : List String → Slot → List (String × (String × String))
slot_edges placed s =
    map (λ provider. (s.consumer, (provider, s.slot)))
      (filter (λ provider. contains provider placed && not (str_eq provider s.consumer))
        (s.read).providers)

-- `_edges`
unfoldable pub edges : Reading → List String → List Edge
unfolding contains sorted_set
edges read placed = map by_consumer (sorted_set (flat_map (slot_edges placed) read.slots))

abbrev value_edges : List String → String × List Pair → List (String × (String × String))
value_edges at (key, ps) =
    if contains key at
    then map (λ (p : Pair). (p.0, (key, p.1))) (filter (λ (p : Pair). contains p.0 at) ps)
    else []

-- `_delivering`
unfoldable pub delivering : Deployment → Reading → List String → List Edge
unfolding contains sorted_set readers
delivering d read at = map by_consumer (sorted_set (flat_map (value_edges at) (readers d read)))

-- `_edge`, with the coordinates of its path in the place of the path's text
pub record Drawn : Type 0 where
  pub provider : String
  pub consumer : String
  pub slot : String
  pub contradicted : Bool
  pub path : List ℤ
  pub label_x : ℕ
  pub label_y : ℕ

abbrev half : ℕ → ℕ
half zero = 0
half (suc zero) = 0
half (suc (suc n)) = suc (half n)

unfoldable pub cell_named : List Cell → String → Result Cell
cell_named [] key = raises (key_error key)
cell_named (c ∷ cs) key = let rest = cell_named cs key in if str_eq c.key key then ok c else rest

abbrev drawn : List Pair → Edge → Cell → Cell → Drawn
drawn broken (provider, consumer, slot) start end =
    let x1 = x_of start + cell_width in
    let y1 = y_of start + half cell_height in
    let x2 = x_of end in
    let y2 = y_of end + half cell_height in
    let bend = half column_gap in
    record {
      provider = provider;
      consumer = consumer;
      slot = slot;
      contradicted = contains (provider, consumer) broken;
      path =
          pos x1
          ∷ pos y1
          ∷ pos (x1 + bend)
          ∷ pos y1
          ∷ minus x2 bend
          ∷ pos y2
          ∷ pos x2
          ∷ pos y2
          ∷ [];
      label_x = half (x1 + x2);
      label_y = half (y1 + y2) - 6;
    }

unfoldable pub draw : List Cell → List Pair → Edge → Result Drawn
unfolding cell_named contains
draw at broken (provider, consumer, slot) = do
  start ← cell_named at provider
  end ← cell_named at consumer
  ok (drawn broken (provider, consumer, slot) start end)

-- The document of a plan, less the constants of its geometry.
pub record Document : Type 0 where
  pub width : ℤ
  pub height : ℤ
  pub columns : List (List String)
  pub cells : List Cell
  pub edges : List Drawn
  pub cycles : List (List String)
  pub unrecognised : List Unrecognised

-- `graph`
unfoldable pub graph : Deployment → Result Document
unfolding reading projected walk columns cells edges delivering draw width height by_column traverse
graph d = do
  read ← reading d
  walked ← walk (projected d read) (keys d.entries)
  drawn_cells ← cells d read (columns walked)
  let named = map (λ (c : Cell). c.key) drawn_cells
  drawn_edges ←
      traverse (draw drawn_cells walked.broken)
        (edges read (keys d.entries) ++ delivering d read named)
  ok (record {
    width = width drawn_cells;
    height = height drawn_cells;
    columns = by_column drawn_cells;
    cells = drawn_cells;
    edges = drawn_edges;
    cycles = walked.cycles;
    unrecognised = read.unrecognised;
  })
