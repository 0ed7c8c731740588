-- ===== src/View/Graph/Tests.antt =====
-- The graph of the sample deployment, a value and its reader.
use nixplan.Prelude.{ℕ, false, ◌≡◌, refl, none, some, [], ◌∷◌}
use nixplan.Prelude.Int.{pos}
use nixplan.Text.{str_lt}
use nixplan.Errors.{ok}
use nixplan.View.Graph.{Cell, Document, graph}
use nixplan.View.Graph.Layout.{AreApart, EveryCell, IsInside, graph-AreApart, graph-IsInside}
use nixplan.Samples.{sample}

abbrev value_cell : Cell
value_cell = record { key = "vars:key"; kind = "value"; column = 0; row = 0; machine = none }

abbrev entry_cell : Cell
entry_cell = record { key = "web"; kind = "entry"; column = 1; row = 0; machine = some "m1" }

abbrev document : Document
document = record {
  width = pos 624;
  height = pos 106;
  columns = ("vars:key" ∷ []) ∷ ("web" ∷ []) ∷ [];
  cells = value_cell ∷ entry_cell ∷ [];
  edges =
      record {
        provider = "vars:key";
        consumer = "web";
        slot = "slot";
        contradicted = false;
        path = pos 260 ∷ pos 53 ∷ pos 312 ∷ pos 53 ∷ pos 312 ∷ pos 53 ∷ pos 364 ∷ pos 53 ∷ [];
        label_x = 312;
        label_y = 47;
      }
      ∷ [];
  cycles = [];
  unrecognised = [];
}

graph-sample : graph sample ≡ ok document
unfolding graph str_lt
graph-sample = refl

graph-AreApart_example : AreApart (value_cell ∷ entry_cell ∷ [])
graph-AreApart_example = graph-AreApart sample document graph-sample

graph-IsInside_example :
    (w : ℕ) × (h : ℕ) × (document.width ≡ pos w)
    × (document.height ≡ pos h)
    × EveryCell (IsInside w h) document.cells
graph-IsInside_example =
    graph-IsInside sample document value_cell (entry_cell ∷ []) graph-sample refl
