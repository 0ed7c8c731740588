-- ===== src/View/Graph/Layout.antt =====
-- view/graph.py: the boxes of the cells lie inside the page and apart from one another.
use nixplan.Prelude.{
  ℕ, suc, ◌+◌, ◌-◌, ◌*◌, ◌≤◌, ◌<◌, ◌⊎◌, inl, inr, ltb, leb, ◌==◌, ==_iff, ltb→lt, true, false,
  Bool-cases, ◌≡◌, refl, sym, ap, subst, ◌∙◌, List, [], ◌∷◌, ◌++◌, map, arith, if◌then◌else◌,
}
use nixplan.Prelude.Int.{pos}
use nixplan.Errors.{ok, >>=-ok, ok-injective, traverse}
use nixplan.Dict.{Dict, keys}
use nixplan.Order.{walk}
use nixplan.Manifest.{Deployment}
use nixplan.View.Graph.Reads.{Reading, reading, projected}
use nixplan.View.Graph.{
  Cell, Placing, row_at, cell_at, place_cells, cells, place_entries, columns, x_of, y_of,
  greatest_of, extent, width, height, cell_width, cell_height, margin, draw, edges, delivering,
  Document, graph,
}

abbrev pub EveryCell : (Cell → Type 0) → List Cell → Type 0
EveryCell P [] = Unit
EveryCell P (c ∷ cs) = P c × EveryCell P cs

-- The box of one ends, across or down, before that of the other begins.
abbrev pub IsApart : Cell → Cell → Type 0
IsApart a b =
    (x_of a + cell_width < x_of b)
    ⊎ ((x_of b + cell_width < x_of a)
        ⊎ ((y_of a + cell_height < y_of b) ⊎ (y_of b + cell_height < y_of a)))

abbrev pub AreApart : List Cell → Type 0
AreApart [] = Unit
AreApart (c ∷ cs) = EveryCell (IsApart c) cs × AreApart cs

-- The box lies inside a page of this size, the margin included.
abbrev pub IsInside : ℕ → ℕ → Cell → Type 0
IsInside w h c = (x_of c + cell_width + margin ≤ w) × (y_of c + cell_height + margin ≤ h)

EveryCell-map :
    {P Q : Cell → Type 0}
    → ((c : Cell) → P c → Q c)
    → (cs : List Cell) → EveryCell P cs
    → EveryCell Q cs
EveryCell-map f [] h = tt
EveryCell-map f (c ∷ cs) (h, hs) = (f c h, EveryCell-map f cs hs)

-- Every cell that is still to be placed goes below those of its column.
abbrev IsBelow : List (ℕ × ℕ) → Cell → Type 0
IsBelow rows c = row_at rows c.column ≤ c.row

unshadow :
    (rows : List (ℕ × ℕ)) (column : ℕ) (c : Cell)
    → IsBelow ((column, suc (row_at rows column)) ∷ rows) c
    → IsBelow rows c
unfolding row_at
unshadow rows column c h = elim (Bool-cases (column == c.column)) [
  | inl y ↦
      let below : suc (row_at rows column) ≤ c.row = rw y at h in
      let same : row_at rows column ≡ row_at rows c.column =
        ap (row_at rows) ((==_iff column c.column).0 y) in
      omega (arith, below, same)
  | inr n ↦ rw n at h
]

place_cells-IsBelow :
    (least : ℕ) (rows : List (ℕ × ℕ)) (placed : Dict Placing)
    → EveryCell (IsBelow rows) (place_cells least rows placed)
unfolding place_cells
place_cells-IsBelow least rows [] = tt
place_cells-IsBelow least rows ((key, p) ∷ placed) = (
  omega arith,
  EveryCell-map (unshadow rows (p.level - least)) _ (
      place_cells-IsBelow least ((p.level - least, suc (row_at rows (p.level - least))) ∷ rows)
        placed),
)

abbrev Apart : (ca ra cb rb : ℕ) → Type 0
Apart ca ra cb rb =
    (24 + ca * 340 + 236 < 24 + cb * 340)
    ⊎ ((24 + cb * 340 + 236 < 24 + ca * 340)
        ⊎ ((24 + ra * 84 + 58 < 24 + rb * 84) ⊎ (24 + rb * 84 + 58 < 24 + ra * 84)))

apart : (ca ra cb rb : ℕ) → ((ca == cb) ≡ true → ra < rb) → Apart ca ra cb rb
apart ca ra cb rb h = elim (Bool-cases (ltb ca cb)) [
  | inl left ↦ let before : ca < cb = ltb→lt ca cb left in inl (omega arith)
  | inr not_left ↦ elim (Bool-cases (ltb cb ca)) [
    | inl right ↦ let before : cb < ca = ltb→lt cb ca right in inr (inl (omega arith))
    | inr not_right ↦
        let above : ra < rb = h (same ca cb not_left not_right) in inr (inr (inl (omega arith)))
  ]
]
  where
    same : (m n : ℕ) → ltb m n ≡ false → ltb n m ≡ false → (m == n) ≡ true
    same m n a b = ground arith

IsApart-of_below :
    (rows : List (ℕ × ℕ)) (a b : Cell) → IsBelow ((a.column, suc a.row) ∷ rows) b → IsApart a b
unfolding row_at
IsApart-of_below rows a b h = apart a.column a.row b.column b.row λ y. rw y at h

place_cells-AreApart :
    (least : ℕ) (rows : List (ℕ × ℕ)) (placed : Dict Placing)
    → AreApart (place_cells least rows placed)
unfolding place_cells
place_cells-AreApart least rows [] = tt
place_cells-AreApart least rows ((key, p) ∷ placed) = (
  EveryCell-map
      (IsApart-of_below rows (cell_at key p (p.level - least) (row_at rows (p.level - least)))) _
      (place_cells-IsBelow least ((p.level - least, suc (row_at rows (p.level - least))) ∷ rows)
        placed),
  place_cells-AreApart least ((p.level - least, suc (row_at rows (p.level - least))) ∷ rows) placed,
)

module _ (f : Cell → ℕ) where
  greatest_of-step :
      (m n : ℕ) (ns : List ℕ)
      → ((k : ℕ) → k ≤ greatest_of k ns)
      → m ≤ greatest_of (if ltb m n then n else m) ns
  greatest_of-step m n ns h = elim (Bool-cases (ltb m n)) [
    | inl y ↦ let before : m < n = ltb→lt m n y in rw y (omega (arith, before, h n))
    | inr o ↦ rw o (h m)
  ]

  greatest_of-first : (cs : List Cell) (m : ℕ) → m ≤ greatest_of m (map f cs)
  greatest_of-first [] m = omega arith
  greatest_of-first (c ∷ cs) m = greatest_of-step m (f c) (map f cs) (greatest_of-first cs)

  greatest_of-member :
      (m n : ℕ) (ns : List ℕ)
      → ((k : ℕ) → k ≤ greatest_of k ns)
      → n ≤ greatest_of (if ltb m n then n else m) ns
  greatest_of-member m n ns h = elim (Bool-cases (ltb m n)) [
    | inl y ↦ rw y (h n)
    | inr o ↦ let after : n ≤ m = ground arith in rw o (omega (arith, after, h m))
  ]

  greatest_of-every : (cs : List Cell) (m : ℕ) → EveryCell (λ c. f c ≤ greatest_of m (map f cs)) cs
  greatest_of-every [] m = tt
  greatest_of-every (c ∷ cs) m = (
    greatest_of-member m (f c) (map f cs) (greatest_of-first cs),
    greatest_of-every cs (if ltb m (f c) then f c else m),
  )

  greatest_of-all :
      (c : Cell) (cs : List Cell) → EveryCell (λ b. f b ≤ greatest_of (f c) (map f cs)) (c ∷ cs)
  greatest_of-all c cs = (greatest_of-first cs (f c), greatest_of-every cs (f c))

width-pos :
    (c : Cell) (cs : List Cell)
    → (w : ℕ) × (width (c ∷ cs) ≡ pos w)
      × EveryCell (λ b. x_of b + cell_width + margin ≤ w) (c ∷ cs)
unfolding width extent
width-pos c cs =
    let g = greatest_of c.column (map (λ (b : Cell). b.column) cs) in
    (
      48 + suc g * 340 - 104,
      rw (fits g) refl,
      EveryCell-map (inside g) (c ∷ cs) (greatest_of-all (λ b. b.column) c cs),
    )
  where
    fits : (g : ℕ) → leb 104 (48 + suc g * 340) ≡ true
    fits g = ground arith

    inside :
        (g : ℕ) (b : Cell) → b.column ≤ g → x_of b + cell_width + margin ≤ 48 + suc g * 340 - 104
    inside g b h = omega arith

height-pos :
    (c : Cell) (cs : List Cell)
    → (h : ℕ) × (height (c ∷ cs) ≡ pos h)
      × EveryCell (λ b. y_of b + cell_height + margin ≤ h) (c ∷ cs)
unfolding height extent
height-pos c cs =
    let g = greatest_of c.row (map (λ (b : Cell). b.row) cs) in
    (
      48 + suc g * 84 - 26,
      rw (fits g) refl,
      EveryCell-map (inside g) (c ∷ cs) (greatest_of-all (λ b. b.row) c cs),
    )
  where
    fits : (g : ℕ) → leb 26 (48 + suc g * 84) ≡ true
    fits g = ground arith

    inside : (g : ℕ) (b : Cell) → b.row ≤ g → y_of b + cell_height + margin ≤ 48 + suc g * 84 - 26
    inside g b h = omega arith

EveryCell-both :
    (P Q : Cell → Type 0) (cs : List Cell)
    → EveryCell P cs
    → EveryCell Q cs
    → EveryCell (λ c. P c × Q c) cs
EveryCell-both P Q [] h k = tt
EveryCell-both P Q (c ∷ cs) (h, hs) (k, ks) = ((h, k), EveryCell-both P Q cs hs ks)

cells-AreApart :
    (d : Deployment) (read : Reading) (at : Dict ℕ) (cs : List Cell)
    → cells d read at ≡ ok cs
    → AreApart cs
unfolding cells
cells-AreApart d read at cs h =
    let (entries, h1, h2) = >>=-ok (place_entries at [] d.entries) _ h in
    subst AreApart (ok-injective h2) (place_cells-AreApart _ [] _)

-- The document of a graph has its cells, and the extents of them.
graph-cells :
    (d : Deployment) (doc : Document)
    → graph d ≡ ok doc
    → (read : Reading) × (at : Dict ℕ) × (cells d read at ≡ ok doc.cells)
      × (doc.width ≡ width doc.cells)
      × (doc.height ≡ height doc.cells)
unfolding graph
graph-cells d doc h =
    let (read, h1, g1) = >>=-ok (reading d) _ h in
    let (walked, h2, g2) = >>=-ok (walk (projected d read) (keys d.entries)) _ g1 in
    let (cs, h3, g3) = >>=-ok (cells d read (columns walked)) _ g2 in
    let (es, h4, g4) =
      >>=-ok
        (traverse (draw cs walked.broken)
          (edges read (keys d.entries) ++ delivering d read (map (λ (c : Cell). c.key) cs)))
        _ g3 in
    let made = ok-injective g4 in
    (
      read,
      columns walked,
      h3 ∙ ap (λ (x : Document). ok x.cells) made,
      sym (ap (λ (x : Document). x.width) made) ∙ ap (λ (x : Document). width x.cells) made,
      sym (ap (λ (x : Document). x.height) made) ∙ ap (λ (x : Document). height x.cells) made,
    )

-- No two boxes of a graph overlap.
pub graph-AreApart : (d : Deployment) (doc : Document) → graph d ≡ ok doc → AreApart doc.cells
graph-AreApart d doc h =
    let (read, at, made, w, k) = graph-cells d doc h in cells-AreApart d read at doc.cells made

-- The page of a graph with a cell has a size, and every box lies inside of it, the margin included.
pub graph-IsInside :
    (d : Deployment) (doc : Document) (c : Cell) (cs : List Cell)
    → graph d ≡ ok doc
    → doc.cells ≡ c ∷ cs
    → (w : ℕ) × (h : ℕ) × (doc.width ≡ pos w)
      × (doc.height ≡ pos h)
      × EveryCell (IsInside w h) doc.cells
graph-IsInside d doc c cs made some_cell =
    let (read, at, h, same_width, same_height) = graph-cells d doc made in
    let (wide, is_wide, inside_wide) = width-pos c cs in
    let (high, is_high, inside_high) = height-pos c cs in
    (
      wide,
      high,
      same_width ∙ ap width some_cell ∙ is_wide,
      same_height ∙ ap height some_cell ∙ is_high,
      subst (EveryCell (IsInside wide high)) (sym some_cell)
          (EveryCell-both _ _ (c ∷ cs) inside_wide inside_high),
    )
