-- ===== src/Order/Components.antt =====
-- `_components` and `_close` of cli/order.py: Tarjan's algorithm with an explicit work stack. The
-- top of a stack (`work`, `held`) is the head of its list. The loops recur on fuel.
use nixplan.Prelude.{
  ℕ, zero, suc, ◌+◌, ◌*◌, String, str_eq, not, Option, none, some, List, [], ◌∷◌, ◌++◌, length,
  filter, if◌then◌else◌, ◌==◌, leb,
}
use nixplan.Errors.{Result, ok, raises, key_error, index_error, ◌>>=◌}
use nixplan.Sorted.{text_order, contains, sorted}
use nixplan.Dict.{Dict, get, has, put}

-- `forward`: each node with its consumers.
abbrev pub Forward : Type 0
Forward = Dict (List String)

pub record Search : Type 0 where
  pub index : Dict ℕ
  pub low : Dict ℕ
  pub held : List String
  pub on : List String
  pub found : List (List String)
  pub work : List (String × ℕ)

-- `d[k]` of a key that is there: `index` and `low` hold every node that was entered.
abbrev pub number_of : Dict ℕ → String → ℕ
number_of d k = elim (get d k) [ none ↦ 0 | some n ↦ n ]

abbrev pub minimum : ℕ → ℕ → ℕ
minimum a b = if leb a b then a else b

abbrev pub discard : String → List String → List String
discard x = filter (λ y. not (str_eq y x))

-- `_close`: the popped entries so far are `group`.
unfoldable pub close :
    String
    → List String
    → List String
    → List String
    → Result (List String × List String × List String)
unfolding sorted
close root [] on group = raises index_error
close root (member ∷ held) on group =
    let rest = close root held (discard member on) (group ++ member ∷ []) in
    if str_eq member root then ok (sorted (group ++ member ∷ []), held, discard member on) else rest

-- `low[node] = min(low[node], n)`
abbrev pub lower : String → ℕ → Search → Search
lower node n s = record s { low = put s.low node (minimum (number_of s.low node) n) }

-- The first visit of a node: `low[node] = index[node] = len(index)`.
unfoldable pub enter : String → Search → Search
unfolding put
enter node s = record s {
  index = put s.index node (length s.index);
  low = put s.low node (length s.index);
  held = node ∷ s.held;
  on = node ∷ s.on;
}

-- The inner `while` over the consumers that are left, from position `at`: where it stops, and the
-- consumer that it enters.
unfoldable pub scan : String → ℕ → List String → Search → Search × ℕ × Option String
unfolding has put get contains
scan node at [] s = (s, at, none)
scan node at (consumer ∷ rest) s =
    let onward =
      scan node (at + 1) rest
        (if contains consumer s.on then lower node (number_of s.index consumer) s else s) in
    if has s.index consumer then onward else (s, at + 1, some consumer)

unfoldable pub drop : ℕ → List String → List String
drop zero xs = xs
drop (suc n) [] = []
drop (suc n) (x ∷ xs) = drop n xs

-- `if work: parent = work[-1][0]; low[parent] = min(low[parent], low[node])`
abbrev pub raise_parent : String → Search → Search
raise_parent node s = elim s.work [
  | [] ↦ s
  | ◌∷◌ (parent, at) below ↦ lower parent (number_of s.low node) s
]

-- After the pop of a node whose consumers are all done.
unfoldable pub finish : String → Search → Result Search
unfolding close get put
finish node s =
    if number_of s.low node == number_of s.index node
    then (do
      (group, held, on) ← close node s.held s.on []
      ok (raise_parent node (record s { held = held; on = on; found = s.found ++ group ∷ [] })))
    else ok (raise_parent node s)

-- What follows the scan: enter a consumer, or finish the node. `below` is the stack under the node.
unfoldable pub proceed : String → List (String × ℕ) → Search × ℕ × Option String → Result Search
unfolding finish
proceed node below (s, at, some consumer) =
    ok (record s { work = (consumer, 0) ∷ (node, at) ∷ below })
proceed node below (s, at, none) = finish node (record s { work = below })

-- One round of `while work`.
unfoldable pub visit : Forward → String → ℕ → List (String × ℕ) → Search → Result Search
unfolding proceed scan drop enter get
visit forward node at below s = elim (get forward node) [
  | none ↦ raises (key_error node)
  | some consumers ↦
      proceed node below (scan node at (drop at consumers) (if at == 0 then enter node s else s))
]

unfoldable pub search_from : Forward → ℕ → Search → Result Search
unfolding visit
search_from forward zero s = ok s
search_from forward (suc fuel) s = elim s.work [
  | [] ↦ ok s
  | ◌∷◌ (node, at) below ↦ (do s' ← visit forward node at below s; search_from forward fuel s')
]

-- `for root in nodes`
unfoldable pub search_roots : Forward → ℕ → List String → Search → Result Search
unfolding search_from has
search_roots forward fuel [] s = ok s
search_roots forward fuel (root ∷ roots) s =
    let from_root = (do
      s' ← search_from forward fuel (record s { work = (root, 0) ∷ [] })
      search_roots forward fuel roots s') in
    let skipped = search_roots forward fuel roots s in
    if has s.index root then skipped else from_root

abbrev pub unsearched : Search
unsearched = record { index = []; low = []; held = []; on = []; found = []; work = [] }

-- Every round enters a node or pops one, so twice the nodes is fuel enough.
unfoldable pub components : List String → Forward → Result (List (List String))
unfolding search_roots
components nodes forward = do
  s ← search_roots forward (2 * length nodes) nodes unsearched
  ok s.found
