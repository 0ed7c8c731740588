-- ===== src/Order.antt =====
-- cli/order.py: the reads that the plan records, the edges that they imply, and the order that
-- entries are applied in. `Order/Components` has Tarjan's algorithm and `Order/Sequence` the walk
-- over the components; the proofs stand in the other children.
pub mod Components
pub mod Sequence
pub mod Edges
pub mod Tests
use nixplan.Prelude.{
  ℕ, String, str_eq, Bool, true, false, not, ◌&&◌, Option, none, some, List, [], ◌∷◌, ◌++◌, map,
  filter, flat_map, flatten, length, ltb, ◌+◌, if◌then◌else◌,
}
use nixplan.Errors.{Result, ok, refuse, unrecognised_read, traverse, traverse_flat, ◌>>=◌}
use nixplan.Sorted.{text_order, pair_order, nat_order, contains, sorted, sorted_set}
use nixplan.Dict.{Dict, get, keys, values, sorted_items}
use nixplan.Json.{Json, as_dict, as_text, truthy}
use Components.{Forward, components}
use Sequence.{sequence}

-- `plan.json`, decoded: one record per plan key.
abbrev pub Plan : Type 0
Plan = Dict Json

pub record Read : Type 0 where
  pub providers : List String
  pub paths : List String

-- The path that one exported value carries, if it is a record with one.
abbrev path_of : Json → List String
path_of exported = elim (as_dict (some exported)) [
  | none ↦ []
  | some record_of ↦ elim (as_text (get record_of "path")) [ none ↦ [] | some path ↦ path ∷ [] ]
]

unfoldable pub paths : Option Json → List String
unfolding get
paths exports = elim (as_dict exports) [
  | none ↦ []
  | some values_of ↦ flat_map path_of (values values_of)
]

-- `_read`: the two shapes of a delivered read, and the record of one that was not delivered.
read_record : Dict Json → String → String → Result Read
unfolding get paths sorted_set
read_record slot consumer name = elim (as_text (get slot "entry")) [
  | some one ↦ ok (record { providers = one ∷ []; paths = paths (get slot "values") })
  | none ↦ elim (as_dict (get slot "entries")) [
    | some every ↦ ok (record {
      providers = sorted_set (keys every);
      paths = flat_map (λ exports. paths (some exports)) (values every);
    })
    | none ↦
        if truthy (get slot "delivered")
        then refuse (unrecognised_read consumer name)
        else ok (record { providers = []; paths = [] })
  ]
]

unfoldable pub read : Json → String → String → Result Read
unfolding read_record
read slot consumer name = elim (as_dict (some slot)) [
  | some recorded ↦ read_record recorded consumer name
  | none ↦ refuse (unrecognised_read consumer name)
]

-- The resolved reads that the plan records for one entry, by slot.
unfoldable pub recorded : Plan → String → Dict Json
unfolding get
recorded plan consumer = elim (as_dict (get plan consumer)) [
  | none ↦ []
  | some entry ↦ elim (as_dict (get entry "reads")) [ none ↦ [] | some slots ↦ slots ]
]

abbrev read_slot : String → String × Json → Result Read
read_slot consumer (name, slot) = read slot consumer name

unfoldable pub reads : Plan → String → Result (List Read)
unfolding recorded read sorted_items traverse
reads plan consumer = traverse (read_slot consumer) (sorted_items (recorded plan consumer))

-- An edge is (consumer, provider) in `_reading`, and (provider, consumer) in `edges`.
abbrev pub Pair : Type 0
Pair = String × String

abbrev pub flip : Pair → Pair
flip (a, b) = (b, a)

abbrev pub providers_of : String → List Read → List Pair
providers_of consumer rs = flat_map (λ (r : Read). map (λ p. (consumer, p)) r.providers) rs

unfoldable pub reading_of : Plan → String → Result (List Pair)
unfolding reads
reading_of plan consumer = do rs ← reads plan consumer; ok (providers_of consumer rs)

unfoldable pub reading : Plan → List String → Result (List Pair)
unfolding reading_of sorted_set traverse_flat
reading plan consumers = traverse_flat (reading_of plan) (sorted_set consumers)

-- `edges`: provider first, sorted by consumer and then by provider.
abbrev pub is_edge : List String → Pair → Bool
is_edge placed (consumer, provider) = contains provider placed && not (str_eq provider consumer)

unfoldable pub edges : Plan → List String → Result (List Pair)
unfolding reading contains
edges plan keys = do
  found ← reading plan keys
  ok (map flip (sorted_set (filter (is_edge keys) found)))

-- `unsatisfied`: the reads of `keys` whose provider is placed and left out, consumer first.
abbrev is_withheld : List String → List String → Pair → Bool
is_withheld keys placed (consumer, provider) =
    contains provider placed && not (contains provider keys)

unfoldable pub unsatisfied : Plan → List String → List String → Result (List Pair)
unfolding reading contains
unsatisfied plan keys placed = do
  found ← reading plan keys
  ok (sorted_set (filter (is_withheld keys placed) found))

-- `forward`: the consumers of each node, in the order of the edges.
abbrev consumers_among : List Pair → String → List String
consumers_among es node = map (λ (e : Pair). e.1) (filter (λ (e : Pair). str_eq e.0 node) es)

unfoldable pub forward_of : List String → List Pair → Forward
forward_of nodes es = map (λ node. (node, consumers_among es node)) nodes

pub record WalkResult : Type 0 where
  pub order : List String
  pub broken : List Pair
  pub cycles : List (List String)

-- `at`: the position of an entry in the order.
unfoldable pub position : String → List String → ℕ
position node [] = 0
position node (x ∷ xs) = let rest = position node xs in if str_eq x node then 0 else rest + 1

abbrev is_broken : List String → Pair → Bool
is_broken order (provider, consumer) = ltb (position consumer order) (position provider order)

-- `broken` sorts by the consumer's position and then by the provider.
abbrev keyed : List String → Pair → ℕ × Pair
keyed order (provider, consumer) = (position consumer order, (provider, consumer))

unfoldable pub result_of : List (List String) → List Pair → WalkResult
unfolding position sorted
result_of applied es =
    let order = flatten applied in
    record {
      order = order;
      broken =
          map (λ (k : ℕ × Pair). k.1) (sorted (map (keyed order) (filter (is_broken order) es)));
      cycles = filter (λ group. ltb 1 (length group)) applied;
    }

-- `walk`
unfoldable pub walk : Plan → List String → Result WalkResult
unfolding edges sorted_set forward_of components sequence result_of
walk plan keys = do
  es ← edges plan (sorted_set keys)
  groups ← components (sorted_set keys) (forward_of (sorted_set keys) es)
  applied ← sequence groups (forward_of (sorted_set keys) es)
  ok (result_of applied es)
