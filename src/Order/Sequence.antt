-- ===== src/Order/Sequence.antt =====
-- `sequence` and `_unordered` of cli/order.py: Kahn's walk over the components, with a heap by the
-- first plan key of each. An array over the components is a function of the index, and the heap
-- is its sorted list.
pub mod Counting
pub mod Invariant
pub mod Once
pub mod Ordered
pub mod Correct
pub mod Filling
pub mod Topological
pub mod Total
pub mod Tests
use nixplan.Prelude.{
  ℕ, zero, suc, ◌+◌, ◌-◌, String, str_eq, Bool, true, false, not, ◌&&◌, Option, none, some, List,
  [], ◌∷◌, ◌++◌, map, length, filter, if◌then◌else◌, ◌==◌,
}
use nixplan.Errors.{
  Result, ok, raises, refuse, key_error, index_error, unordered, traverse, traverse_flat, ◌>>=◌,
}
use nixplan.Sorted.{text_order, nat_order, pair_order, contains, push, sorted, sorted_set}
use nixplan.Dict.{Dict, get}
use nixplan.Order.Components.{Forward}

-- `components[index]`
unfoldable pub group_at : List (List String) → ℕ → List String
group_at [] i = []
group_at (g ∷ gs) zero = g
group_at (g ∷ gs) (suc i) = group_at gs i

-- `place[node]`: a node of two groups has the place of the last one.
unfoldable pub place : ℕ → List (List String) → String → Option ℕ
unfolding contains
place at [] node = none
place at (group ∷ groups) node = elim (place (at + 1) groups node) [
  | some i ↦ some i
  | none ↦ if contains node group then some at else none
]

unfoldable pub place_of : List (List String) → String → Result ℕ
unfolding place
place_of groups node = elim (place 0 groups node) [ none ↦ raises (key_error node) | some i ↦ ok i ]

-- `for provider, consumers in forward.items(): for consumer in consumers`
unfoldable pub links : Forward → List (String × String)
links [] = []
links ((provider, consumers) ∷ rest) = map (λ c. (provider, c)) consumers ++ links rest

unfoldable pub placed_link : List (List String) → String × String → Result (ℕ × ℕ)
unfolding place_of
placed_link groups (provider, consumer) = do
  group ← place_of groups provider
  reader ← place_of groups consumer
  ok (group, reader)

abbrev pub update {ℓ} : {A : Type ℓ} → (ℕ → A) → ℕ → A → ℕ → A
update f i v j = if i == j then v else f j

-- `downstream` and `waiting` while they are filled.
pub record Wiring : Type 0 where
  pub downstream : ℕ → List ℕ
  pub waiting : ℕ → ℕ

unfoldable pub wire : Wiring → ℕ × ℕ → Wiring
unfolding contains
wire w (group, reader) =
    if not (group == reader) && not (contains reader (w.downstream group))
    then record {
      downstream = update w.downstream group (w.downstream group ++ reader ∷ []);
      waiting = update w.waiting reader (w.waiting reader + 1);
    }
    else w

unfoldable pub wire_all : List (ℕ × ℕ) → Wiring → Wiring
unfolding wire
wire_all [] w = w
wire_all (l ∷ ls) w = wire_all ls (wire w l)

abbrev pub unwired : Wiring
unwired = record { downstream = λ i. []; waiting = λ i. 0 }

-- `group[0]`
unfoldable pub first_of_group : List String → Result String
first_of_group [] = raises index_error
first_of_group (x ∷ xs) = ok x

-- The key that a group has in the heap. A group without an entry has none: `outcome` raises for it.
abbrev pub heap_key : Result String → String
heap_key (raises e) = ""
heap_key (ok key) = key

pub record Walk : Type 0 where
  pub waiting : ℕ → ℕ
  pub ready : List (String × ℕ)
  -- the indices walked so far, the last one first
  pub walked : List ℕ

-- `heapq.heappush(ready, (components[i][0], i))`
unfoldable pub make_ready : List (List String) → ℕ → List (String × ℕ) → List (String × ℕ)
unfolding push first_of_group group_at
make_ready groups i ready = push (heap_key (first_of_group (group_at groups i)), i) ready

-- The heap of the indices below `n` that wait for nothing.
unfoldable pub ready_below : List (List String) → (ℕ → ℕ) → ℕ → List (String × ℕ)
unfolding make_ready
ready_below groups waiting zero = []
ready_below groups waiting (suc n) =
    let rest = ready_below groups waiting n in
    if waiting n == 0 then make_ready groups n rest else rest

-- `waiting[reader] -= 1`, and the push of a reader that waits for nothing more.
unfoldable pub release_one : List (List String) → ℕ → Walk → Walk
unfolding make_ready
release_one groups reader s =
    let left = s.waiting reader - 1 in
    record s {
      waiting = update s.waiting reader left;
      ready = if left == 0 then make_ready groups reader s.ready else s.ready;
    }

-- `for reader in downstream[index]`
unfoldable pub release : List (List String) → List ℕ → Walk → Walk
unfolding release_one
release groups [] s = s
release groups (reader ∷ readers) s = release groups readers (release_one groups reader s)

-- `while ready`, a round for each group at most.
unfoldable pub walk_groups : List (List String) → (ℕ → List ℕ) → ℕ → Walk → Walk
unfolding release
walk_groups groups downstream zero s = s
walk_groups groups downstream (suc fuel) s = elim s.ready [
  | [] ↦ s
  | ◌∷◌ (name, i) rest ↦
      walk_groups groups downstream fuel
        (release groups (downstream i) (record s { ready = rest; walked = i ∷ s.walked }))
]

-- `_unordered`: the entries of the groups that still wait, and the reads among them.
unfoldable pub stuck_below : List (List String) → (ℕ → ℕ) → ℕ → List String
unfolding group_at
stuck_below groups waiting zero = []
stuck_below groups waiting (suc n) =
    stuck_below groups waiting n ++ (if waiting n == 0 then [] else group_at groups n)

-- `forward[provider]`
unfoldable pub consumers_of : Forward → String → Result (List String)
unfolding get
consumers_of forward provider = elim (get forward provider) [
  | none ↦ raises (key_error provider)
  | some cs ↦ ok cs
]

unfoldable pub reads_from : List String → Forward → String → Result (List (String × String))
unfolding consumers_of contains
reads_from stuck forward provider = do
  consumers ← consumers_of forward provider
  ok (map (λ c. (c, provider)) (filter (λ c. contains c stuck) consumers))

unfoldable pub reads_among : List String → Forward → Result (List (String × String))
unfolding reads_from traverse_flat
reads_among stuck forward = traverse_flat (reads_from stuck forward) stuck

unfoldable pub wiring : List (List String) → Forward → Result Wiring
unfolding placed_link links wire_all traverse
wiring groups forward = do
  placed ← traverse (placed_link groups) (links forward)
  ok (wire_all placed unwired)

unfoldable pub start_walk : List (List String) → Wiring → Walk
unfolding ready_below
start_walk groups w = record {
  waiting = w.waiting;
  ready = ready_below groups w.waiting (length groups);
  walked = [];
}

abbrev pub reversed_groups : List (List String) → List ℕ → List (List String)
reversed_groups groups [] = []
reversed_groups groups (i ∷ is) = reversed_groups groups is ++ group_at groups i ∷ []

-- The groups in the order that they were walked, or the refusal that names the stuck entries. Its
-- message prints the reads in the order of their texts; here they are in the order of the pairs.
unfoldable pub finished : List (List String) → Forward → Walk → Result (List (List String))
unfolding stuck_below reads_among sorted_set sorted group_at
finished groups forward s =
    if length s.walked == length groups
    then ok (reversed_groups groups s.walked)
    else (let stuck = sorted_set (stuck_below groups s.waiting (length groups)) in
        do reads ← reads_among stuck forward; refuse (unordered stuck (sorted reads)))

-- `components[index][0]` of a group that got ready
unfoldable pub first_key : List (List String) → ℕ → Result String
unfolding first_of_group group_at
first_key groups i = first_of_group (group_at groups i)

-- The groups that got ready are the ones that were walked, since the heap is empty at the end. The
-- first of them that has no entry stopped the run as it was made ready.
unfoldable pub outcome : List (List String) → Forward → Walk → Result (List (List String))
unfolding first_key finished traverse
outcome groups forward s = do
  firsts ← traverse (first_key groups) s.walked
  finished groups forward s

unfoldable pub sequence : List (List String) → Forward → Result (List (List String))
unfolding wiring start_walk walk_groups outcome
sequence groups forward = do
  w ← wiring groups forward
  outcome groups forward (walk_groups groups w.downstream (length groups) (start_walk groups w))
