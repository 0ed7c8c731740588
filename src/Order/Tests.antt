-- ===== src/Order/Tests.antt =====
-- Small plans, and what the walk does on them.
use nixplan.Prelude.{String, str_eq, not, ◌&&◌, arith, ◌≡◌, refl, List, [], ◌∷◌}
use nixplan.Errors.{ok}
use nixplan.Text.{str_lt}
use nixplan.Json.{Json, Fields, text, object, end, field}
use nixplan.Order.{Plan, Pair, Read, reads, edges, walk}
use nixplan.Order.Edges.{is_read, contains-edges, walk-same_keys}
use nixplan.Sorted.{text_order, pair_order, contains}

abbrev slots_of : List (String × Json) → Fields
slots_of [] = end
slots_of ((k, v) ∷ r) = field k v (slots_of r)

abbrev reads_entry : List (String × Json) → Json
reads_entry slots = object (field "reads" (object (slots_of slots)) end)

abbrev one : String → Json
one provider = object (field "entry" (text provider) end)

-- c reads b and a, b reads a, d and e read each other, and e reads c
abbrev pub plan : Plan
plan =
    ("a", object end)
    ∷ ("b", reads_entry (("up", one "a") ∷ []))
    ∷ ("c", reads_entry (("x", one "b") ∷ ("y", one "a") ∷ []))
    ∷ ("d", reads_entry (("peer", one "e") ∷ []))
    ∷ ("e", reads_entry (("peer", one "d") ∷ ("base", one "c") ∷ []))
    ∷ []

abbrev pub all_keys : List String
all_keys = "e" ∷ "c" ∷ "b" ∷ "d" ∷ "a" ∷ []

abbrev edges_of_plan : List Pair
edges_of_plan = ("a", "b") ∷ ("a", "c") ∷ ("b", "c") ∷ ("e", "d") ∷ ("c", "e") ∷ ("d", "e") ∷ []

abbrev reads_of_c : List Read
reads_of_c =
    record { providers = "b" ∷ []; paths = [] } ∷ record { providers = "a" ∷ []; paths = [] } ∷ []

edges-plan : edges plan all_keys ≡ ok edges_of_plan
unfolding edges str_lt
edges-plan = refl

walk-plan :
    walk plan all_keys
    ≡ ok (record {
      order = "a" ∷ "b" ∷ "c" ∷ "d" ∷ "e" ∷ [];
      broken = ("e", "d") ∷ [];
      cycles = ("d" ∷ "e" ∷ []) ∷ [];
    })
unfolding walk str_lt
walk-plan = refl

reads-c : reads plan "c" ≡ ok reads_of_c
unfolding reads str_lt
reads-c = refl

contains-edges_example : contains ("a", "c") edges_of_plan ≡ (
    (contains "c" all_keys && is_read reads_of_c "a")
    && (contains "a" all_keys && not (str_eq "a" "c")))
contains-edges_example =
    contains-edges plan all_keys "a" "c" reads_of_c edges_of_plan reads-c edges-plan

same_members : (k : String) → contains k ("a" ∷ "b" ∷ []) ≡ contains k ("b" ∷ "a" ∷ "b" ∷ [])
unfolding contains
same_members k = ground arith

walk-same_keys_example : walk plan ("a" ∷ "b" ∷ []) ≡ walk plan ("b" ∷ "a" ∷ "b" ∷ [])
walk-same_keys_example = walk-same_keys plan ("a" ∷ "b" ∷ []) ("b" ∷ "a" ∷ "b" ∷ []) same_members
