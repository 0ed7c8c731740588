-- ===== src/View/Graph/Reads.antt =====
-- view/graph.py: the reads of the placed entries, each slot on its own.
use nixplan.Prelude.{
  String, str_eq, not, Option, none, some, List, [], ◌∷◌, ◌++◌, map, filter, if◌then◌else◌,
}
use nixplan.Errors.{Exception, refused, index_error, Result, ok, raises, ◌>>=◌}
use nixplan.Sorted.{text_order, pair_order, contains, sorted_set}
use nixplan.Dict.{Dict, get, put, keys, sorted_items}
use nixplan.Json.{Json, Fields, object, field, end, as_dict}
use nixplan.Order.{Plan, Read, Pair, recorded, reads}
use nixplan.Manifest.{ValueFile, Value, Deployment}

pub record Slot : Type 0 where
  pub consumer : String
  pub slot : String
  pub read : Read

-- What the reading said is kept as what it raised.
pub record Unrecognised : Type 0 where
  pub consumer : String
  pub slot : String
  pub said : Exception

pub record Reading : Type 0 where
  pub slots : List Slot
  pub unrecognised : List Unrecognised

-- A plan of one consumer with one slot.
abbrev one_slot : String → String → Json → Plan
one_slot consumer name slot =
    (consumer, object (field "reads" (object (field name slot end)) end)) ∷ []

abbrev or_unrecognised : String → String → Result (List Read) → Result Reading
or_unrecognised consumer name (ok []) = raises index_error
or_unrecognised consumer name (ok (r ∷ rs)) = ok (record {
  slots = record { consumer = consumer; slot = name; read = r } ∷ [];
  unrecognised = [];
})
or_unrecognised consumer name (raises (refused e)) = ok (record {
  slots = [];
  unrecognised = record { consumer = consumer; slot = name; said = refused e } ∷ [];
})
or_unrecognised consumer name (raises x) = raises x

abbrev both : Reading → Reading → Reading
both a b = record { slots = a.slots ++ b.slots; unrecognised = a.unrecognised ++ b.unrecognised }

unfoldable pub read_slots : String → Dict Json → Result Reading
unfolding reads
read_slots consumer [] = ok (record { slots = []; unrecognised = [] })
read_slots consumer ((name, slot) ∷ rest) = do
  first ← or_unrecognised consumer name (reads (one_slot consumer name slot) consumer)
  others ← read_slots consumer rest
  ok (both first others)

unfoldable pub read_consumers : Plan → List String → Result Reading
unfolding read_slots recorded sorted_items
read_consumers plan [] = ok (record { slots = []; unrecognised = [] })
read_consumers plan (consumer ∷ consumers) = do
  first ← read_slots consumer (sorted_items (recorded plan consumer))
  others ← read_consumers plan consumers
  ok (both first others)

unfoldable pub reading : Deployment → Result Reading
unfolding read_consumers sorted_set
reading d = read_consumers d.plan (sorted_set (keys d.entries))

-- `_projected`: the slots of a consumer that no shape recognised, left out of the plan
abbrev fields_of : Dict Json → Fields
fields_of [] = end
fields_of ((k, v) ∷ d) = field k v (fields_of d)

abbrev slots_dropped : String → List Unrecognised → List String
slots_dropped consumer [] = []
slots_dropped consumer (u ∷ us) =
    if str_eq u.consumer consumer
    then u.slot ∷ slots_dropped consumer us
    else slots_dropped consumer us

abbrev kept_reads : List String → Dict Json → Dict Json
kept_reads dropped slots = filter (λ (s : String × Json). not (contains s.0 dropped)) slots

unfoldable pub without_slots : Plan → String → List String → Plan
unfolding get put recorded contains
without_slots plan consumer dropped = elim (as_dict (get plan consumer)) [
  | none ↦ plan
  | some entry ↦ put plan consumer (
      object (
        fields_of
          (put entry "reads" (object (fields_of (kept_reads dropped (recorded plan consumer)))))))
]

unfoldable pub project : List Unrecognised → List String → Plan → Plan
unfolding without_slots
project us [] plan = plan
project us (consumer ∷ consumers) plan =
    project us consumers (without_slots plan consumer (slots_dropped consumer us))

unfoldable pub projected : Deployment → Reading → Plan
unfolding project sorted_set
projected d read =
    project read.unrecognised
      (sorted_set (map (λ (u : Unrecognised). u.consumer) read.unrecognised)) d.plan

-- `_readers`: the value that each path belongs to, and who reads it
abbrev owning_files : Dict String → String → List ValueFile → Dict String
owning_files owning key [] = owning
owning_files owning key (f ∷ fs) = owning_files (put owning f.path key) key fs

unfoldable pub owning_of : Dict String → Dict Value → Dict String
unfolding put
owning_of owning [] = owning
owning_of owning ((key, v) ∷ rest) = owning_of (owning_files owning key v.files) rest

abbrev add_reader : Dict (List Pair) → Pair → Option String → Dict (List Pair)
add_reader found reader none = found
add_reader found reader (some key) = elim (get found key) [
  | none ↦ put found key (reader ∷ [])
  | some rs ↦ put found key (rs ++ reader ∷ [])
]

unfoldable pub add_paths : Dict String → Pair → Dict (List Pair) → List String → Dict (List Pair)
unfolding get put
add_paths owning reader found [] = found
add_paths owning reader found (path ∷ paths) =
    add_paths owning reader (add_reader found reader (get owning path)) paths

unfoldable pub add_slots : Dict String → Dict (List Pair) → List Slot → Dict (List Pair)
unfolding add_paths
add_slots owning found [] = found
add_slots owning found (s ∷ ss) =
    add_slots owning (add_paths owning (s.consumer, s.slot) found (s.read).paths) ss

abbrev sorted_readers : Dict (List Pair) → Dict (List Pair)
sorted_readers [] = []
sorted_readers ((key, ps) ∷ rest) = (key, sorted_set ps) ∷ sorted_readers rest

unfoldable pub readers : Deployment → Reading → Dict (List Pair)
unfolding owning_of add_slots sorted_set
readers d read = sorted_readers (add_slots (owning_of [] d.values) [] read.slots)
