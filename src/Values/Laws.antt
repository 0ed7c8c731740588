-- ===== src/Values/Laws.antt =====
-- cli/values.py: the values that a run answers for.
use nixplan.Prelude.{
  String, str_eq, eq_iff, ◌≡◌, refl, sym, ap, subst, ◌∙◌, Bool, true, false, not, ◌&&◌, ◌||◌,
  Option, none, some, List, [], ◌∷◌, ◌++◌, arith, any, filter, flat_map, is_empty, if◌then◌else◌,
  Bool-cases, inl, inr,
}
use nixplan.Sorted.{text_order, contains, sorted_set, IsSorted}
use nixplan.Sorted.Laws.{sorted_set-IsSorted}
use nixplan.Dict.{Dict, get, keys, sorted_items, get-sorted_items}
use nixplan.Dict.Laws.{passes, keys-sorted_items, contains-keys-filter}
use nixplan.Manifest.{Value, Deployment}
use nixplan.Values.{delivered, is_delivered, delivery_of, reach_of, reach_item, reaching}

-- A value is delivered where some machine receives it.
abbrev pub has_delivery : Option Value → Bool
has_delivery none = false
has_delivery (some value) = not (is_empty value.delivery)

keys-IsSorted : (d : Dict Value) → IsSorted (keys (sorted_items d))
keys-IsSorted d =
    let s : IsSorted (sorted_set (keys d)) = sorted_set-IsSorted (keys d) in
    subst IsSorted (sym (keys-sorted_items d)) s

passes-has_delivery :
    (key : String) (found : Option Value) → passes is_delivered key found ≡ has_delivery found
passes-has_delivery key none = refl
passes-has_delivery key (some value) = refl

-- A key is among `delivered` exactly where the manifest has a value at that key that some machine
-- receives.
contains-delivered :
    (d : Deployment) (key : String) → contains key (delivered d) ≡ has_delivery (get d.values key)
unfolding delivered
contains-delivered d key =
    contains-keys-filter is_delivered key (sorted_items d.values) (keys-IsSorted d.values)
    ∙ ap (passes is_delivered key) (get-sorted_items d.values key)
    ∙ passes-has_delivery key (get d.values key)

abbrev first_of : Option (List String) → Option (List String) → Option (List String)
first_of none other = other
first_of (some machines) other = some machines

get-reach_item :
    (found : Option (List String)) (j k : String) (rest : Dict (List String))
    → get (reach_item found j ++ rest) k
      ≡ (if str_eq j k then first_of found (get rest k) else get rest k)
unfolding get
get-reach_item none j k rest = ground arith
get-reach_item (some machines) j k rest = refl

first-same :
    (found : Option (List String)) (c : Bool) {rest : Option (List String)}
    → rest ≡ (if c then found else none)
    → first_of found rest ≡ found
first-same none true e = e
first-same none false e = e
first-same (some machines) c e = refl

first-reach :
    (f : String → Option (List String)) (j k : String) (ks : List String)
    {rest : Option (List String)}
    → rest ≡ (if contains k ks then f k else none)
    → (if str_eq j k then first_of (f j) rest else rest)
      ≡ (if str_eq j k || contains k ks then f k else none)
first-reach f j k ks {rest} e = elim (Bool-cases (str_eq j k)) [
  | inl h ↦
      let same : f j ≡ f k = ap f ((eq_iff j k).0 h) in
      let moved : first_of (f j) rest ≡ first_of (f k) rest = ap (λ x. first_of x rest) same in
      let kept : first_of (f k) rest ≡ f k = first-same (f k) (contains k ks) e in ground arith
  | inr h ↦ ground arith
]

get-reach :
    (f : String → Option (List String)) (ks : List String) (k : String)
    → get (flat_map (λ key. reach_item (f key) key) ks) k ≡ (if contains k ks then f k else none)
unfolding get contains
get-reach f [] k = refl
get-reach f (j ∷ ks) k =
    get-reach_item (f j) j k (flat_map (λ key. reach_item (f key) key) ks)
    ∙ first-reach f j k ks (get-reach f ks k)

abbrev pub machines_or_none : Option (List String) → List String
machines_or_none none = []
machines_or_none (some machines) = machines

pub contains-filter :
    (test : String → Bool) (m : String) (xs : List String)
    → contains m (filter test xs) ≡ (contains m xs && test m)
unfolding contains
contains-filter test m [] = refl
contains-filter test m (x ∷ xs) = ground (arith, contains-filter test m xs, eq_iff x m)

any-of_contains :
    (test : String → Bool) (m : String) (xs : List String)
    → contains m xs ≡ true
    → test m ≡ true
    → any test xs ≡ true
unfolding contains
any-of_contains test m [] h t = cc
any-of_contains test m (x ∷ xs) h t = ground (arith, any-of_contains test m xs, eq_iff x m)

is_empty-contains : (m : String) (xs : List String) → contains m xs ≡ true → is_empty xs ≡ false
unfolding contains
is_empty-contains m [] h = cc
is_empty-contains m (x ∷ xs) h = refl

contains-reach_of :
    (ms named : List String) (key : String) (delivery : List String) (m : String)
    → contains m (machines_or_none (reach_of ms named key delivery))
      ≡ (contains m delivery && (contains key named || contains m ms))
unfolding reach_of
contains-reach_of ms named key delivery m =
    let here : contains m (filter (λ machine. contains machine ms) delivery)
        ≡ (contains m delivery && contains m ms) =
      contains-filter (λ machine. contains machine ms) m delivery in
    let found : contains m delivery ≡ true
        → contains m ms ≡ true
        → any (λ machine. contains machine ms) delivery ≡ true =
      any-of_contains (λ machine. contains machine ms) m delivery in
    ground arith

nowhere :
    (found : Option Value) (m : String)
    → has_delivery found ≡ false
    → contains m (delivery_of found) ≡ false
unfolding contains
nowhere none m h = refl
nowhere (some value) m h = ground (arith, is_empty-contains m value.delivery)

contains-if_delivered :
    (ms named : List String) (key m : String) (found : Option Value) (c : Bool)
    → c ≡ has_delivery found
    → contains m (machines_or_none (if c then reach_of ms named key (delivery_of found) else none))
      ≡ (contains m (delivery_of found) && (contains key named || contains m ms))
unfolding contains
contains-if_delivered ms named key m found true e =
    contains-reach_of ms named key (delivery_of found) m
contains-if_delivered ms named key m found false e = ground (arith, nowhere found m (sym e))

-- Of a run that applies to the machines `ms` and names the keys `named`, `reaching` has a machine for
-- the value at `key` exactly where the value is delivered to the machine, and the value is named or
-- the machine is one of those of the run.
pub contains-reaching :
    (d : Deployment) (ms named : List String) (key m : String)
    → contains m (machines_or_none (get (reaching d ms named) key))
      ≡ (contains m (delivery_of (get d.values key)) && (contains key named || contains m ms))
unfolding reaching
contains-reaching d ms named key m =
    ap (λ found. contains m (machines_or_none found))
      (get-reach (λ k. reach_of ms named k (delivery_of (get d.values k))) (delivered d) key)
    ∙ contains-if_delivered ms named key m (get d.values key) (contains key (delivered d))
        (contains-delivered d key)
