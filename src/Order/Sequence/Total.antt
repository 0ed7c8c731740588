-- ===== src/Order/Sequence/Total.antt =====
-- `sequence` of cli/order.py where the reads among the groups run along a rank.
use nixplan.Prelude.{
  ℕ, zero, suc, ◌+◌, ◌≤◌, ◌<◌, ◌≡◌, ◌≢◌, refl, true, not, ltb, ◌&&◌, ◌||◌, String, List, [], ◌∷◌,
  length, arith, ==_iff, ◌==◌, Bool-cases, and_true, inl, inr, sym, subst, ap, ◌∙◌,
}
use nixplan.Errors.{ok, traverse, ◌>>=◌}
use nixplan.Sorted.{nat_order, pair_order, contains, count}
use nixplan.Sorted.Laws.{contains-append}
use nixplan.Order.Components.{Forward}
use nixplan.Order.Sequence.{
  Walk, Wiring, wire, wire_all, unwired, links, placed_link, wiring, outcome, finished, first_key,
  first_of_group, group_at, reversed_groups, sequence,
}
use nixplan.Order.Sequence.Counting.{
  found_below, contains-count, sum_below, sum_below-count, sum_below_congr,
}
use nixplan.Order.Sequence.Invariant.{pending, ready_count}
use nixplan.Order.Sequence.Topological.{Walked}
use nixplan.Order.Sequence.Filling.{filled}
use nixplan.Order.Sequence.Ordered.{final_walk, final-Walked, placed-InRange}

wire-from :
    (l : ℕ × ℕ) (w : Wiring) (g r : ℕ)
    → contains r ((wire w l).downstream g) ≡ true
    → (contains r (w.downstream g) || (l.0 == g && l.1 == r)) ≡ true
unfolding wire contains
wire-from (a, b) w g r h =
    ground
      (arith, contains-append r (w.downstream a) (b ∷ []), ==_iff a g, ==_iff b r, ap w.downstream)

-- A link that is wired was placed.
wire_all-from :
    (ls : List (ℕ × ℕ)) (w : Wiring) (g r : ℕ)
    → contains r ((wire_all ls w).downstream g) ≡ true
    → (contains r (w.downstream g) || contains (g, r) ls) ≡ true
unfolding wire_all contains
wire_all-from [] w g r h = ground arith
wire_all-from (l ∷ ls) w g r h =
    ground (arith, wire_all-from ls (wire w l) g r h, wire-from l w g r)

sum_below_ones : (n : ℕ) → sum_below n (λ j. 1) ≡ n
unfolding sum_below
sum_below_ones zero = refl
sum_below_ones (suc n) = omega (arith, sum_below_ones n)

module _ (n : ℕ) (downstream : ℕ → List ℕ) (s : Walk) (walk : Walked n downstream s) (rank : ℕ → ℕ)
    (ranked : (g r : ℕ) → contains r (downstream g) ≡ true → rank g < rank r) where
  -- By induction on a bound of the rank, every index is walked.
  reached : (bound j : ℕ) → rank j < bound → j < n → contains j s.walked ≡ true
  reached zero j less l = absurd (omega arith)
  reached (suc bound) j less l = elim (Bool-cases (contains j s.walked)) [
    | inl h ↦ h
    | inr h ↦
        let once = walk.inv.once j l in
        let empty : ready_count j s.ready ≡ 0 = ap (ready_count j) walk.done in
        let unwalked : count j s.walked ≡ 0 = ground (arith, contains-count j s.walked) in
        let waits : 1 ≤ pending n downstream s.walked j = ground (arith, walk.inv.waits j) in
        let (g, lg, both) =
          found_below n (λ g. contains j (downstream g) && not (contains g s.walked)) waits in
        let (link, missing) =
          and_true (contains j (downstream g)) (not (contains g s.walked)) both in
        let higher : rank g < rank j = ranked g j link in
        let there : contains g s.walked ≡ true = reached bound g (omega arith) lg in ground arith
  ]

  all_reached : length s.walked ≡ n
  all_reached =
      let every : sum_below n (λ j. count j s.walked) ≡ sum_below n (λ j. 1) =
        sum_below_congr n (λ j. count j s.walked) (λ j. 1)
          λ j l.
            let there = reached (suc (rank j)) j (omega arith) l in
            let once = walk.inv.once j l in ground (arith, contains-count j s.walked) in
      let total = sum_below-count n s.walked (λ j k. omega (arith, walk.inv.below j k)) in
      omega (arith, every, total, sum_below_ones n)

first_key-ok :
    (groups : List (List String)) (i : ℕ)
    → group_at groups i ≢ []
    → (key : String) × (first_key groups i ≡ ok key)
unfolding first_key first_of_group
first_key-ok groups i some_entry = by_group (group_at groups i) some_entry
  where
    by_group : (group : List String) → group ≢ [] → (key : String) × (first_of_group group ≡ ok key)
    by_group [] some_entry = absurd (some_entry refl)
    by_group (key ∷ rest) some_entry = (key, refl)

-- Every group that is walked has a first key.
first_keys-ok :
    (groups : List (List String)) (indices : List ℕ)
    → ((i : ℕ) → contains i indices ≡ true → group_at groups i ≢ [])
    → (firsts : List String) × (traverse (first_key groups) indices ≡ ok firsts)
unfolding traverse contains
first_keys-ok groups [] filled_with = ([], refl)
first_keys-ok groups (i ∷ indices) filled_with =
    let (key, keyed) = first_key-ok groups i (filled_with i (ground (arith, ==_iff i i))) in
    let (firsts, rest) = first_keys-ok groups indices λ j c. filled_with j (ground arith) in
    (
      key ∷ firsts,
      ap (λ t. t >>= λ k. traverse (first_key groups) indices >>= λ ks. ok (k ∷ ks)) keyed
          ∙ ap (λ t. t >>= λ ks. ok (key ∷ ks)) rest,
    )

-- What counts no index from `n` on holds only indices below `n`.
walked-below :
    (s : Walk) (n i : ℕ)
    → (n ≤ i → ready_count i s.ready + count i s.walked ≡ 0)
    → contains i s.walked ≡ true
    → i < n
walked-below s n i below c = elim (Bool-cases (ltb i n)) [
  | inl l ↦ ground arith
  | inr l ↦
      let none_there = below (ground arith) in absurd (ground (arith, contains-count i s.walked))
]

outcome-ok :
    (groups : List (List String)) (forward : Forward) (s : Walk) (firsts : List String)
    → traverse (first_key groups) s.walked ≡ ok firsts
    → length s.walked ≡ length groups
    → outcome groups forward s ≡ ok (reversed_groups groups s.walked)
unfolding outcome finished
outcome-ok groups forward s firsts keyed e =
    ap (λ t. t >>= λ ks. finished groups forward s) keyed ∙ ground arith

-- Where every component has an entry, every provider and every consumer of the graph stands in a
-- component, and some rank of the components rises along each read that joins two of them,
-- `sequence` returns an order: it neither refuses nor raises an exception.
pub sequence-ok :
    (groups : List (List String)) (forward : Forward) (placed : List (ℕ × ℕ)) (rank : ℕ → ℕ)
    → ((i : ℕ) → i < length groups → group_at groups i ≢ [])
    → traverse (placed_link groups) (links forward) ≡ ok placed
    → ((g r : ℕ) → contains (g, r) placed ≡ true → g ≢ r → rank g < rank r)
    → (walked : List (List String)) × (sequence groups forward ≡ ok walked)
unfolding sequence wiring
sequence-ok groups forward placed rank filled_with h rises =
    let w : Wiring = wire_all placed unwired in
    let s = final_walk groups w in
    let range = placed-InRange groups (links forward) placed h in
    let walk = final-Walked groups placed range in
    let full : length s.walked ≡ length groups =
      all_reached (length groups) w.downstream s walk rank λ g r c.
        let from = wire_all-from placed unwired g r c in
        let other : g ≢ r = λ e.
          let self : contains g (w.downstream g) ≡ true =
            subst (λ z. contains z (w.downstream g) ≡ true) (sym e) c in
          let none_self = (filled (length groups) placed range).wired.no_self g in
          ground (arith, contains-count g (w.downstream g)) in
        rises g r from other in
    let (firsts, keyed) =
      first_keys-ok groups s.walked
        λ i c. filled_with i (walked-below s (length groups) i (walk.inv.below i) c) in
    (
      reversed_groups groups s.walked,
      ap
            (λ t. (t >>= λ ls. ok (wire_all ls unwired)) >>= λ v.
              outcome groups forward (final_walk groups v))
            h
          ∙ outcome-ok groups forward s firsts keyed full,
    )
