-- ===== src/Order/Sequence/Once.antt =====
-- `sequence` of cli/order.py: how often an entry stands in the order.
use nixplan.Prelude.{
  ℕ, ◌+◌, ◌*◌, ◌≤◌, ◌≡◌, refl, String, List, [], ◌∷◌, ◌++◌, length, flatten, arith, ltb, ==_iff,
  if◌then◌else◌, ◌==◌, Bool-cases, inl, inr, sym, ap, ◌∙◌, append-nil,
}
use nixplan.Errors.{ok}
use nixplan.Sorted.{nat_order, text_order, count}
use nixplan.Sorted.Laws.{count-append}
use nixplan.Order.Components.{Forward}
use nixplan.Order.Sequence.{group_at, reversed_groups, wire_all, unwired, links, sequence}
use nixplan.Order.Sequence.Counting.{
  sum_below, sum_below_congr, sum_below_add, sum_below_pick, sum_below_zero, sum_below_shift,
  contains-count,
}
use nixplan.Order.Sequence.Correct.{flatten-append}
use nixplan.Order.Sequence.Ordered.{
  sequence-IsSequenced, final_walk, final-Walked, all_walked, placed-InRange,
}

sum_list : (ℕ → ℕ) → List ℕ → ℕ
sum_list f [] = 0
sum_list f (i ∷ w) = f i + sum_list f w

-- A sum over a list of indices, by how often each stands there.
sum_list-count :
    (n : ℕ) (f : ℕ → ℕ) (w : List ℕ)
    → ((j : ℕ) → n ≤ j → count j w ≡ 0)
    → sum_list f w ≡ sum_below n (λ j. count j w * f j)
unfolding sum_list count
sum_list-count n f [] h =
    sym (sum_below_zero n) ∙ sum_below_congr n (λ j. 0) (λ j. 0 * f j) (λ j l. omega arith)
sum_list-count n f (i ∷ w) h = elim (Bool-cases (ltb i n)) [
  | inl l ↦
      let rest = sum_list-count n f w (λ j k. let c = h j k in omega arith) in
      let here = sum_below_pick n i f (ground arith) in
      omega (
        arith,
        here,
        rest,
        sum_below_add n (λ j. (if i == j then 1 else 0) * f j) (λ j. count j w * f j),
        sum_below_congr n (λ j. ((if i == j then 1 else 0) + count j w) * f j)
            (λ j. (if i == j then 1 else 0) * f j + count j w * f j) (λ j k. omega arith),
      )
  | inr l ↦ absurd (
      let c : (if i == i then 1 else 0) + count i w ≡ 0 = h i (ground arith) in
      ground (arith, ==_iff i i))
]

count-group_at :
    (k : String) (groups : List (List String))
    → count k (flatten groups) ≡ sum_below (length groups) (λ i. count k (group_at groups i))
unfolding group_at sum_below count
count-group_at k [] = refl
count-group_at k (g ∷ gs) = omega (
  arith,
  count-append k g (flatten gs),
  count-group_at k gs,
  sum_below_shift (length gs) (λ i. count k (group_at (g ∷ gs) i)),
)

count-reversed_groups :
    (k : String) (groups : List (List String)) (w : List ℕ)
    → count k (flatten (reversed_groups groups w)) ≡ sum_list (λ i. count k (group_at groups i)) w
unfolding sum_list count
count-reversed_groups k groups [] = refl
count-reversed_groups k groups (i ∷ w) =
    ap (count k) (flatten-append (reversed_groups groups w) (group_at groups i ∷ []))
    ∙ count-append k (flatten (reversed_groups groups w)) (group_at groups i ++ [])
    ∙ omega (arith, count-reversed_groups k groups w, ap (count k) (append-nil (group_at groups i)))

module _ (groups : List (List String)) (forward : Forward) (walked : List (List String))
    (h : sequence groups forward ≡ ok walked) where
  walked_once :
      let seq = sequence-IsSequenced groups forward walked h in
      (j : ℕ)
      → count j (final_walk groups (wire_all seq.placed unwired)).walked
        ≡ (if ltb j (length groups) then 1 else 0)
  walked_once j =
      let seq = sequence-IsSequenced groups forward walked h in
      let range = placed-InRange groups (links forward) seq.placed seq.links_placed in
      let inv = (final-Walked groups seq.placed range).inv in
      elim (Bool-cases (ltb j (length groups))) [
        | inl l ↦
            let once = inv.once j (ground arith) in
            let there = all_walked groups seq.placed range seq.full j (ground arith) in
            ground
              (arith, contains-count j (final_walk groups (wire_all seq.placed unwired)).walked)
        | inr l ↦ let none_here = inv.below j (ground arith) in ground arith
      ]

  -- Where `sequence` returns, each entry stands in the order as often as in the components.
  pub count-sequence : (k : String) → count k (flatten walked) ≡ count k (flatten groups)
  count-sequence k =
      let seq = sequence-IsSequenced groups forward walked h in
      let w = (final_walk groups (wire_all seq.placed unwired)).walked in
      let at = (λ (i : ℕ). count k (group_at groups i)) in
      let first : count k (flatten walked) ≡ sum_list at w =
        ap (λ z. count k (flatten z)) (sym seq.groups_walked) ∙ count-reversed_groups k groups w in
      let outside : (j : ℕ) → length groups ≤ j → count j w ≡ 0 =
        λ j l. walked_once j ∙ ground arith in
      let middle = sum_list-count (length groups) at w outside in
      let all_one : sum_below (length groups) (λ j. count j w * at j)
          ≡ sum_below (length groups) at =
        sum_below_congr (length groups) (λ j. count j w * at j) at
          (λ j l. let c : count j w ≡ 1 = walked_once j ∙ ground arith in rw c (omega arith)) in
      first ∙ middle ∙ all_one ∙ sym (count-group_at k groups)
