-- ===== src/Order/Sequence/Correct.antt =====
-- `sequence` of cli/order.py: places, and the position of one component before another.
use nixplan.Prelude.{
  ℕ, suc, ◌+◌, ◌-◌, ◌≤◌, ◌<◌, ◌≡◌, refl, true, ◌||◌, String, some, List, [], ◌∷◌, ◌++◌, length,
  flatten, arith, ==_iff, ◌==◌, Bool-cases, Option-cases, inl, inr, sym, subst, ap, ◌∙◌,
  append_assoc, append-nil,
}
use nixplan.Sorted.{nat_order, text_order, pair_order, contains}
use nixplan.Sorted.Laws.{contains-append}
use nixplan.Order.Sequence.{place, group_at, reversed_groups}
use nixplan.Order.Sequence.Topological.{Topo}

-- `p` stands in a group before the one of `c`.
pub record Precedes (p c : String) (walked : List (List String)) : Type 0 where
  pub before : List (List String)
  pub after : List (List String)
  pub split : walked ≡ before ++ after
  pub earlier : contains p (flatten before) ≡ true
  pub later : contains c (flatten after) ≡ true

-- A place is an index of a group that holds the node.
pub place-IsAt :
    (groups : List (List String)) (at i : ℕ) (node : String)
    → place at groups node ≡ some i
    → (at ≤ i) × (i < at + length groups) × (contains node (group_at groups (i - at)) ≡ true)
unfolding place group_at
place-IsAt [] at i node h = cc
place-IsAt (g ∷ gs) at i node h = elim (Option-cases (place (at + 1) gs node)) [
  | inl e ↦
      let here : at ≡ i = ground arith in
      let holds : contains node g ≡ true = ground arith in
      let none_past : i - at ≡ 0 = omega arith in (omega arith, omega arith, rw none_past holds)
  | inr (j, e) ↦
      let same : j ≡ i = ground arith in
      let (l, u, holds) = place-IsAt gs (at + 1) j node e in
      let past : i - at ≡ suc (j - (at + 1)) = omega arith in
      (omega arith, omega arith, rw past holds)
]

pub flatten-append : (xs ys : List (List String)) → flatten (xs ++ ys) ≡ flatten xs ++ flatten ys
flatten-append [] ys = refl
flatten-append (x ∷ xs) ys =
    rw (flatten-append xs ys) (sym (append_assoc x (flatten xs) (flatten ys)))

contains-flatten-append :
    (k : String) (xs ys : List (List String))
    → contains k (flatten (xs ++ ys)) ≡ (contains k (flatten xs) || contains k (flatten ys))
contains-flatten-append k xs ys = rw flatten-append (contains-append k (flatten xs) (flatten ys))

contains-flatten_one : (k : String) (g : List String) → contains k (flatten (g ∷ [])) ≡ contains k g
contains-flatten_one k g = ap (contains k) (append-nil g)

-- A walked index has its group in the order.
contains-reversed_groups :
    (groups : List (List String)) (w : List ℕ) (i : ℕ) (k : String)
    → contains i w ≡ true
    → contains k (group_at groups i) ≡ true
    → contains k (flatten (reversed_groups groups w)) ≡ true
unfolding contains
contains-reversed_groups groups [] i k h e = cc
contains-reversed_groups groups (j ∷ w) i k h e = elim (Bool-cases (j == i)) [
  | inl same ↦
      let at : j ≡ i = (==_iff j i).0 same in
      let here : contains k (group_at groups j) ≡ true =
        subst (λ z. contains k (group_at groups z) ≡ true) (sym at) e in
      ground (
        arith,
        contains-flatten-append k (reversed_groups groups w) (group_at groups j ∷ []),
        contains-flatten_one k (group_at groups j),
      )
  | inr other ↦
      let rest = contains-reversed_groups groups w i k (rw other at h) e in
      ground (arith, contains-flatten-append k (reversed_groups groups w) (group_at groups j ∷ []))
]

-- In a topological list the group of a provider stands before the group of its reader.
pub reversed_groups-Precedes :
    (groups : List (List String)) (n : ℕ) (downstream : ℕ → List ℕ) (w : List ℕ) (g r : ℕ)
    (p c : String)
    → Topo n downstream w
    → contains r w ≡ true
    → g < n
    → contains r (downstream g) ≡ true
    → contains p (group_at groups g) ≡ true
    → contains c (group_at groups r) ≡ true
    → Precedes p c (reversed_groups groups w)
unfolding contains
reversed_groups-Precedes groups n downstream [] g r p c topo h l e hp hc = absurd (ground arith)
reversed_groups-Precedes groups n downstream (i ∷ w) g r p c topo h l e hp hc =
    elim (Bool-cases (i == r)) [
      | inl same ↦
          let at : i ≡ r = (==_iff i r).0 same in
          let walked = topo.0 g l (subst (λ z. contains z (downstream g) ≡ true) (sym at) e) in
          record {
            before = reversed_groups groups w;
            after = group_at groups i ∷ [];
            split = refl;
            earlier = contains-reversed_groups groups w g p walked hp;
            later =
                contains-flatten_one c (group_at groups i)
                ∙ subst (λ z. contains c (group_at groups z) ≡ true) (sym at) hc;
          }
      | inr other ↦
          let rest =
            reversed_groups-Precedes groups n downstream w g r p c topo.1 (rw other at h) l e hp
              hc in
          record {
            before = rest.before;
            after = rest.after ++ group_at groups i ∷ [];
            split =
                ap (λ z. z ++ group_at groups i ∷ []) rest.split
                ∙ append_assoc rest.before rest.after (group_at groups i ∷ []);
            earlier = rest.earlier;
            later =
                contains-flatten-append c rest.after (group_at groups i ∷ [])
                ∙ ap (λ b. b || contains c (flatten (group_at groups i ∷ []))) rest.later;
          }
    ]
