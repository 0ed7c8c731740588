-- ===== src/Order/Sequence/Ordered.antt =====
-- `sequence` of cli/order.py: the order of a provider's component and its readers'.
use nixplan.Prelude.{
  ℕ, ◌-◌, ◌<◌, ◌≡◌, ◌≢◌, refl, true, String, List, [], ◌∷◌, length, arith, ==_iff, ◌==◌, Bool-cases,
  Option-cases, inl, inr, sym, subst, ap, ◌∙◌,
}
use nixplan.Errors.{ok, traverse, traverse-cons, traverse-nil, >>=-ok, ok-injective}
use nixplan.Sorted.{nat_order, text_order, pair_order, contains, count, sorted_set}
use nixplan.Order.Components.{Forward}
use nixplan.Order.Sequence.{
  Walk, Wiring, place, place_of, placed_link, links, group_at, reversed_groups, wiring, wire_all,
  unwired, start_walk, walk_groups, outcome, finished, first_key, stuck_below, reads_among,
  sequence,
}
use nixplan.Order.Sequence.Counting.{sum_below-count, sum_below-lt, contains-count}
use nixplan.Order.Sequence.Filling.{InRange, filled, wire_all-is_linked, start-Inv}
use nixplan.Order.Sequence.Topological.{Walked, walk-Walked}
use nixplan.Order.Sequence.Correct.{Precedes, place-IsAt, reversed_groups-Precedes}

place_of-IsAt :
    (groups : List (List String)) (node : String) (i : ℕ)
    → place_of groups node ≡ ok i
    → (i < length groups) × (contains node (group_at groups i) ≡ true)
unfolding place_of
place_of-IsAt groups node i h = elim (Option-cases (place 0 groups node)) [
  | inl e ↦ absurd (ground arith)
  | inr (j, e) ↦
      let same : j ≡ i = ground arith in
      let (l, u, holds) = place-IsAt groups 0 j node e in
      let at : i - 0 ≡ i = omega arith in
      (
        omega arith,
        subst (λ z. contains node (group_at groups z) ≡ true) (ap (λ z. z - 0) same ∙ at) holds,
      )
]

-- Both ends of a link, placed.
pub record IsPlaced (groups : List (List String)) (placed : List (ℕ × ℕ)) (p c : String)
    : Type 0 where
  pub group : ℕ
  pub reader : ℕ
  pub provider_at : place_of groups p ≡ ok group
  pub consumer_at : place_of groups c ≡ ok reader
  pub linked : contains (group, reader) placed ≡ true

placed_link-ok :
    (groups : List (List String)) (q d : String) (l : ℕ × ℕ)
    → placed_link groups (q, d) ≡ ok l
    → (place_of groups q ≡ ok l.0) × (place_of groups d ≡ ok l.1)
unfolding placed_link
placed_link-ok groups q d (g, r) h = ground arith

pub traverse-IsPlaced :
    (groups : List (List String)) (ls : List (String × String)) (placed : List (ℕ × ℕ))
    → traverse (placed_link groups) ls ≡ ok placed
    → (p c : String) → contains (p, c) ls ≡ true
    → IsPlaced groups placed p c
unfolding contains
traverse-IsPlaced groups [] placed h p c m = absurd (ground arith)
traverse-IsPlaced groups ((q, d) ∷ ls) placed h p c m =
    let (l, rest, first, tail, e) = traverse-cons (placed_link groups) (q, d) ls h in
    let (at_q, at_d) = placed_link-ok groups q d l first in
    elim (Bool-cases (pair_order.eq (q, d) (p, c))) [
      | inl same ↦
          let ends : ◌≡◌ {A = String × String} (q, d) (p, c) =
            (pair_order.eq_iff (q, d) (p, c)).0 same in
          record {
            group = l.0;
            reader = l.1;
            provider_at = subst (λ (z : String × String). place_of groups z.0 ≡ ok l.0) ends at_q;
            consumer_at = subst (λ (z : String × String). place_of groups z.1 ≡ ok l.1) ends at_d;
            linked =
                subst (λ z. contains (l.0, l.1) z ≡ true) e
                  (ground (arith, ==_iff l.0 l.0, ==_iff l.1 l.1));
          }
      | inr other ↦
          let there = traverse-IsPlaced groups ls rest tail p c (rw other at m) in
          record {
            group = there.group;
            reader = there.reader;
            provider_at = there.provider_at;
            consumer_at = there.consumer_at;
            linked =
                subst (λ z. contains (there.group, there.reader) z ≡ true) e
                  (ground (arith, there.linked));
          }
    ]

pub placed-InRange :
    (groups : List (List String)) (ls : List (String × String)) (placed : List (ℕ × ℕ))
    → traverse (placed_link groups) ls ≡ ok placed
    → InRange (length groups) placed
placed-InRange groups [] placed h =
    subst (InRange (length groups)) (traverse-nil (placed_link groups) h) tt
placed-InRange groups ((q, d) ∷ ls) placed h =
    let (l, rest, first, tail, e) = traverse-cons (placed_link groups) (q, d) ls h in
    let (at_q, at_d) = placed_link-ok groups q d l first in
    subst (InRange (length groups)) e (
      (place_of-IsAt groups q l.0 at_q).0,
      (place_of-IsAt groups d l.1 at_d).0,
      placed-InRange groups ls rest tail,
    )

abbrev pub final_walk : List (List String) → Wiring → Walk
final_walk groups w = walk_groups groups w.downstream (length groups) (start_walk groups w)

-- A walk that `sequence` returned, with the indices that it went through.
pub record IsSequenced (groups : List (List String)) (forward : Forward)
    (walked : List (List String)) : Type 0 where
  pub placed : List (ℕ × ℕ)
  pub links_placed : traverse (placed_link groups) (links forward) ≡ ok placed
  pub full : length (final_walk groups (wire_all placed unwired)).walked ≡ length groups
  pub groups_walked :
      reversed_groups groups (final_walk groups (wire_all placed unwired)).walked ≡ walked

finished-ok :
    (groups : List (List String)) (forward : Forward) (s : Walk) {walked : List (List String)}
    → finished groups forward s ≡ ok walked
    → (length s.walked ≡ length groups) × (reversed_groups groups s.walked ≡ walked)
unfolding finished
finished-ok groups forward s h = elim (Bool-cases (length s.walked == length groups)) [
  | inl y ↦ (ground (arith, ==_iff (length s.walked) (length groups)), ok-injective (rw y at h))
  | inr n ↦
      let stuck = sorted_set (stuck_below groups s.waiting (length groups)) in
      let (reads, asked, h1) = >>=-ok (reads_among stuck forward) _ (rw n at h) in cc
]

pub sequence-IsSequenced :
    (groups : List (List String)) (forward : Forward) (walked : List (List String))
    → sequence groups forward ≡ ok walked
    → IsSequenced groups forward walked
unfolding sequence wiring outcome
sequence-IsSequenced groups forward walked h =
    let (w, wired, h1) = >>=-ok (wiring groups forward) _ h in
    let (placed, links_placed, h2) =
      >>=-ok (traverse (placed_link groups) (links forward)) _ wired in
    let filled_by : wire_all placed unwired ≡ w = cc in
    let out =
      subst (λ z. outcome groups forward (final_walk groups z) ≡ ok walked) (sym filled_by) h1 in
    let s = final_walk groups (wire_all placed unwired) in
    let (firsts, keyed, h3) = >>=-ok (traverse (first_key groups) s.walked) _ out in
    let (full, walked_all) = finished-ok groups forward s h3 in
    record { placed = placed; links_placed = links_placed; full = full; groups_walked = walked_all }

module _ (groups : List (List String)) (placed : List (ℕ × ℕ))
    (range : InRange (length groups) placed) where
  abbrev pub n : ℕ
  n = length groups

  abbrev pub w : Wiring
  w = wire_all placed unwired

  pub final-Walked : Walked n w.downstream (final_walk groups w)
  unfolding start_walk
  final-Walked =
      walk-Walked groups n w.downstream (filled n placed range).wired n (start_walk groups w)
        (start_walk groups w).ready refl (start-Inv groups w (filled n placed range)) tt
        (omega arith)

  -- A full walk went through every index.
  pub all_walked :
      length (final_walk groups w).walked ≡ n
      → (j : ℕ) → j < n
      → contains j (final_walk groups w).walked ≡ true
  all_walked full j l = elim (Bool-cases (contains j (final_walk groups w).walked)) [
    | inl h ↦ h
    | inr h ↦ absurd (
        let inv = final-Walked.inv in
        let walked = (final_walk groups w).walked in
        let total = sum_below-count n walked (λ k m. omega (arith, inv.below k m)) in
        let missing : count j walked ≡ 0 = ground (arith, contains-count j walked) in
        let less =
          sum_below-lt n (λ k. count k walked) j l missing
            (λ k m. let once = inv.once k m in ground arith) in
        omega arith)
  ]

-- Where `sequence` returns, an entry stands in an earlier component than an entry that reads it,
-- unless both have one place.
pub sequence-Precedes :
    (groups : List (List String)) (forward : Forward) (walked : List (List String)) (p c : String)
    → sequence groups forward ≡ ok walked
    → contains (p, c) (links forward) ≡ true
    → place_of groups p ≢ place_of groups c
    → Precedes p c walked
sequence-Precedes groups forward walked p c h m apart =
    let seq = sequence-IsSequenced groups forward walked h in
    let range = placed-InRange groups (links forward) seq.placed seq.links_placed in
    let ends = traverse-IsPlaced groups (links forward) seq.placed seq.links_placed p c m in
    let (lg, hp) = place_of-IsAt groups p ends.group ends.provider_at in
    let (lr, hc) = place_of-IsAt groups c ends.reader ends.consumer_at in
    let linked = wire_all-is_linked seq.placed unwired (ends.group, ends.reader) ends.linked in
    let other : ends.group ≢ ends.reader =
      (λ e. apart (ends.provider_at ∙ ap ok e ∙ sym ends.consumer_at)) in
    let reads : contains ends.reader ((wire_all seq.placed unwired).downstream ends.group) ≡ true =
      ground (arith, linked, ==_iff ends.group ends.reader) in
    subst (Precedes p c) seq.groups_walked (
      reversed_groups-Precedes groups (length groups) (wire_all seq.placed unwired).downstream
        (final_walk groups (wire_all seq.placed unwired)).walked ends.group ends.reader p c
        (final-Walked groups seq.placed range).topo
        (all_walked groups seq.placed range seq.full ends.reader lr) lg reads hp hc)
