-- ===== src/Order/Sequence/Topological.antt =====
-- The loop of `sequence` of cli/order.py: what a finished walk has, and the rounds up to it.
use nixplan.Prelude.{
  ℕ, zero, suc, ◌+◌, ◌≤◌, ◌<◌, ◌≡◌, refl, true, not, ◌&&◌, String, List, [], ◌∷◌, length, arith,
  Bool-cases, inl, inr,
}
use nixplan.Sorted.{nat_order, contains, count}
use nixplan.Order.Sequence.{Walk, walk_groups}
use nixplan.Order.Sequence.Counting.{count_below_pos, sum_below-count, sum_below-lt}
use nixplan.Order.Sequence.Invariant.{IsWired, Inv, popped, ready_fresh, popped-Inv, walked_popped}

-- Each walked index has every index that leads to it behind it in the list, so before it in time.
abbrev pub Topo : ℕ → (ℕ → List ℕ) → List ℕ → Type 0
Topo n downstream [] = Unit
Topo n downstream (i ∷ walked) =
    ((g : ℕ) → g < n → contains i (downstream g) ≡ true → contains g walked ≡ true)
    × Topo n downstream walked

-- What a finished walk has.
pub record Walked (n : ℕ) (downstream : ℕ → List ℕ) (s : Walk) : Type 0 where
  pub inv : Inv n downstream s
  pub topo : Topo n downstream s.walked
  pub done : s.ready ≡ []

module _ (groups : List (List String)) (n : ℕ) (downstream : ℕ → List ℕ)
    (wired : IsWired n downstream) where
  providers_walked :
      (s : Walk) (i g : ℕ)
      → Inv n downstream s
      → s.waiting i ≡ 0
      → g < n
      → contains i (downstream g) ≡ true
      → contains g s.walked ≡ true
  providers_walked s i g inv e l reads = elim (Bool-cases (contains g s.walked)) [
    | inl h ↦ h
    | inr h ↦ absurd (
        let pos =
          count_below_pos n (λ g. contains i (downstream g) && not (contains g s.walked)) g l
            (ground arith) in
        omega (arith, inv.waits i))
  ]

  -- A full list of walked indices leaves none to be ready.
  none_ready :
      (s : Walk) (h : String) (i : ℕ) (rest : List (String × ℕ))
      → Inv n downstream s
      → s.ready ≡ (h, i) ∷ rest
      → length s.walked < n
  none_ready s h i rest inv e =
      let (l, fresh, waits) = ready_fresh groups n downstream wired s h i rest inv e in
      let total = sum_below-count n s.walked (λ j k. omega (arith, inv.below j k)) in
      let less =
        sum_below-lt n (λ j. count j s.walked) i l fresh
          (λ j k. let once = inv.once j k in ground arith) in
      omega arith

  walk_done : (fuel : ℕ) (s : Walk) → s.ready ≡ [] → walk_groups groups downstream fuel s ≡ s
  unfolding walk_groups
  walk_done zero s e = refl
  walk_done (suc fuel) s e = simp (e, walk_groups)

  walk_round :
      (fuel : ℕ) (s : Walk) (h : String) (i : ℕ) (rest : List (String × ℕ))
      → s.ready ≡ (h, i) ∷ rest
      → walk_groups groups downstream (suc fuel) s
        ≡ walk_groups groups downstream fuel (popped groups n downstream wired s i rest)
  unfolding walk_groups
  walk_round fuel s h i rest e = simp (e, walk_groups)

  pub walk-Walked :
      (fuel : ℕ) (s : Walk) (ready : List (String × ℕ))
      → s.ready ≡ ready
      → Inv n downstream s
      → Topo n downstream s.walked
      → n ≤ fuel + length s.walked
      → Walked n downstream (walk_groups groups downstream fuel s)
  walk-Walked fuel s [] e inv topo enough =
      rw (walk_done fuel s e) (record { inv = inv; topo = topo; done = e })
  walk-Walked zero s ((h, i) ∷ rest) e inv topo enough =
      absurd (omega (arith, none_ready s h i rest inv e))
  walk-Walked (suc fuel) s ((h, i) ∷ rest) e inv topo enough =
      let s' = popped groups n downstream wired s i rest in
      let later = walked_popped groups n downstream wired s h i rest inv e in
      let waits = (ready_fresh groups n downstream wired s h i rest inv e).2 in
      rw (walk_round fuel s h i rest e) (
        walk-Walked fuel s' s'.ready refl (popped-Inv groups n downstream wired s h i rest inv e)
          (rw later (λ g l reads. providers_walked s i g inv waits l reads, topo))
          (rw later (omega arith)))
