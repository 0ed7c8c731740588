-- ===== src/Order/Sequence/Invariant.antt =====
-- The invariant of the walk over the components: what an index still waits for is the providers
-- that are not walked, and an index that waits for nothing is ready or walked, once.
use nixplan.Prelude.{
  ℕ, ◌+◌, ◌-◌, ◌≤◌, ◌<◌, ◌≡◌, refl, not, ◌&&◌, String, List, [], ◌∷◌, arith, ltb, ==_iff,
  if◌then◌else◌, ◌==◌, Bool-cases, inl, inr, ap, ◌∙◌,
}
use nixplan.Sorted.{nat_order, pair_order, text_order, contains, count, push}
use nixplan.Order.Sequence.{
  Walk, make_ready, heap_key, first_of_group, group_at, release_one, release,
}
use nixplan.Order.Sequence.Counting.{
  count_below, count_below_congr, count_below_drop, contains-count,
}

-- How often an index stands in the heap.
abbrev pub ready_count : ℕ → List (String × ℕ) → ℕ
ready_count j [] = 0
ready_count j ((h, i) ∷ l) = (if i == j then 1 else 0) + ready_count j l

abbrev pub zero_flag : ℕ → ℕ
zero_flag n = if n == 0 then 1 else 0

pub ready_count-push :
    (j : ℕ) (h : String) (i : ℕ) (l : List (String × ℕ))
    → ready_count j (push (h, i) l) ≡ (if i == j then 1 else 0) + ready_count j l
unfolding push
ready_count-push j h i [] = refl
ready_count-push j h i ((k, m) ∷ l) = ground (arith, ready_count-push j h i l)

module _ (groups : List (List String)) where
  waiting-release :
      (rs : List ℕ) (s : Walk) (j : ℕ) → (release groups rs s).waiting j ≡ s.waiting j - count j rs
  unfolding release count
  waiting-release [] s j = omega arith
  waiting-release (r ∷ rs) s j = ground (arith, waiting-release rs (release_one groups r s) j)

  walked-release : (rs : List ℕ) (s : Walk) → (release groups rs s).walked ≡ s.walked
  unfolding release
  walked-release [] s = refl
  walked-release (r ∷ rs) s = walked-release rs (release_one groups r s)

  ready-release_one :
      (r : ℕ) (s : Walk) (j : ℕ)
      → (if r == j then 1 else 0) ≤ s.waiting j
      → ready_count j (release_one groups r s).ready + zero_flag (s.waiting j)
        ≡ ready_count j s.ready + zero_flag ((release_one groups r s).waiting j)
  unfolding release_one make_ready
  ready-release_one r s j h = ground (
    arith,
    ready_count-push j (heap_key (first_of_group (group_at groups r))) r s.ready,
    ==_iff r j,
  )

  -- A reader becomes ready where its count falls to nothing, and nowhere else.
  ready-release :
      (rs : List ℕ) (s : Walk) (j : ℕ)
      → count j rs ≤ s.waiting j
      → ready_count j (release groups rs s).ready + zero_flag (s.waiting j)
        ≡ ready_count j s.ready + zero_flag ((release groups rs s).waiting j)
  unfolding release count
  ready-release [] s j h = refl
  ready-release (r ∷ rs) s j h =
      let one = release_one groups r s in
      let left : one.waiting j ≡ s.waiting j - (if r == j then 1 else 0) =
        ground (arith, ==_iff r j) in
      let first = ready-release_one r s j (omega arith) in
      let rest = ready-release rs one j (omega arith) in omega arith

-- What the wiring promises: links stay below `n`, stand once, and never lead to their own group.
pub record IsWired (n : ℕ) (downstream : ℕ → List ℕ) : Type 0 where
  pub below : (g r : ℕ) → n ≤ r → count r (downstream g) ≡ 0
  pub once : (g r : ℕ) → count r (downstream g) ≤ 1
  pub no_self : (g : ℕ) → count g (downstream g) ≡ 0

-- The providers of `r` that are not walked.
abbrev pub pending : ℕ → (ℕ → List ℕ) → List ℕ → ℕ → ℕ
pending n downstream walked r =
    count_below n (λ g. contains r (downstream g) && not (contains g walked))

pub record Inv (n : ℕ) (downstream : ℕ → List ℕ) (s : Walk) : Type 0 where
  pub once : (j : ℕ) → j < n → ready_count j s.ready + count j s.walked ≡ zero_flag (s.waiting j)
  pub below : (j : ℕ) → n ≤ j → ready_count j s.ready + count j s.walked ≡ 0
  pub waits : (j : ℕ) → s.waiting j ≡ pending n downstream s.walked j

module _ (n : ℕ) (downstream : ℕ → List ℕ) (wired : IsWired n downstream) where
  -- Walking `i` takes one from what its readers wait for.
  pending-cons :
      (i : ℕ) (walked : List ℕ) (r : ℕ)
      → i < n
      → count i walked ≡ 0
      → pending n downstream walked r ≡ pending n downstream (i ∷ walked) r + count r (downstream i)
  unfolding contains
  pending-cons i walked r l fresh = elim (Bool-cases (contains r (downstream i))) [
    | inl reads ↦
        let drop =
          count_below_drop n (λ g. contains r (downstream g) && not (contains g walked))
            (λ g. contains r (downstream g) && not (contains g (i ∷ walked))) i l
            (ground (arith, contains-count i walked)) (ground (arith, ==_iff i i))
            (λ g ne. ground (arith, ==_iff i g)) in
        ground (arith, wired.once i r, contains-count r (downstream i), drop)
    | inr other ↦
        let same =
          count_below_congr n (λ g. contains r (downstream g) && not (contains g walked))
            (λ g. contains r (downstream g) && not (contains g (i ∷ walked)))
            (λ g k. ground (arith, ==_iff i g)) in
        ground (arith, contains-count r (downstream i), same)
  ]

  -- A provider that is not walked is counted.
  counted_of_pending :
      (walked : List ℕ) (i r : ℕ)
      → i < n
      → count i walked ≡ 0
      → count r (downstream i) ≤ pending n downstream walked r
  counted_of_pending walked i r l fresh = omega (arith, pending-cons i walked r l fresh)

module _ (groups : List (List String)) (n : ℕ) (downstream : ℕ → List ℕ)
    (wired : IsWired n downstream) where
  -- The round that pops `i`.
  abbrev pub popped : Walk → ℕ → List (String × ℕ) → Walk
  popped s i rest = release groups (downstream i) (record s { ready = rest; walked = i ∷ s.walked })

  -- What is ready has an index in range that is not walked yet, and waits for nothing.
  pub ready_fresh :
      (s : Walk) (h : String) (i : ℕ) (rest : List (String × ℕ))
      → Inv n downstream s
      → s.ready ≡ (h, i) ∷ rest
      → (i < n) × (count i s.walked ≡ 0) × (s.waiting i ≡ 0)
  ready_fresh s h i rest inv e =
      let head : ready_count i s.ready ≡ 1 + ready_count i rest =
        ap (ready_count i) e ∙ ground (arith, ==_iff i i) in
      elim (Bool-cases (ltb i n)) [
        | inl l ↦
            let below : i < n = ground arith in
            let once = inv.once i below in (below, ground arith, ground arith)
        | inr l ↦ absurd (let none_here = inv.below i (ground arith) in omega arith)
      ]

  -- What is ready and walked after the pop and before the release.
  counts_of_pop :
      (s : Walk) (h : String) (i : ℕ) (rest : List (String × ℕ)) (j : ℕ)
      → s.ready ≡ (h, i) ∷ rest
      → ready_count j rest + count j (i ∷ s.walked) ≡ ready_count j s.ready + count j s.walked
  unfolding count
  counts_of_pop s h i rest j e =
      let head : ready_count j s.ready ≡ (if i == j then 1 else 0) + ready_count j rest =
        ap (ready_count j) e in
      omega arith

  module _ (s : Walk) (h : String) (i : ℕ) (rest : List (String × ℕ)) (inv : Inv n downstream s)
      (e : s.ready ≡ (h, i) ∷ rest) where
    readers_wait : (j : ℕ) → count j (downstream i) ≤ s.waiting j
    readers_wait j =
        let fresh = ready_fresh s h i rest inv e in
        omega
          (arith, inv.waits j, counted_of_pending n downstream wired s.walked i j fresh.0 fresh.1)

    pub popped_once :
        (j : ℕ)
        → ready_count j (popped s i rest).ready + count j (i ∷ s.walked) + zero_flag (s.waiting j)
          ≡ ready_count j s.ready + count j s.walked + zero_flag ((popped s i rest).waiting j)
    popped_once j = omega (
      arith,
      counts_of_pop s h i rest j e,
      ready-release groups (downstream i) (record s { ready = rest; walked = i ∷ s.walked }) j
          (readers_wait j),
    )

    pub walked_popped : (popped s i rest).walked ≡ i ∷ s.walked
    walked_popped = walked-release groups (downstream i) _

    waiting_popped : (j : ℕ) → (popped s i rest).waiting j ≡ s.waiting j - count j (downstream i)
    waiting_popped j = waiting-release groups (downstream i) _ j

    -- A round keeps the invariant.
    pub popped-Inv : Inv n downstream (popped s i rest)
    popped-Inv = record {
      once = λ j l. rw walked_popped (omega (arith, popped_once j, inv.once j l));
      below = λ j l. rw walked_popped (
          let same = waiting_popped j in
          let stays : (popped s i rest).waiting j ≡ s.waiting j =
            omega (arith, wired.below i j l) in
          let flags : zero_flag ((popped s i rest).waiting j) ≡ zero_flag (s.waiting j) =
            ap zero_flag stays in
          omega (arith, popped_once j, inv.below j l));
      waits = λ j. rw walked_popped (
          let fresh = ready_fresh s h i rest inv e in
          omega (
            arith,
            waiting_popped j,
            inv.waits j,
            pending-cons n downstream wired i s.walked j fresh.0 fresh.1,
          ));
    }
