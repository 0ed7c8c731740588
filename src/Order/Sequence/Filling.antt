-- ===== src/Order/Sequence/Filling.antt =====
-- `downstream` and `waiting` of `sequence` in cli/order.py when they are filled, and the first heap.
use nixplan.Prelude.{
  ℕ, zero, suc, ◌+◌, ◌<◌, ◌≡◌, ◌≢◌, refl, Bool, true, false, ◌||◌, String, List, [], ◌∷◌, ◌++◌,
  length, arith, ltb, ==_iff, if◌then◌else◌, ◌==◌, Bool-cases, inl, inr, sym, subst, ap, ◌∙◌,
}
use nixplan.Sorted.{nat_order, pair_order, contains, count}
use nixplan.Order.Sequence.{
  Wiring, wire, wire_all, unwired, update, ready_below, start_walk, make_ready, group_at, heap_key,
  first_of_group,
}
use nixplan.Order.Sequence.Counting.{
  count_below, count_below_congr, count_below_drop, contains-count,
}
use nixplan.Order.Sequence.Invariant.{IsWired, Inv, zero_flag, ready_count, ready_count-push}

pub record IsFilled (n : ℕ) (w : Wiring) : Type 0 where
  pub wired : IsWired n w.downstream
  pub waits : (j : ℕ) → w.waiting j ≡ count_below n (λ g. contains j (w.downstream g))

pub contains-append :
    (x : ℕ) (xs : List ℕ) (y : ℕ) → contains x (xs ++ y ∷ []) ≡ (contains x xs || y == x)
unfolding contains
contains-append x [] y = ground arith
contains-append x (z ∷ xs) y = ground (arith, contains-append x xs y)

count-append :
    (x : ℕ) (xs : List ℕ) (y : ℕ) → count x (xs ++ y ∷ []) ≡ count x xs + (if y == x then 1 else 0)
unfolding count
count-append x [] y = ground arith
count-append x (z ∷ xs) y = ground (arith, count-append x xs y)

module _ (n : ℕ) (w : Wiring) (group reader : ℕ) (f : IsFilled n w) (lg : group < n)
    (lr : reader < n) where
  abbrev wired_on : ℕ → List ℕ
  wired_on = update w.downstream group (w.downstream group ++ reader ∷ [])

  -- The new link adds one to what its reader waits for, and nothing to the others.
  waits-new :
      (j : ℕ)
      → contains reader (w.downstream group) ≡ false
      → count_below n (λ g. contains j (wired_on g))
        ≡ count_below n (λ g. contains j (w.downstream g)) + (if reader == j then 1 else 0)
  waits-new j fresh = elim (Bool-cases (reader == j)) [
    | inl e ↦
        let at : reader ≡ j = (==_iff reader j).0 e in
        let old : contains j (w.downstream group) ≡ false =
          subst (λ z. contains z (w.downstream group) ≡ false) at fresh in
        let drop =
          count_below_drop n (λ g. contains j (wired_on g)) (λ g. contains j (w.downstream g)) group
            lg (ground (arith, ==_iff group group, contains-append j (w.downstream group) reader))
            old (λ g ne. ground (arith, ==_iff group g)) in
        ground arith
    | inr e ↦
        let same =
          count_below_congr n (λ g. contains j (wired_on g)) (λ g. contains j (w.downstream g))
            (λ g l.
              ground (arith, ==_iff group g, contains-append j (w.downstream group) reader)) in
        ground arith
  ]

  new-IsFilled :
      group ≢ reader
      → contains reader (w.downstream group) ≡ false
      → IsFilled n (record {
        downstream = wired_on;
        waiting = update w.waiting reader (w.waiting reader + 1);
      })
  new-IsFilled apart fresh = record {
    wired = record {
      below = λ g r l. ground (
        arith,
        ==_iff group g,
        f.wired.below g r l,
        count-append r (w.downstream group) reader,
        ==_iff reader r,
      );
      once = λ g r. ground (
        arith,
        ==_iff group g,
        f.wired.once g r,
        count-append r (w.downstream group) reader,
        ==_iff reader r,
        contains-count reader (w.downstream group),
      );
      no_self = λ g. ground (
        arith,
        ==_iff group g,
        f.wired.no_self g,
        count-append g (w.downstream group) reader,
        ==_iff reader g,
      );
    };
    waits = λ j. ground (arith, waits-new j fresh, f.waits j, ==_iff reader j);
  }

  wire-IsFilled : IsFilled n (wire w (group, reader))
  unfolding wire
  wire-IsFilled = elim (Bool-cases (group == reader)) [
    | inl e ↦ rw e f
    | inr e ↦ elim (Bool-cases (contains reader (w.downstream group))) [
      | inl h ↦ rw (e, h) f
      | inr h ↦ rw (e, h) (new-IsFilled (λ c. ground (arith, ==_iff group reader)) h)
    ]
  ]

-- Both ends of every link are indices.
abbrev pub InRange : ℕ → List (ℕ × ℕ) → Type 0
InRange n [] = Unit
InRange n ((g, r) ∷ ls) = (g < n) × (r < n) × InRange n ls

wire_all-IsFilled :
    (n : ℕ) (ls : List (ℕ × ℕ)) (w : Wiring)
    → InRange n ls
    → IsFilled n w
    → IsFilled n (wire_all ls w)
unfolding wire_all
wire_all-IsFilled n [] w b f = f
wire_all-IsFilled n ((g, r) ∷ ls) w b f =
    wire_all-IsFilled n ls (wire w (g, r)) b.2 (wire-IsFilled n w g r f b.0 b.1)

count_below_none : (n : ℕ) → count_below n (λ g. false) ≡ 0
unfolding count_below
count_below_none zero = refl
count_below_none (suc n) = omega (arith, count_below_none n)

pub filled : (n : ℕ) (ls : List (ℕ × ℕ)) → InRange n ls → IsFilled n (wire_all ls unwired)
unfolding contains count
filled n ls b = wire_all-IsFilled n ls unwired b (record {
  wired = record { below = λ g r l. refl; once = λ g r. omega arith; no_self = λ g. refl };
  waits = λ j. sym (count_below_none n);
})

-- The link `l` is wired, or joins a group with itself.
abbrev pub is_linked : Wiring → ℕ × ℕ → Bool
is_linked w (g, r) = g == r || contains r (w.downstream g)

wire-is_linked : (w : Wiring) (l : ℕ × ℕ) → is_linked (wire w l) l ≡ true
unfolding wire contains
wire-is_linked w (g, r) =
    ground (arith, contains-append r (w.downstream g) r, ==_iff g g, ==_iff r r)

wire_keeps : (w : Wiring) (l m : ℕ × ℕ) → is_linked w m ≡ true → is_linked (wire w l) m ≡ true
unfolding wire
wire_keeps w (g, r) (h, q) e = ground (arith, contains-append q (w.downstream g) r, ==_iff g h)

wire_all_keeps :
    (ls : List (ℕ × ℕ)) (w : Wiring) (m : ℕ × ℕ)
    → is_linked w m ≡ true
    → is_linked (wire_all ls w) m ≡ true
unfolding wire_all
wire_all_keeps [] w m e = e
wire_all_keeps (l ∷ ls) w m e = wire_all_keeps ls (wire w l) m (wire_keeps w l m e)

-- Every link is wired in the end.
pub wire_all-is_linked :
    (ls : List (ℕ × ℕ)) (w : Wiring) (m : ℕ × ℕ)
    → contains m ls ≡ true
    → is_linked (wire_all ls w) m ≡ true
unfolding wire_all contains
wire_all-is_linked [] w m h = cc
wire_all-is_linked (l ∷ ls) w m h = elim (Bool-cases (pair_order.eq l m)) [
  | inl e ↦
      let same : l ≡ m = (pair_order.eq_iff l m).0 e in
      wire_all_keeps ls (wire w l) m
        (subst (λ z. is_linked (wire w l) z ≡ true) same (wire-is_linked w l))
  | inr e ↦ wire_all-is_linked ls (wire w l) m (rw e at h)
]

-- The heap at the start holds the indices that wait for nothing.
ready_count-ready_below :
    (groups : List (List String)) (waiting : ℕ → ℕ) (n j : ℕ)
    → ready_count j (ready_below groups waiting n) ≡ (if ltb j n then zero_flag (waiting j) else 0)
unfolding ready_below make_ready
ready_count-ready_below groups waiting zero j = ground arith
ready_count-ready_below groups waiting (suc n) j = elim (Bool-cases (n == j)) [
  | inl e ↦
      let at : n ≡ j = (==_iff n j).0 e in
      let rest = ready_count-ready_below groups waiting n j in
      let same : waiting n ≡ waiting j = ap waiting at in
      ground (
        arith,
        ready_count-push j (heap_key (first_of_group (group_at groups n))) n
            (ready_below groups waiting n),
      )
  | inr e ↦
      let rest = ready_count-ready_below groups waiting n j in
      let apart : n ≢ j = (λ c. ground (arith, ==_iff n j)) in
      ground (
        arith,
        ready_count-push j (heap_key (first_of_group (group_at groups n))) n
            (ready_below groups waiting n),
      )
]

pub start-Inv :
    (groups : List (List String)) (w : Wiring)
    → IsFilled (length groups) w
    → Inv (length groups) w.downstream (start_walk groups w)
unfolding start_walk count contains
start-Inv groups w f = record {
  once = λ j l. ground (arith, ready_count-ready_below groups w.waiting (length groups) j);
  below = λ j l. ground (arith, ready_count-ready_below groups w.waiting (length groups) j);
  waits = λ j. f.waits j ∙ count_below_congr (length groups) _ _ (λ g l. ground arith);
}
