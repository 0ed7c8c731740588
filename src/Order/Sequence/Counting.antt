-- ===== src/Order/Sequence/Counting.antt =====
-- Counting over the indices below a bound, for the proofs about the walk over the components.
use nixplan.Prelude.{
  ℕ, zero, suc, ◌+◌, ◌*◌, ◌≤◌, ◌<◌, ◌≡◌, ◌≢◌, refl, Bool, true, false, List, [], ◌∷◌, length, arith,
  ltb, ==_iff, if◌then◌else◌, ◌==◌, Bool-cases, inl, inr, sym, subst, ap, ◌∙◌,
}
use nixplan.Sorted.{nat_order, contains, count}

-- How many indices below `n` pass a test.
unfoldable pub count_below : ℕ → (ℕ → Bool) → ℕ
count_below zero p = 0
count_below (suc n) p = (if p n then 1 else 0) + count_below n p

unfoldable pub sum_below : ℕ → (ℕ → ℕ) → ℕ
sum_below zero f = 0
sum_below (suc n) f = f n + sum_below n f

pub count_below_congr :
    (n : ℕ) (p q : ℕ → Bool) → ((g : ℕ) → g < n → p g ≡ q g) → count_below n p ≡ count_below n q
unfolding count_below
count_below_congr zero p q h = refl
count_below_congr (suc n) p q h =
    ground (arith, h n (omega arith), count_below_congr n p q (λ g l. h g (omega arith)))

-- One index that passes the first test only.
pub count_below_drop :
    (n : ℕ) (p q : ℕ → Bool) (i : ℕ)
    → i < n
    → p i ≡ true
    → q i ≡ false
    → ((g : ℕ) → g ≢ i → p g ≡ q g)
    → count_below n p ≡ suc (count_below n q)
unfolding count_below
count_below_drop zero p q i l a b h = absurd (omega arith)
count_below_drop (suc n) p q i l a b h = elim (Bool-cases (n == i)) [
  | inl e ↦
      let at : n ≡ i = (==_iff n i).0 e in
      let rest : count_below n p ≡ count_below n q =
        count_below_congr n p q (λ g k. h g (λ c. absurd (omega arith))) in
      let pn : p n ≡ true = subst (λ z. p z ≡ true) (sym at) a in
      let qn : q n ≡ false = subst (λ z. q z ≡ false) (sym at) b in ground arith
  | inr e ↦
      let apart : n ≢ i = (λ c. ground (arith, ==_iff n i)) in
      let rest : count_below n p ≡ suc (count_below n q) =
        count_below_drop n p q i (omega arith) a b h in
      let same : p n ≡ q n = h n apart in ground arith
]

pub count_below_pos : (n : ℕ) (p : ℕ → Bool) (g : ℕ) → g < n → p g ≡ true → 0 < count_below n p
unfolding count_below
count_below_pos zero p g l h = absurd (omega arith)
count_below_pos (suc n) p g l h = elim (Bool-cases (n == g)) [
  | inl e ↦
      let at : n ≡ g = (==_iff n g).0 e in
      let pn : p n ≡ true = subst (λ z. p z ≡ true) (sym at) h in ground arith
  | inr e ↦
      let apart : n ≢ g = (λ c. ground (arith, ==_iff n g)) in
      let rest : 0 < count_below n p = count_below_pos n p g (omega arith) h in ground arith
]

-- An index is found wherever the count is positive.
pub found_below : (n : ℕ) (p : ℕ → Bool) → 0 < count_below n p → (g : ℕ) × (g < n) × (p g ≡ true)
unfolding count_below
found_below zero p h = absurd (omega arith)
found_below (suc n) p h = elim (Bool-cases (p n)) [
  | inl e ↦ (n, omega arith, e)
  | inr e ↦ let (g, l, t) = found_below n p (ground arith) in (g, omega arith, t)
]

pub sum_below_add :
    (n : ℕ) (f g : ℕ → ℕ) → sum_below n (λ j. f j + g j) ≡ sum_below n f + sum_below n g
unfolding sum_below
sum_below_add zero f g = refl
sum_below_add (suc n) f g = omega (arith, sum_below_add n f g)

one_at : ℕ → ℕ → ℕ
one_at i j = if i == j then 1 else 0

sum_below_none : (n i : ℕ) → n ≤ i → sum_below n (one_at i) ≡ 0
unfolding sum_below one_at
sum_below_none zero i l = refl
sum_below_none (suc n) i l = ground (arith, sum_below_none n i (omega arith))

sum_below_one : (n i : ℕ) → i < n → sum_below n (one_at i) ≡ 1
unfolding sum_below one_at
sum_below_one zero i l = absurd (omega arith)
sum_below_one (suc n) i l = elim (Bool-cases (i == n)) [
  | inl e ↦ ground (arith, sum_below_none n i (ground arith))
  | inr e ↦ ground (arith, sum_below_one n i (ground arith))
]

pub sum_below_zero : (n : ℕ) → sum_below n (λ j. 0) ≡ 0
unfolding sum_below
sum_below_zero zero = refl
sum_below_zero (suc n) = omega (arith, sum_below_zero n)

pub contains-count : (x : ℕ) (xs : List ℕ) → contains x xs ≡ ltb 0 (count x xs)
unfolding contains count
contains-count x [] = ground arith
contains-count x (y ∷ ys) = ground (arith, contains-count x ys)

-- The counts of the indices below `n` add up to the length of a list that has no others.
pub sum_below-count :
    (n : ℕ) (w : List ℕ)
    → ((j : ℕ) → n ≤ j → count j w ≡ 0)
    → sum_below n (λ j. count j w) ≡ length w
unfolding count one_at
sum_below-count n [] h = sum_below_zero n
sum_below-count n (i ∷ w) h = elim (Bool-cases (ltb i n)) [
  | inl l ↦
      let below : i < n = ground arith in
      let rest : sum_below n (λ j. count j w) ≡ length w =
        sum_below-count n w (λ j k. let c = h j k in omega arith) in
      sum_below_add n (one_at i) (λ j. count j w) ∙ omega (arith, sum_below_one n i below, rest)
  | inr l ↦ absurd (let c : count i (i ∷ w) ≡ 0 = h i (ground arith) in ground arith)
]

pub sum_below-le : (n : ℕ) (f : ℕ → ℕ) → ((j : ℕ) → j < n → f j ≤ 1) → sum_below n f ≤ n
unfolding sum_below
sum_below-le zero f h = omega arith
sum_below-le (suc n) f h =
    omega (arith, h n (omega arith), sum_below-le n f (λ j l. h j (omega arith)))

-- Pigeonhole: a missing index makes the sum smaller.
pub sum_below-lt :
    (n : ℕ) (f : ℕ → ℕ) (i : ℕ) → i < n → f i ≡ 0 → ((j : ℕ) → j < n → f j ≤ 1) → sum_below n f < n
unfolding sum_below
sum_below-lt zero f i l e h = absurd (omega arith)
sum_below-lt (suc n) f i l e h = elim (Bool-cases (n == i)) [
  | inl at ↦
      let same : n ≡ i = (==_iff n i).0 at in
      let none_here : f n ≡ 0 = subst (λ z. f z ≡ 0) (sym same) e in
      omega (arith, sum_below-le n f (λ j k. h j (omega arith)))
  | inr other ↦
      let apart : n ≢ i = (λ c. ground (arith, ==_iff n i)) in
      omega
        (arith, h n (omega arith), sum_below-lt n f i (omega arith) e (λ j k. h j (omega arith)))
]

pub sum_below_congr :
    (n : ℕ) (f g : ℕ → ℕ) → ((j : ℕ) → j < n → f j ≡ g j) → sum_below n f ≡ sum_below n g
unfolding sum_below
sum_below_congr zero f g h = refl
sum_below_congr (suc n) f g h =
    omega (arith, h n (omega arith), sum_below_congr n f g (λ j l. h j (omega arith)))

-- The sum with the first term taken off.
pub sum_below_shift : (n : ℕ) (f : ℕ → ℕ) → sum_below (suc n) f ≡ f 0 + sum_below n (λ i. f (suc i))
unfolding sum_below
sum_below_shift zero f = refl
sum_below_shift (suc n) f = omega (arith, sum_below_shift n f)

-- The term at one index.
pub sum_below_pick :
    (n i : ℕ) (f : ℕ → ℕ) → i < n → sum_below n (λ j. (if i == j then 1 else 0) * f j) ≡ f i
unfolding sum_below
sum_below_pick zero i f l = absurd (omega arith)
sum_below_pick (suc n) i f l = elim (Bool-cases (i == n)) [
  | inl e ↦
      let at : i ≡ n = (==_iff i n).0 e in
      let rest : sum_below n (λ j. (if i == j then 1 else 0) * f j) ≡ 0 =
        sum_below_congr n _ (λ j. 0) (λ j k. ground (arith, ==_iff i j)) ∙ sum_below_zero n in
      rw e (omega (arith, rest, ap f at))
  | inr e ↦
      let apart : i ≢ n = (λ c. ground (arith, ==_iff i n)) in
      let rest = sum_below_pick n i f (omega arith) in rw e (omega (arith, rest))
]
