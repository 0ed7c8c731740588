-- ===== src/Sorted.antt =====
-- Python's `in`, `set` and `sorted` over a type with a linear order. The program sorts every set
-- that it returns, so `sorted(set(xs))` is one function here, by insertion without repetition.
pub mod Laws
use nixplan.Prelude.{
  ℕ, ◌+◌, ltb, ◌==◌, ==_iff, String, str_eq, eq_iff, ap, ap₂, and_true, ◌≡◌, ◌↔◌, Bool, true, false,
  ◌&&◌, ◌||◌, List, [], ◌∷◌, arith, if◌then◌else◌,
}
use nixplan.Text.{str_lt, str_lt_irrefl, str_lt_trans, str_lt_connex}

pub record Ord {ℓ} (A : Type ℓ) : Type ℓ where
  pub eq : A → A → Bool
  pub lt : A → A → Bool
  pub eq_iff : (a b : A) → (eq a b ≡ true) ↔ (a ≡ b)
  pub lt_irrefl : (a : A) → lt a a ≡ false
  pub lt_trans : (a b c : A) → lt a b ≡ true → lt b c ≡ true → lt a c ≡ true
  pub lt_connex : (a b : A) → lt a b ≡ false → lt b a ≡ false → a ≡ b

instance abbrev pub text_order : Ord String
text_order = record {
  eq = str_eq;
  lt = str_lt;
  eq_iff = eq_iff;
  lt_irrefl = str_lt_irrefl;
  lt_trans = str_lt_trans;
  lt_connex = str_lt_connex;
}

-- Pairs, by the first component and then by the second.
module _ {ℓ κ} {A : Type ℓ} {B : Type κ} ⦃o : Ord A⦄ ⦃p : Ord B⦄ where
  abbrev pub pair_eq : A × B → A × B → Bool
  pair_eq (a, b) (c, d) = o.eq a c && p.eq b d

  abbrev pub pair_lt : A × B → A × B → Bool
  pair_lt (a, b) (c, d) = o.lt a c || (o.eq a c && p.lt b d)

  pub pair_eq_iff : (x y : A × B) → (pair_eq x y ≡ true) ↔ (x ≡ y)
  pair_eq_iff (a, b) (c, d) = (
    λ h.
        ap₂ (λ u v. (u, v)) ((o.eq_iff a c).0 (and_true _ _ h).0)
          ((p.eq_iff b d).0 (and_true _ _ h).1),
    λ h. ground (arith, o.eq_iff a c, p.eq_iff b d, ap (λ t. t.0) h, ap (λ t. t.1) h),
  )

  pub pair_lt_irrefl : (x : A × B) → pair_lt x x ≡ false
  pair_lt_irrefl (a, b) = ground (arith, o.lt_irrefl a, p.lt_irrefl b)

  pub pair_lt_trans : (x y z : A × B) → pair_lt x y ≡ true → pair_lt y z ≡ true → pair_lt x z ≡ true
  pair_lt_trans (a, b) (c, d) (e, f) h k =
      ground (arith, o.eq_iff a c, o.eq_iff c e, o.eq_iff a e, o.lt_trans a c e, p.lt_trans b d f)

  pub pair_lt_connex : (x y : A × B) → pair_lt x y ≡ false → pair_lt y x ≡ false → x ≡ y
  pair_lt_connex (a, b) (c, d) h k =
      let first : a ≡ c = o.lt_connex a c (ground arith) (ground arith) in
      ap₂ (λ u v. (u, v)) first
        (p.lt_connex b d (ground (arith, o.eq_iff a c)) (ground (arith, o.eq_iff c a)))

  instance abbrev pub pair_order : Ord (A × B)
  pair_order = record {
    eq = pair_eq;
    lt = pair_lt;
    eq_iff = pair_eq_iff;
    lt_irrefl = pair_lt_irrefl;
    lt_trans = pair_lt_trans;
    lt_connex = pair_lt_connex;
  }

pub nat_lt_connex : (a b : ℕ) → ltb a b ≡ false → ltb b a ≡ false → a ≡ b
nat_lt_connex a b h k = ground arith

pub nat_lt_trans : (a b c : ℕ) → ltb a b ≡ true → ltb b c ≡ true → ltb a c ≡ true
nat_lt_trans a b c h k = ground arith

pub nat_lt_irrefl : (a : ℕ) → ltb a a ≡ false
nat_lt_irrefl a = ground arith

instance abbrev pub nat_order : Ord ℕ
nat_order = record {
  eq = ◌==◌;
  lt = ltb;
  eq_iff = ==_iff;
  lt_irrefl = nat_lt_irrefl;
  lt_trans = nat_lt_trans;
  lt_connex = nat_lt_connex;
}

module _ {ℓ} {A : Type ℓ} ⦃o : Ord A⦄ where
  -- `x in xs`
  unfoldable pub contains : A → List A → Bool
  contains x [] = false
  contains x (y ∷ ys) = o.eq y x || contains x ys

  -- A strictly increasing list with `x` put in its place.
  unfoldable pub insert : A → List A → List A
  insert x [] = x ∷ []
  insert x (y ∷ ys) =
      let rest = insert x ys in
      if o.lt x y then x ∷ y ∷ ys else if o.lt y x then y ∷ rest else y ∷ ys

  -- `sorted(set(xs))`
  unfoldable pub sorted_set : List A → List A
  unfolding insert
  sorted_set [] = []
  sorted_set (x ∷ xs) = insert x (sorted_set xs)

  -- `sorted(xs)`, and `heapq.heappush` on a heap that is kept as its sorted list.
  unfoldable pub push : A → List A → List A
  push x [] = x ∷ []
  push x (y ∷ ys) = let rest = push x ys in if o.lt y x then y ∷ rest else x ∷ y ∷ ys

  unfoldable pub sorted : List A → List A
  unfolding push
  sorted [] = []
  sorted (x ∷ xs) = push x (sorted xs)

  -- How often `x` stands in a list.
  unfoldable pub count : A → List A → ℕ
  count x [] = 0
  count x (y ∷ ys) = (if o.eq y x then 1 else 0) + count x ys

  -- `x` stands before every element.
  abbrev pub Below : A → List A → Type 0
  Below x [] = Unit
  Below x (y ∷ ys) = (o.lt x y ≡ true) × Below x ys

  -- Strictly increasing, so without repetition.
  abbrev pub IsSorted : List A → Type 0
  IsSorted [] = Unit
  IsSorted (x ∷ xs) = Below x xs × IsSorted xs
