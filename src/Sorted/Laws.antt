-- ===== src/Sorted/Laws.antt =====
-- The members and the order of `sorted_set`.
use nixplan.Prelude.{
  ◌+◌, ltb, ◌++◌, ◌≡◌, refl, sym, subst, ◌∙◌, ap₂, true, false, List, [], ◌∷◌, ◌||◌, arith,
  if◌then◌else◌,
}
use nixplan.Sorted.{Ord, contains, insert, sorted_set, push, sorted, count, Below, IsSorted}

module _ {ℓ} {A : Type ℓ} ⦃o : Ord A⦄ where
  pub contains-insert :
      (a x : A) (ys : List A) → contains a (insert x ys) ≡ (o.eq x a || contains a ys)
  unfolding contains insert
  contains-insert a x [] = refl
  contains-insert a x (y ∷ ys) = ground (arith, contains-insert a x ys, o.lt_connex x y)

  pub contains-sorted_set : (a : A) (xs : List A) → contains a (sorted_set xs) ≡ contains a xs
  unfolding sorted_set contains
  contains-sorted_set a [] = refl
  contains-sorted_set a (x ∷ xs) =
      ground (arith, contains-insert a x (sorted_set xs), contains-sorted_set a xs)

  pub Below-trans : (x y : A) (zs : List A) → o.lt x y ≡ true → Below y zs → Below x zs
  Below-trans x y [] h b = tt
  Below-trans x y (z ∷ zs) h b = (o.lt_trans x y z h b.0, Below-trans x y zs h b.1)

  Below-insert : (w x : A) (ys : List A) → o.lt w x ≡ true → Below w ys → Below w (insert x ys)
  unfolding insert
  Below-insert w x [] h b = (h, tt)
  Below-insert w x (y ∷ ys) h b = ground (arith, Below-insert w x ys)

  insert-IsSorted : (x : A) (ys : List A) → IsSorted ys → IsSorted (insert x ys)
  unfolding insert
  insert-IsSorted x [] s = (tt, tt)
  insert-IsSorted x (y ∷ ys) s =
      ground (arith, insert-IsSorted x ys, Below-trans x y ys, Below-insert y x ys)

  pub sorted_set-IsSorted : (xs : List A) → IsSorted (sorted_set xs)
  unfolding sorted_set
  sorted_set-IsSorted [] = tt
  sorted_set-IsSorted (x ∷ xs) = insert-IsSorted x (sorted_set xs) (sorted_set-IsSorted xs)

  eq_refl : (a : A) → o.eq a a ≡ true
  eq_refl a = (o.eq_iff a a).1 refl

  -- What stands below a list is no member of it.
  pub not-contains-Below : (x : A) (ys : List A) → Below x ys → contains x ys ≡ false
  unfolding contains
  not-contains-Below x [] b = refl
  not-contains-Below x (y ∷ ys) b =
      ground (arith, not-contains-Below x ys b.1, o.eq_iff y x, o.lt_irrefl x)

  pub lt_of_contains : (x y : A) (zs : List A) → Below x zs → contains y zs ≡ true → o.lt x y ≡ true
  unfolding contains
  lt_of_contains x y [] b c = cc
  lt_of_contains x y (z ∷ zs) b c = ground (arith, lt_of_contains x y zs b.1, o.eq_iff z y)

  same_heads :
      (x y : A) (xs ys : List A)
      → Below x xs
      → Below y ys
      → contains x (x ∷ xs) ≡ contains x (y ∷ ys)
      → contains y (x ∷ xs) ≡ contains y (y ∷ ys)
      → x ≡ y
  unfolding contains
  same_heads x y xs ys b c p q =
      o.lt_connex x y
        (ground (
          arith,
          eq_refl x,
          o.eq_iff y x,
          o.lt_irrefl x,
          not-contains-Below x ys,
          Below-trans x y ys,
          p,
        ))
        (ground (
          arith,
          eq_refl y,
          o.eq_iff x y,
          o.lt_irrefl y,
          not-contains-Below y xs,
          Below-trans y x xs,
          q,
        ))

  same_tails :
      (x a : A) (xs ys : List A)
      → Below x xs
      → Below x ys
      → contains a (x ∷ xs) ≡ contains a (x ∷ ys)
      → contains a xs ≡ contains a ys
  unfolding contains
  same_tails x a xs ys b c p =
      ground (arith, o.eq_iff x a, not-contains-Below x xs b, not-contains-Below x ys c)

  -- Two increasing lists with the same members are one list.
  pub sorted_ext :
      (xs ys : List A)
      → IsSorted xs
      → IsSorted ys
      → ((a : A) → contains a xs ≡ contains a ys)
      → xs ≡ ys
  unfolding contains
  sorted_ext [] [] s t same = refl
  sorted_ext [] (y ∷ ys) s t same = ground (arith, same y, eq_refl y)
  sorted_ext (x ∷ xs) [] s t same = ground (arith, same x, eq_refl x)
  sorted_ext (x ∷ xs) (y ∷ ys) s t same =
      let heads : x ≡ y = same_heads x y xs ys s.0 t.0 (same x) (same y) in
      ap₂ ◌∷◌ heads (
        sorted_ext xs ys s.1 t.1 λ a.
          same_tails x a xs ys s.0 (rw heads t.0)
            (subst (λ z. contains a (x ∷ xs) ≡ contains a (z ∷ ys)) (sym heads) (same a)))

  -- `sorted(set(…))` of lists with the same members is the same.
  pub sorted_set_ext :
      (xs ys : List A) → ((a : A) → contains a xs ≡ contains a ys) → sorted_set xs ≡ sorted_set ys
  sorted_set_ext xs ys same =
      sorted_ext _ _ (sorted_set-IsSorted xs) (sorted_set-IsSorted ys)
        λ a. contains-sorted_set a xs ∙ same a ∙ sym (contains-sorted_set a ys)

  pub contains-append :
      (a : A) (xs ys : List A) → contains a (xs ++ ys) ≡ (contains a xs || contains a ys)
  unfolding contains
  contains-append a [] ys = refl
  contains-append a (x ∷ xs) ys = ground (arith, contains-append a xs ys)

  pub count-append : (a : A) (xs ys : List A) → count a (xs ++ ys) ≡ count a xs + count a ys
  unfolding count
  count-append a [] ys = omega arith
  count-append a (x ∷ xs) ys = omega (arith, count-append a xs ys)

  count-push :
      (a x : A) (ys : List A) → count a (push x ys) ≡ (if o.eq x a then 1 else 0) + count a ys
  unfolding count push
  count-push a x [] = refl
  count-push a x (y ∷ ys) = ground (arith, count-push a x ys)

  pub count-sorted : (a : A) (xs : List A) → count a (sorted xs) ≡ count a xs
  unfolding count sorted
  count-sorted a [] = refl
  count-sorted a (x ∷ xs) = omega (arith, count-push a x (sorted xs), count-sorted a xs)

  -- A strictly increasing list repeats nothing.
  pub count_of_IsSorted :
      (a : A) (xs : List A) → IsSorted xs → count a xs ≡ (if contains a xs then 1 else 0)
  unfolding contains count
  count_of_IsSorted a [] s = refl
  count_of_IsSorted a (x ∷ xs) s =
      ground (arith, count_of_IsSorted a xs s.1, o.eq_iff x a, not-contains-Below x xs s.0)

  pub contains_of_count : (a : A) (xs : List A) → contains a xs ≡ ltb 0 (count a xs)
  unfolding contains count
  contains_of_count a [] = ground arith
  contains_of_count a (x ∷ xs) = ground (arith, contains_of_count a xs)
