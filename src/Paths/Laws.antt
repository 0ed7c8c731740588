-- ===== src/Paths/Laws.antt =====
-- What `os.path.abspath` makes of a path, and the paths that lie below another.
use nixplan.Prelude.{
  String, str_eq, eq_iff, ap, ap₂, ◌≡◌, refl, sym, ◌∙◌, true, false, ◌||◌, List, [], ◌∷◌, ◌++◌,
  arith, Bool-cases, and_true, inl, inr, if◌then◌else◌,
}
use nixplan.Sorted.{text_order, contains}
use nixplan.Paths.{without_last, collapse, reverse_onto, starts_with_parts}

contains-without_last :
    (m : String) (xs : List String) → contains m xs ≡ false → contains m (without_last xs) ≡ false
unfolding contains
contains-without_last m [] h = refl
contains-without_last m (x ∷ xs) h = ground arith

pub contains-collapse :
    (stack parts : List String)
    → contains ".." stack ≡ false
    → contains ".." (collapse stack parts) ≡ false
unfolding collapse contains
contains-collapse stack [] h = h
contains-collapse stack (part ∷ rest) h = elim (Bool-cases (str_eq part "..")) [
  | inl y ↦
      let e : (if str_eq part ".." then without_last stack else part ∷ stack) ≡ without_last stack =
        ground arith in
      ap (λ s. contains ".." (collapse s rest)) e
      ∙ contains-collapse (without_last stack) rest (contains-without_last ".." stack h)
  | inr n ↦
      let e : (if str_eq part ".." then without_last stack else part ∷ stack) ≡ part ∷ stack =
        ground arith in
      ap (λ s. contains ".." (collapse s rest)) e
      ∙ contains-collapse (part ∷ stack) rest (ground arith)
]

pub collapse-reverse_onto :
    (stack parts : List String)
    → contains ".." parts ≡ false
    → collapse stack parts ≡ reverse_onto parts stack
unfolding collapse contains
collapse-reverse_onto stack [] h = refl
collapse-reverse_onto stack (part ∷ rest) h =
    let e : (if str_eq part ".." then without_last stack else part ∷ stack) ≡ part ∷ stack =
      ground arith in
    ap (λ s. collapse s rest) e ∙ collapse-reverse_onto (part ∷ stack) rest (ground arith)

pub contains-reverse_onto :
    (m : String) (xs onto : List String)
    → contains m (reverse_onto xs onto) ≡ (contains m xs || contains m onto)
unfolding contains
contains-reverse_onto m [] onto = refl
contains-reverse_onto m (x ∷ xs) onto = ground (arith, contains-reverse_onto m xs (x ∷ onto))

pub reverse_onto_twice :
    (xs ys zs : List String) → reverse_onto (reverse_onto xs ys) zs ≡ reverse_onto ys (xs ++ zs)
reverse_onto_twice [] ys zs = refl
reverse_onto_twice (x ∷ xs) ys zs = reverse_onto_twice xs (x ∷ ys) zs

pub starts_with_parts-append : (xs ys : List String) → starts_with_parts xs (xs ++ ys) ≡ true
unfolding starts_with_parts
starts_with_parts-append [] ys = refl
starts_with_parts-append (x ∷ xs) ys = ground (arith, eq_iff x x, starts_with_parts-append xs ys)

pub starts_with_parts-split :
    (xs ys : List String)
    → starts_with_parts xs ys ≡ true
    → (rest : List String) × (ys ≡ xs ++ rest)
unfolding starts_with_parts
starts_with_parts-split [] ys h = (ys, refl)
starts_with_parts-split (x ∷ xs) [] h = cc
starts_with_parts-split (x ∷ xs) (y ∷ ys) h =
    let (first, later) = and_true (str_eq x y) (starts_with_parts xs ys) h in
    let (rest, e) = starts_with_parts-split xs ys later in
    (rest, ap₂ ◌∷◌ (sym ((eq_iff x y).0 first)) e)
