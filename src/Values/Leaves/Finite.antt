-- ===== src/Values/Leaves/Finite.antt =====
-- cli/values.py: a link back up the tree makes the walk of `_leaves` no endless one.
use nixplan.Prelude.{
  ℕ, zero, suc, ◌+◌, ◌≤◌, ◌<◌, String, str_eq, eq_iff, Bool, true, false, not, ◌||◌, Bool-cases,
  inl, inr, ◌≡◌, refl, sym, ap, ◌∙◌, Option, none, some, List, [], ◌∷◌, ◌++◌, length, arith,
  if◌then◌else◌,
}
use nixplan.Sorted.{text_order, contains}
use nixplan.Paths.{FilePath, path_text, below}
use nixplan.Values.Leaves.{Tree, push_dirs, files_in, is_passed, walk_leaves, leaves}

-- What the directories that were not walked yet can still put on the stack, and themselves.
abbrev weight : ℕ → List String → List String → ℕ
weight bound walked [] = 0
weight bound walked (d ∷ dirs) =
    (if contains d walked then 0 else suc bound) + weight bound walked dirs

-- The directories of the tree resolve to those of a list, and none has more than so many entries.
abbrev pub IsBounded : Tree → ℕ → List String → Type 0
IsBounded tree bound dirs =
    (here : FilePath)
    → tree.is_dir here ≡ true
    → (contains (path_text (tree.resolve here)) dirs ≡ true) × (length (tree.names here) ≤ bound)

-- The rounds that are enough: one for each directory and each of its entries, and two.
abbrev pub enough : ℕ → List String → ℕ
enough bound [] = 2
enough bound (d ∷ dirs) = suc bound + enough bound dirs

weight-cons :
    (bound : ℕ) (r : String) (walked dirs : List String)
    → weight bound (r ∷ walked) dirs ≤ weight bound walked dirs
unfolding contains
weight-cons bound r walked [] = omega arith
weight-cons bound r walked (d ∷ dirs) = ground (arith, weight-cons bound r walked dirs)

weight-walked :
    (bound : ℕ) (r : String) (walked dirs : List String)
    → contains r dirs ≡ true
    → contains r walked ≡ false
    → weight bound (r ∷ walked) dirs + suc bound ≤ weight bound walked dirs
unfolding contains
weight-walked bound r walked [] h new = cc
weight-walked bound r walked (d ∷ dirs) h new = elim (Bool-cases (str_eq r d)) [
  | inl y ↦
      let fresh : contains d walked ≡ false =
        ap (λ z. contains z walked) (sym ((eq_iff r d).0 y)) ∙ new in
      rw (y, fresh) (omega (arith, weight-cons bound r walked dirs))
  | inr n ↦
      let later : contains r dirs ≡ true = ground (arith, eq_iff r d, eq_iff d r) in
      rw n (omega (arith, weight-walked bound r walked dirs later new))
]

not_passed : (a b : Bool) → (not a || b) ≡ false → (a ≡ true) × (b ≡ false)
not_passed true false h = (refl, refl)
not_passed true true h = cc
not_passed false b h = cc

weight-nil : (bound : ℕ) (dirs : List String) → weight bound [] dirs + 2 ≡ enough bound dirs
unfolding contains
weight-nil bound [] = refl
weight-nil bound (d ∷ dirs) = omega (arith, weight-nil bound dirs)

length-push_dirs :
    (tree : Tree) (here : FilePath) (pending : List FilePath) (names : List String)
    → length (push_dirs tree here pending names) ≤ length pending + length names
unfolding push_dirs
length-push_dirs tree here pending [] = omega arith
length-push_dirs tree here pending (name ∷ names) =
    elim (Bool-cases (tree.is_dir (below here name))) [
      | inl y ↦
          let more = length-push_dirs tree here (below here name ∷ pending) names in
          rw y (omega (arith, more))
      | inr n ↦ let more = length-push_dirs tree here pending names in rw n (omega (arith, more))
    ]

abbrev ended : Option (List String)
ended = some []

none_less : (n : ℕ) → n < 0 → none ≡ ended
none_less n h = let never : true ≡ false = ground arith in cc

walk_leaves-ends :
    (tree : Tree) (directory : FilePath) (bound : ℕ) (dirs : List String)
    → IsBounded tree bound dirs
    → (fuel : ℕ) (walked : List String) (pending : List FilePath) (found : List String)
    → length pending + weight bound walked dirs < fuel
    → (files : List String) × (walk_leaves tree directory fuel walked pending found ≡ some files)
unfolding walk_leaves
walk_leaves-ends tree directory bound dirs bounded zero walked pending found h =
    ([], none_less (length pending + weight bound walked dirs) h)
walk_leaves-ends tree directory bound dirs bounded (suc fuel) walked [] found h = (found, refl)
walk_leaves-ends tree directory bound dirs bounded (suc fuel) walked (here ∷ pending) found h =
    elim (Bool-cases (is_passed tree walked here)) [
      | inl y ↦ rw y (
          walk_leaves-ends tree directory bound dirs bounded fuel walked pending found
            (omega (arith, h)))
      | inr n ↦
          let r = path_text (tree.resolve here) in
          let (is_directory, new) = not_passed (tree.is_dir here) (contains r walked) n in
          let (known, few) = bounded here is_directory in
          rw n (
            walk_leaves-ends tree directory bound dirs bounded fuel (r ∷ walked)
              (push_dirs tree here pending (tree.names here))
              (found ++ files_in tree directory here (tree.names here))
              (omega (
                arith,
                h,
                few,
                length-push_dirs tree here pending (tree.names here),
                weight-walked bound r walked dirs known new,
              )))
    ]

-- Where a tree has finitely many directories, each with finitely many entries, the walk of a value's
-- directory ends with the files that it found, whatever links the tree has.
pub leaves-ends :
    (tree : Tree) (directory : FilePath) (bound : ℕ) (dirs : List String)
    → IsBounded tree bound dirs
    → (files : List String) × (leaves tree (enough bound dirs) directory ≡ some files)
unfolding leaves
leaves-ends tree directory bound dirs bounded =
    walk_leaves-ends tree directory bound dirs bounded (enough bound dirs) [] (directory ∷ []) []
      (omega (arith, weight-nil bound dirs))
