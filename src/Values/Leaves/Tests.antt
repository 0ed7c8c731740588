-- ===== src/Values/Leaves/Tests.antt =====
-- A value's directory with one file and a link back to itself.
use nixplan.Prelude.{
  String, str_eq, Bool, true, false, ◌≡◌, refl, some, List, [], ◌∷◌, arith, if◌then◌else◌,
}
use nixplan.Sorted.{text_order, contains}
use nixplan.Paths.{FilePath, slash, path_text}
use nixplan.Values.Leaves.{Tree, leaves}
use nixplan.Values.Leaves.Finite.{IsBounded, enough, leaves-ends}

abbrev root : FilePath
root = record { anchor = slash; parts = "key" ∷ [] }

abbrev last_is : String → List String → Bool
last_is name [] = false
last_is name (p ∷ []) = str_eq p name
last_is name (p ∷ q ∷ ps) = last_is name (q ∷ ps)

abbrev tree : Tree
tree = record {
  is_dir = λ p. if last_is "secret" p.parts then false else true;
  is_file = λ p. last_is "secret" p.parts;
  resolve = λ p. root;
  names = λ p. "secret" ∷ "back" ∷ [];
}

tree-IsBounded : IsBounded tree 2 ("/key" ∷ [])
unfolding contains path_text
tree-IsBounded here h = (refl, omega arith)

leaves-ends_example :
    (files : List String) × (leaves tree (enough 2 ("/key" ∷ [])) root ≡ some files)
leaves-ends_example = leaves-ends tree root 2 ("/key" ∷ []) tree-IsBounded

leaves-tree : leaves tree (enough 2 ("/key" ∷ [])) root ≡ some ("secret" ∷ [])
unfolding leaves
leaves-tree = refl
