-- ===== src/Apply/Indexed.antt =====
-- cli/apply.py: `index` of `rotations`, against the files that the values declare.
use nixplan.Prelude.{
  String, str_eq, ◌≡◌, refl, sym, ap, ap₂, ◌∙◌, Bool, true, false, ◌||◌, Option, none, some, List,
  [], ◌∷◌, ◌++◌, map, any, flat_map, arith, if◌then◌else◌,
}
use nixplan.Sorted.{text_order, contains}
use nixplan.Sorted.Laws.{contains-append}
use nixplan.Dict.{Dict, get, put, get-put, values}
use nixplan.Order.{Read, Pair}
use nixplan.Manifest.{ValueFile, Value, Deployment}
use nixplan.Apply.Rotations.{index_files, index_values, index_paths, found_at}

-- Every declared file's path, with its value.
abbrev files_with : String → List ValueFile → List Pair
files_with key fs = map (λ (f : ValueFile). (f.path, key)) fs

abbrev pub declared_files : List Value → List Pair
declared_files [] = []
declared_files (v ∷ vs) = files_with v.key v.files ++ declared_files vs

abbrev or_else : Option String → Option String → Option String
or_else none other = other
or_else (some x) other = some x

-- The value whose file at a path was declared last.
unfoldable pub declarer : List Pair → String → Option String
declarer [] p = none
declarer ((q, key) ∷ ds) p = or_else (declarer ds p) (if str_eq q p then some key else none)

abbrev is_named : Option String → String → Bool
is_named none value = false
is_named (some key) value = str_eq key value

-- Whether one of the paths that some reads carry is one that a value declares, and declares last.
abbrev pub names_value : List Pair → List Read → String → Bool
names_value files rs value =
    any (λ (r : Read). any (λ p. is_named (declarer files p) value) r.paths) rs

or_else_assoc : (a b c : Option String) → or_else (or_else a b) c ≡ or_else a (or_else b c)
or_else_assoc none b c = refl
or_else_assoc (some x) b c = refl

or_else_if :
    (b : Bool) (key : String) (o : Option String)
    → (if b then some key else o) ≡ or_else (if b then some key else none) o
or_else_if true key o = refl
or_else_if false key o = refl

declarer-append :
    (ds es : List Pair) (p : String)
    → declarer (ds ++ es) p ≡ or_else (declarer es p) (declarer ds p)
unfolding declarer
declarer-append [] es p = right (declarer es p)
  where
    right : (o : Option String) → o ≡ or_else o none
    right none = refl
    right (some x) = refl
declarer-append ((q, key) ∷ ds) es p =
    let last : Option String = if str_eq q p then some key else none in
    ap (λ o. or_else o last) (declarer-append ds es p)
    ∙ or_else_assoc (declarer es p) (declarer ds p) last

get-index_files :
    (d : Dict String) (key : String) (fs : List ValueFile) (p : String)
    → get (index_files d key fs) p ≡ or_else (declarer (files_with key fs) p) (get d p)
unfolding index_files declarer
get-index_files d key [] p = refl
get-index_files d key (f ∷ fs) p =
    get-index_files (put d f.path key) key fs p
    ∙ ap (or_else (declarer (files_with key fs) p))
        (get-put d f.path p key ∙ or_else_if (str_eq f.path p) key (get d p))
    ∙ sym (
        or_else_assoc (declarer (files_with key fs) p) (if str_eq f.path p then some key else none)
          (get d p))

get-index_values :
    (d : Dict String) (vs : List Value) (p : String)
    → get (index_values d vs) p ≡ or_else (declarer (declared_files vs) p) (get d p)
unfolding index_values declarer
get-index_values d [] p = refl
get-index_values d (v ∷ vs) p =
    let here = declarer (files_with v.key v.files) p in
    let later = declarer (declared_files vs) p in
    get-index_values (index_files d v.key v.files) vs p
    ∙ ap (or_else later) (get-index_files d v.key v.files p)
    ∙ sym (or_else_assoc later here (get d p))
    ∙ ap (λ o. or_else o (get d p))
        (sym (declarer-append (files_with v.key v.files) (declared_files vs) p))

get-index_paths :
    (d : Deployment) (p : String)
    → get (index_paths d) p ≡ declarer (declared_files (values d.values)) p
unfolding index_paths get
get-index_paths d p =
    get-index_values [] (values d.values) p ∙ unit (declarer (declared_files (values d.values)) p)
  where
    unit : (o : Option String) → or_else o none ≡ o
    unit none = refl
    unit (some x) = refl

contains-found_at :
    (value : String) (o : Option String) → contains value (found_at o) ≡ is_named o value
unfolding contains
contains-found_at value none = refl
contains-found_at value (some key) = ground arith

contains-paths :
    (d : Deployment) (value : String) (ps : List String)
    → contains value (flat_map (λ p. found_at (get (index_paths d) p)) ps)
      ≡ any (λ p. is_named (declarer (declared_files (values d.values)) p) value) ps
unfolding contains
contains-paths d value [] = refl
contains-paths d value (p ∷ ps) =
    contains-append value (found_at (get (index_paths d) p))
      (flat_map (λ q. found_at (get (index_paths d) q)) ps)
    ∙ ap₂ (λ a b. a || b)
        (contains-found_at value (get (index_paths d) p)
          ∙ ap (λ o. is_named o value) (get-index_paths d p))
        (contains-paths d value ps)

pub contains-reads :
    (d : Deployment) (value : String) (rs : List Read)
    → contains value
        (flat_map (λ (r : Read). flat_map (λ p. found_at (get (index_paths d) p)) r.paths) rs)
      ≡ names_value (declared_files (values d.values)) rs value
unfolding contains
contains-reads d value [] = refl
contains-reads d value (r ∷ rs) =
    contains-append value (flat_map (λ p. found_at (get (index_paths d) p)) r.paths)
      (flat_map (λ (r : Read). flat_map (λ p. found_at (get (index_paths d) p)) r.paths) rs)
    ∙ ap₂ (λ a b. a || b) (contains-paths d value r.paths) (contains-reads d value rs)
