-- ===== src/Apply/Rotated.antt =====
-- cli/apply.py: which entries `rotations` has a run restart.
use nixplan.Prelude.{
  String, str_eq, eq_iff, ap, ap₂, ◌≡◌, sym, ◌∙◌, Bool, true, false, not, ◌&&◌, ◌||◌, ltb, List, [],
  ◌∷◌, is_empty, flat_map, arith, Bool-cases, inl, inr, if◌then◌else◌,
}
use nixplan.Errors.{
  ok, traverse, traverse_flat, traverse-cons, traverse-nil, >>=-ok, ok-injective, ◌>>=◌,
}
use nixplan.Sorted.{text_order, pair_order, contains, sorted, sorted_set}
use nixplan.Sorted.Laws.{contains-append, contains-sorted_set, contains_of_count, count-sorted}
use nixplan.Dict.{Dict, get, values}
use nixplan.Order.{Read, Pair, reads}
use nixplan.Manifest.{Entry, Deployment}
use nixplan.Apply.{entry_at}
use nixplan.Apply.Rotations.{
  restarts_entry, restart_if, entry_reading, rotations, reads_values, index_paths, found_at,
}
use nixplan.Apply.Indexed.{declared_files, names_value, contains-reads}

contains-restart_if :
    (d : Deployment) (v m key : String) (reading : List String) (value k : String) (e : Entry)
    {found : List Pair}
    → entry_at d k ≡ ok e
    → restart_if d (v, m) (key, reading) ≡ ok found
    → contains (value, k) found
      ≡ (str_eq v value && (str_eq key k && restarts_entry e reading (v, m)))
unfolding restart_if contains
contains-restart_if d v m key reading value k e {found} he h =
    let (e1, entry_ok, h1) = >>=-ok (entry_at d key) _ h in
    let kept : List Pair = if restarts_entry e1 reading (v, m) then (v, key) ∷ [] else [] in
    let same : kept ≡ found = ok-injective h1 in
    let there : contains {A = Pair} (value, k) kept
        ≡ (str_eq v value && (str_eq key k && restarts_entry e1 reading (v, m))) =
      one (restarts_entry e1 reading (v, m)) in
    ap (contains {A = Pair} (value, k)) (sym same) ∙ there ∙ elim (Bool-cases (str_eq key k)) [
      | inl y ↦
          let same_e : e1 ≡ e =
            ok-injective (sym entry_ok ∙ ap (entry_at d) ((eq_iff key k).0 y) ∙ he) in
          ap (λ x. str_eq v value && (str_eq key k && restarts_entry x reading (v, m))) same_e
      | inr n ↦ ground arith
    ]
  where
    one :
        (b : Bool)
        → contains {A = Pair} (value, k) (if b then (v, key) ∷ [] else [])
          ≡ (str_eq v value && (str_eq key k && b))
    one true = ground arith
    one false = ground arith

-- Of one value that moved on one machine.
contains-readings :
    (d : Deployment) (index : Dict String) (v m : String) (ks : List String) (value k : String)
    (e : Entry) (reading : List String) {readings : List (String × List String)} {found : List Pair}
    → entry_at d k ≡ ok e
    → reads_values d.plan k index ≡ ok reading
    → traverse (entry_reading d.plan index) ks ≡ ok readings
    → traverse_flat (restart_if d (v, m)) readings ≡ ok found
    → contains (value, k) found
      ≡ (str_eq v value && (contains k ks && restarts_entry e reading (v, m)))
unfolding traverse_flat contains entry_reading
contains-readings d index v m [] value k e reading {readings} {found} he hr hs h =
    let empty : [] ≡ readings = traverse-nil (entry_reading d.plan index) hs in
    let same : [] ≡ found = ok-injective (ap (traverse_flat (restart_if d (v, m))) empty ∙ h) in
    ap (contains {A = Pair} (value, k)) (sym same) ∙ ground arith
contains-readings d index v m (key ∷ ks) value k e reading {readings} {found} he hr hs h =
    let (one, rest, first, tail, whole) = traverse-cons (entry_reading d.plan index) key ks hs in
    let (reading1, reads_ok, paired) = >>=-ok (reads_values d.plan key index) _ first in
    let pair : (key, reading1) ≡ one = ok-injective paired in
    let split : traverse_flat (restart_if d (v, m)) ((key, reading1) ∷ rest) ≡ ok found =
      ap (λ z. traverse_flat (restart_if d (v, m)) (z ∷ rest)) pair
      ∙ ap (traverse_flat (restart_if d (v, m))) whole
      ∙ h in
    let (here, h0, h1) = >>=-ok (restart_if d (v, m) (key, reading1)) _ split in
    let (later, h2, h3) = >>=-ok (traverse_flat (restart_if d (v, m)) rest) _ h1 in
    let first_key : contains (value, k) here
        ≡ (str_eq v value && (str_eq key k && restarts_entry e reading (v, m))) =
      contains-restart_if d v m key reading1 value k e he h0 ∙ same_reading key reading1 reads_ok in
    let others = contains-readings d index v m ks value k e reading he hr tail h2 in
    let joined : contains (value, k) found
        ≡ (contains {A = Pair} (value, k) here || contains {A = Pair} (value, k) later) =
      ap (contains {A = Pair} (value, k)) (sym (ok-injective h3))
      ∙ contains-append (value, k) here later in
    joined ∙ ap₂ (λ a b. a || b) first_key others ∙ ground arith
  where
    same_reading :
        (key : String) (reading1 : List String)
        → reads_values d.plan key index ≡ ok reading1
        → (str_eq v value && (str_eq key k && restarts_entry e reading1 (v, m)))
          ≡ (str_eq v value && (str_eq key k && restarts_entry e reading (v, m)))
    same_reading key reading1 read = elim (Bool-cases (str_eq key k)) [
      | inl y ↦
          let same : reading1 ≡ reading =
            ok-injective
              (sym read ∙ ap (λ z. reads_values d.plan z index) ((eq_iff key k).0 y) ∙ hr) in
          ap (λ x. str_eq v value && (str_eq key k && restarts_entry e x (v, m))) same
      | inr n ↦ ground arith
    ]

-- Whether an entry that is one of those taken is restarted for a value.
abbrev pub is_restarted : Entry → Bool → List Pair → String → Bool
is_restarted e named moved value =
    contains (value, e.machine) moved && (not (is_empty e.units) && named)

contains-moved :
    (d : Deployment) (index : Dict String) (moved : List Pair) (ks : List String) (value k : String)
    (e : Entry) (reading : List String) {readings : List (String × List String)} {found : List Pair}
    → entry_at d k ≡ ok e
    → reads_values d.plan k index ≡ ok reading
    → traverse (entry_reading d.plan index) ks ≡ ok readings
    → traverse_flat (λ m. traverse_flat (restart_if d m) readings) moved ≡ ok found
    → contains (value, k) found
      ≡ (contains k ks && is_restarted e (contains value reading) moved value)
unfolding traverse_flat contains
contains-moved d index [] ks value k e reading {readings} {found} he hr hs h =
    ap (contains {A = Pair} (value, k)) (sym (ok-injective h)) ∙ ground arith
contains-moved d index ((v, m) ∷ moved) ks value k e reading {readings} {found} he hr hs h =
    let (here, h0, h1) = >>=-ok (traverse_flat (restart_if d (v, m)) readings) _ h in
    let (later, h2, h3) =
      >>=-ok (traverse_flat (λ m. traverse_flat (restart_if d m) readings) moved) _ h1 in
    let first = contains-readings d index v m ks value k e reading he hr hs h0 in
    let rest = contains-moved d index moved ks value k e reading he hr hs h2 in
    let joined : contains (value, k) found
        ≡ (contains {A = Pair} (value, k) here || contains {A = Pair} (value, k) later) =
      ap (contains {A = Pair} (value, k)) (sym (ok-injective h3))
      ∙ contains-append (value, k) here later in
    joined ∙ ap₂ (λ a b. a || b) first rest ∙ one_more
  where
    str_eq_comm : (a b : String) → str_eq a b ≡ str_eq b a
    str_eq_comm a b = ground (arith, eq_iff a b, eq_iff b a)

    one_more :
        ((str_eq v value && (contains k ks && restarts_entry e reading (v, m)))
          || (contains k ks && is_restarted e (contains value reading) moved value))
        ≡ (contains k ks && is_restarted e (contains value reading) ((v, m) ∷ moved) value)
    one_more =
        let swap : str_eq e.machine m ≡ str_eq m e.machine = str_eq_comm e.machine m in
        let same : str_eq v value ≡ true → contains v reading ≡ contains value reading =
          λ h. ap (λ z. contains z reading) ((eq_iff v value).0 h) in
        ground arith

contains-sorted : (a : Pair) (xs : List Pair) → contains a (sorted xs) ≡ contains a xs
contains-sorted a xs =
    contains_of_count a (sorted xs)
    ∙ ap (λ n. ltb 0 n) (count-sorted a xs)
    ∙ sym (contains_of_count a xs)

-- Of the entries `ks` that a run took, it restarts the entry at `k` for a value exactly where `k` is
-- one of them, the value moved on the machine of that entry, the entry declares a unit, and one of
-- its resolved reads carries a path that is declared for a file of the value, and for no file of a
-- value after it.
pub contains-rotations :
    (d : Deployment) (ks : List String) (moved pairs : List Pair) (value k : String) (e : Entry)
    (rs : List Read)
    → entry_at d k ≡ ok e
    → reads d.plan k ≡ ok rs
    → rotations d ks moved ≡ ok pairs
    → contains (value, k) pairs ≡ (
        contains k ks
        && is_restarted e (names_value (declared_files (values d.values)) rs value) moved value)
unfolding rotations reads_values
contains-rotations d ks moved pairs value k e rs he hr h =
    let (readings, hs, h0) = >>=-ok (traverse (entry_reading d.plan (index_paths d)) ks) _ h in
    let (found, h1, h2) =
      >>=-ok (traverse_flat (λ m. traverse_flat (restart_if d m) readings) (sorted_set moved)) _
        h0 in
    let read = ap (λ t. t >>= λ rs. ok (named_by rs)) hr in
    ap (contains {A = Pair} (value, k)) (sym (ok-injective h2))
    ∙ contains-sorted (value, k) found
    ∙ contains-moved d (index_paths d) (sorted_set moved) ks value k e (named_by rs) he read hs h1
    ∙ ap₂ (λ a b. contains k ks && (a && (not (is_empty e.units) && b)))
        (contains-sorted_set (value, e.machine) moved) (contains-reads d value rs)
  where
    named_by : List Read → List String
    named_by = λ rs.
        flat_map (λ (r : Read). flat_map (λ path. found_at (get (index_paths d) path)) r.paths) rs
