-- ===== src/Dict.antt =====
-- Python's `dict` with text keys, in the order of insertion. A key stands once in a `dict`; where a
-- list repeats one, its first pair counts, here as in `get`.
pub mod Laws
use nixplan.Prelude.{
  String, str_eq, eq_iff, ◌≡◌, refl, Bool, true, false, Option, none, some, List, [], ◌∷◌, ◌||◌,
  map, arith, if◌then◌else◌,
}
use nixplan.Text.{str_lt, str_lt_irrefl, str_lt_connex}
use nixplan.Sorted.{contains, sorted_set, text_order}

abbrev pub Dict {ℓ} : Type ℓ → Type ℓ
Dict V = List (String × V)

module _ {ℓ} {V : Type ℓ} where
  -- `d.get(k)`
  unfoldable pub get : Dict V → String → Option V
  get [] k = none
  get ((j, v) ∷ d) k = if str_eq j k then some v else get d k

  -- `list(d)` and `d.values()`
  abbrev pub keys : Dict V → List String
  keys [] = []
  keys ((k, v) ∷ d) = k ∷ keys d

  abbrev pub values : Dict V → List V
  values [] = []
  values ((k, v) ∷ d) = v ∷ values d

  -- `k in d`
  unfoldable pub has : Dict V → String → Bool
  unfolding contains
  has d k = contains k (keys d)

  -- `d[k] = v`
  unfoldable pub put : Dict V → String → V → Dict V
  put [] k v = (k, v) ∷ []
  put ((j, w) ∷ d) k v = if str_eq j k then (k, v) ∷ d else (j, w) ∷ put d k v

  unfoldable pub insert_item : String → V → Dict V → Dict V
  insert_item k v [] = (k, v) ∷ []
  insert_item k v ((j, w) ∷ d) =
      let rest = insert_item k v d in
      if str_lt k j then (k, v) ∷ (j, w) ∷ d else if str_lt j k then (j, w) ∷ rest else (k, v) ∷ d

  -- `sorted(d.items())`
  unfoldable pub sorted_items : Dict V → Dict V
  unfolding insert_item
  sorted_items [] = []
  sorted_items ((k, v) ∷ d) = insert_item k v (sorted_items d)

  pub get-put :
      (d : Dict V) (k j : String) (v : V)
      → get (put d k v) j ≡ (if str_eq k j then some v else get d j)
  unfolding get put
  get-put [] k j v = refl
  get-put ((i, w) ∷ d) k j v = ground (arith, eq_iff k j, eq_iff i k, eq_iff i j, get-put d k j v)

  get-insert_item :
      (d : Dict V) (k j : String) (v : V)
      → get (insert_item k v d) j ≡ (if str_eq k j then some v else get d j)
  unfolding get insert_item
  get-insert_item [] k j v = refl
  get-insert_item ((i, w) ∷ d) k j v =
      ground
        (arith, eq_iff k j, eq_iff i j, str_lt_irrefl i, str_lt_connex k i, get-insert_item d k j v)

  -- Sorting a `dict` keeps what each key is mapped to.
  pub get-sorted_items : (d : Dict V) (k : String) → get (sorted_items d) k ≡ get d k
  unfolding sorted_items get
  get-sorted_items [] k = refl
  get-sorted_items ((j, v) ∷ d) k =
      ground (arith, get-insert_item (sorted_items d) j k v, get-sorted_items d k)
