-- ===== src/Dict/Laws.antt =====
-- The keys of a sorted `dict`, and what filtering one keeps.
use nixplan.Prelude.{
  String, str_eq, eq_iff, ◌≡◌, refl, ap, ◌∙◌, Bool, true, false, Option, none, some, [], ◌∷◌, arith,
  filter, Bool-cases, inl, inr,
}
use nixplan.Text.{str_lt_irrefl, str_lt_connex}
use nixplan.Sorted.{text_order, contains, sorted_set, insert, IsSorted, Below}
use nixplan.Dict.{Dict, get, keys, has, insert_item, sorted_items}

module _ {ℓ} {V : Type ℓ} where
  keys-insert_item :
      (k : String) (v : V) (d : Dict V) → keys (insert_item k v d) ≡ insert k (keys d)
  unfolding insert_item insert
  keys-insert_item k v [] = refl
  keys-insert_item k v ((j, w) ∷ d) = ground (arith, keys-insert_item k v d, str_lt_connex k j)

  pub keys-sorted_items : (d : Dict V) → keys (sorted_items d) ≡ sorted_set (keys d)
  unfolding sorted_items sorted_set
  keys-sorted_items [] = refl
  keys-sorted_items ((k, v) ∷ d) =
      keys-insert_item k v (sorted_items d) ∙ ap (insert k) (keys-sorted_items d)

  -- A key is there exactly where `get` finds a value.
  abbrev pub is_found : Option V → Bool
  is_found none = false
  is_found (some v) = true

  pub has-eq-is_found : (d : Dict V) (k : String) → has d k ≡ is_found (get d k)
  unfolding has get contains
  has-eq-is_found [] k = refl
  has-eq-is_found ((j, v) ∷ d) k = ground (arith, has-eq-is_found d k)

  abbrev pub passes : (String × V → Bool) → String → Option V → Bool
  passes p k none = false
  passes p k (some v) = p (k, v)

  not-contains-filter :
      (p : String × V → Bool) (k : String) (d : Dict V)
      → Below k (keys d)
      → contains k (keys (filter p d)) ≡ false
  unfolding contains
  not-contains-filter p k [] b = refl
  not-contains-filter p k ((j, v) ∷ d) b =
      ground (arith, not-contains-filter p k d b.1, eq_iff j k, str_lt_irrefl k)

  -- Of a `dict` with increasing keys, a filter keeps the keys whose item passes.
  pub contains-keys-filter :
      (p : String × V → Bool) (k : String) (d : Dict V)
      → IsSorted (keys d)
      → contains k (keys (filter p d)) ≡ passes p k (get d k)
  unfolding contains get
  contains-keys-filter p k [] s = refl
  contains-keys-filter p k ((j, v) ∷ d) s = elim (Bool-cases (str_eq j k)) [
    | inl e ↦
        let same : j ≡ k = (eq_iff j k).0 e in
        let absent = not-contains-filter p j d s.0 in
        let here : p (j, v) ≡ p (k, v) = ap (λ z. p (z, v)) same in
        let moved : contains j (keys (filter p d)) ≡ contains k (keys (filter p d)) =
          ap (λ z. contains z (keys (filter p d))) same in
        ground arith
    | inr e ↦ ground (arith, contains-keys-filter p k d s.1)
  ]
