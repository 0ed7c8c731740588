-- ===== src/Order/Edges.antt =====
-- cli/order.py: which edges the order is computed from.
use nixplan.Prelude.{
  String, str_eq, eq_iff, ap, ap₂, ◌≡◌, refl, sym, ◌∙◌, Bool, true, not, ◌&&◌, ◌||◌, List, [], ◌∷◌,
  map, filter, any, arith, Bool-cases, inl, inr,
}
use nixplan.Errors.{ok, traverse_flat, ◌>>=◌, >>=-ok, ok-injective}
use nixplan.Sorted.{Ord, text_order, pair_order, contains, sorted_set}
use nixplan.Sorted.Laws.{contains-append, contains-sorted_set, sorted_set_ext}
use nixplan.Order.{
  Plan, Read, Pair, reads, providers_of, reading_of, reading, is_edge, flip, edges, walk,
  forward_of, result_of,
}
use nixplan.Order.Components.{components}
use nixplan.Order.Sequence.{sequence}

-- Whether one of the reads names a provider.
abbrev pub is_read : List Read → String → Bool
is_read rs p = any (λ (r : Read). contains p r.providers) rs

contains-pairs :
    (c : String) (ps : List String) (a p : String)
    → contains {A = Pair} (a, p) (map (λ q. (c, q)) ps) ≡ (str_eq c a && contains p ps)
unfolding contains
contains-pairs c [] a p = ground arith
contains-pairs c (q ∷ ps) a p = ground (arith, contains-pairs c ps a p)

contains-providers_of :
    (c : String) (rs : List Read) (a p : String)
    → contains (a, p) (providers_of c rs) ≡ (str_eq c a && is_read rs p)
unfolding contains
contains-providers_of c [] a p = ground arith
contains-providers_of c (r ∷ rs) a p =
    let here =
      contains-append {A = Pair} (a, p) (map (λ q. (c, q)) r.providers) (providers_of c rs) in
    ground (arith, here, contains-pairs c r.providers a p, contains-providers_of c rs a p)

contains-reading_of :
    (plan : Plan) (c a p : String) (rs : List Read) {found : List Pair}
    → reads plan a ≡ ok rs
    → reading_of plan c ≡ ok found
    → contains (a, p) found ≡ (str_eq c a && is_read rs p)
unfolding reading_of
contains-reading_of plan c a p rs {found} hr h =
    let (rs1, reads_ok, h1) = >>=-ok (reads plan c) _ h in
    let there : contains (a, p) found ≡ (str_eq c a && is_read rs1 p) =
      ap (contains (a, p)) (sym (ok-injective h1)) ∙ contains-providers_of c rs1 a p in
    elim (Bool-cases (str_eq c a)) [
      | inl y ↦
          let same : rs1 ≡ rs =
            ok-injective (sym reads_ok ∙ ap (reads plan) ((eq_iff c a).0 y) ∙ hr) in
          there ∙ ap (λ x. str_eq c a && is_read x p) same
      | inr n ↦ ground arith
    ]

contains-readings :
    (plan : Plan) (cs : List String) (a p : String) (rs : List Read) {found : List Pair}
    → reads plan a ≡ ok rs
    → traverse_flat (reading_of plan) cs ≡ ok found
    → contains (a, p) found ≡ (contains a cs && is_read rs p)
unfolding traverse_flat contains
contains-readings plan [] a p rs {found} hr h = ap (contains (a, p)) (sym (ok-injective h))
contains-readings plan (c ∷ cs) a p rs {found} hr h =
    let (here, h0, h1) = >>=-ok (reading_of plan c) _ h in
    let (later, h2, h3) = >>=-ok (traverse_flat (reading_of plan) cs) _ h1 in
    let first = contains-reading_of plan c a p rs hr h0 in
    let rest = contains-readings plan cs a p rs hr h2 in
    let whole : contains (a, p) found ≡ (contains (a, p) here || contains (a, p) later) =
      ap (contains (a, p)) (sym (ok-injective h3)) ∙ contains-append (a, p) here later in
    ground arith

contains-map-flip :
    (p c : String) (es : List Pair) → contains (p, c) (map flip es) ≡ contains (c, p) es
unfolding contains
contains-map-flip p c [] = refl
contains-map-flip p c ((a, b) ∷ es) = ground (arith, contains-map-flip p c es)

contains-filter_pairs :
    (test : Pair → Bool) (m : Pair) (xs : List Pair)
    → contains m (filter test xs) ≡ (contains m xs && test m)
unfolding contains
contains-filter_pairs test m [] = refl
contains-filter_pairs test m (x ∷ xs) =
    let o : Ord Pair = pair_order in
    let same : o.eq x m ≡ true → test x ≡ test m = λ h. ap test ((o.eq_iff x m).0 h) in
    ground (arith, contains-filter_pairs test m xs)

-- Of the keys that an order is asked for, there is an edge from a provider to a consumer exactly
-- where both are among them, they differ, and one of the resolved reads that the plan records for
-- the consumer names the provider.
pub contains-edges :
    (plan : Plan) (ks : List String) (p c : String) (rs : List Read) (es : List Pair)
    → reads plan c ≡ ok rs
    → edges plan ks ≡ ok es
    → contains (p, c) es ≡ ((contains c ks && is_read rs p) && (contains p ks && not (str_eq p c)))
unfolding edges reading
contains-edges plan ks p c rs es hr h =
    let (found, h0, h1) = >>=-ok (traverse_flat (reading_of plan) (sorted_set ks)) _ h in
    let kept = filter (is_edge ks) found in
    ap (contains (p, c)) (sym (ok-injective h1))
    ∙ contains-map-flip p c (sorted_set kept)
    ∙ contains-sorted_set (c, p) kept
    ∙ contains-filter_pairs (is_edge ks) (c, p) found
    ∙ ap₂ ◌&&◌
        (contains-readings plan (sorted_set ks) c p rs hr h0
          ∙ ap (λ b. b && is_read rs p) (contains-sorted_set c ks))
        refl

-- The edges, and with them the whole walk, depend on which keys are asked for and not on the order
-- or the repetition in which the keys are named.
pub walk-same_keys :
    (plan : Plan) (ks js : List String)
    → ((k : String) → contains k ks ≡ contains k js)
    → walk plan ks ≡ walk plan js
unfolding walk
walk-same_keys plan ks js same =
    ap
      (λ ns. do
        es ← edges plan ns
        groups ← components ns (forward_of ns es)
        applied ← sequence groups (forward_of ns es)
        ok (result_of applied es))
      (sorted_set_ext ks js same)
