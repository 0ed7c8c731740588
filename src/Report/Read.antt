-- ===== src/Report/Read.antt =====
-- cli/report.py: what the reading of an answer keeps.
use Prim.Native.String as Text
use text.Mathlib.TextLemmas.{append-nil as text_append-nil, append_assoc as text_append_assoc}
use nixplan.Prelude.{
  String, str_eq, eq_iff, ap, sym, subst, ◌≡◌, refl, ◌∙◌, Bool, true, false, not, ◌&&◌, some, List,
  [], ◌∷◌, any, flat_map, arith, if◌then◌else◌, Bool-cases, inl, inr,
}
use nixplan.Text.Words.{fstring, after_prefix}
use nixplan.Sorted.{text_order, pair_order, contains}
use nixplan.Sorted.Laws.{contains-append}
use nixplan.Remote.Named.{after_prefix-append}
use nixplan.Report.{
  verdict, Image, image_held, first_mine, or_first, held_image, opens, missing_copy, closed,
}

missing-not-opens :
    (ws : List String)
    → contains missing_copy ws ≡ true
    → any (λ word. not (str_eq word opens)) ws ≡ true
unfolding contains
missing-not-opens [] h = cc
missing-not-opens (w ∷ ws) h = elim (Bool-cases (str_eq w missing_copy)) [
  | inl y ↦
      let word : str_eq w opens ≡ false = ap (λ z. str_eq z opens) ((eq_iff w missing_copy).0 y) in
      ground arith
  | inr n ↦ ground (arith, missing-not-opens ws)
]

unfoldable chosen : (m c : Bool) → String
chosen m c = if m then missing_copy else if c then closed else opens

chosen-word :
    (m c : Bool)
    → (str_eq (chosen m c) opens ≡ (not m && not c)) × (str_eq (chosen m c) missing_copy ≡ m)
unfolding chosen
chosen-word true c = (refl, refl)
chosen-word false true = (refl, refl)
chosen-word false false = (refl, refl)

-- One verdict for all the copies of a value: it opens exactly where every copy's word says so, and a
-- copy is missing exactly where one of the words says so.
pub verdict-opens :
    (ws : List String)
    → (str_eq (verdict ws) opens ≡ not (any (λ word. not (str_eq word opens)) ws))
      × (str_eq (verdict ws) missing_copy ≡ contains missing_copy ws)
unfolding verdict chosen
verdict-opens ws =
    let word = chosen-word (contains missing_copy ws) (any (λ word. not (str_eq word opens)) ws) in
    let closes = missing-not-opens ws in (word.0 ∙ ground arith, word.1)

-- This build's image before another build's.
first_mine-contains :
    (mine name identity state : String) (is : List Image)
    → contains {A = Image} (identity, state) is ≡ true
    → fstring (name ∷ "_" ∷ identity ∷ []) ≡ mine
    → (found : Image) × (first_mine mine name is ≡ some found)
      × (fstring (name ∷ "_" ∷ found.0 ∷ []) ≡ mine)
unfolding first_mine contains
first_mine-contains mine name identity state [] h e = cc
first_mine-contains mine name identity state ((j, t) ∷ is) h e =
    elim (Bool-cases (str_eq (fstring (name ∷ "_" ∷ j ∷ [])) mine)) [
      | inl y ↦ ((j, t), ground arith, (eq_iff (fstring (name ∷ "_" ∷ j ∷ [])) mine).0 y)
      | inr n ↦
          let named : str_eq j identity ≡ true
              → str_eq (fstring (name ∷ "_" ∷ j ∷ [])) mine ≡ true =
            λ y.
              (eq_iff (fstring (name ∷ "_" ∷ j ∷ [])) mine).1
                (ap (λ z. fstring (name ∷ "_" ∷ z ∷ [])) ((eq_iff j identity).0 y) ∙ e) in
          let (found, first, same) =
            first_mine-contains mine name identity state is (ground arith) e in
          (found, ground arith, same)
    ]

after_prefix-image :
    (name identity : String)
    → after_prefix (fstring (name ∷ "_" ∷ [])) (fstring (name ∷ "_" ∷ identity ∷ []))
      ≡ some identity
after_prefix-image name identity =
    ap (after_prefix (fstring (name ∷ "_" ∷ []))) (
      ap (λ z. Text.◌++◌ name (Text.◌++◌ "_" z)) (text_append-nil identity)
      ∙ sym (text_append_assoc name "_" identity))
    ∙ after_prefix-append (fstring (name ∷ "_" ∷ [])) identity

-- A listed image of the entry that is not detached is held.
contains-image_held :
    (name identity state : String) (listed : List Image)
    → str_eq name "" ≡ false
    → str_eq state "detached" ≡ false
    → contains {A = Image} (fstring (name ∷ "_" ∷ identity ∷ []), state) listed ≡ true
    → contains {A = Image} (identity, state) (flat_map (image_held name) listed) ≡ true
unfolding contains
contains-image_held name identity state [] named held h = cc
contains-image_held name identity state (i ∷ listed) named held h =
    let mine : Image = (fstring (name ∷ "_" ∷ identity ∷ []), state) in
    contains-append {A = Image} (identity, state) (image_held name i)
      (flat_map (image_held name) listed)
    ∙ elim (Bool-cases (pair_order.eq i mine)) [
      | inl y ↦
          let same : ◌≡◌ {A = Image} i mine = (pair_order.eq_iff i mine).0 y in
          let one : image_held name mine ≡ (identity, state) ∷ [] =
            rw (named, after_prefix-image name identity, held) refl in
          let here : contains {A = Image} (identity, state) (image_held name i) ≡ true =
            ap (λ z. contains {A = Image} (identity, state) (image_held name z)) same
            ∙ ap (contains {A = Image} (identity, state)) one
            ∙ ground (arith, eq_iff identity identity, eq_iff state state) in
          ground arith
      | inr n ↦
          let later = contains-image_held name identity state listed named held (rw n at h) in
          ground arith
    ]

-- Where a machine lists this build's image of an entry, and not as detached, the image that it is
-- reported to hold for the entry is this build's, whichever other build's it lists before it. The
-- name of this build's image is the name of the entry's images, which is not empty, an underscore
-- and an identity.
pub held_image-mine :
    (mine name identity state : String) (listed : List Image)
    → str_eq name "" ≡ false
    → fstring (name ∷ "_" ∷ identity ∷ []) ≡ mine
    → contains {A = Image} (mine, state) listed ≡ true
    → str_eq state "detached" ≡ false
    → (found : Image) × (held_image mine name listed ≡ some found)
      × (fstring (name ∷ "_" ∷ found.0 ∷ []) ≡ mine)
unfolding held_image
held_image-mine mine name identity state listed named e lists attached =
    let there =
      contains-image_held name identity state listed named attached
        (subst (λ z. contains {A = Image} (z, state) listed ≡ true) (sym e) lists) in
    let (found, first, same) =
      first_mine-contains mine name identity state (flat_map (image_held name) listed) there e in
    (found, ap (λ o. or_first o (flat_map (image_held name) listed)) first, same)
