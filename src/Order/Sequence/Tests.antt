-- ===== src/Order/Sequence/Tests.antt =====
-- The walk over two components.
use nixplan.Prelude.{
  ℕ, zero, suc, length, String, ◌≡◌, ◌≢◌, ◌<◌, ◌-◌, refl, true, List, [], ◌∷◌, flatten, arith,
}
use nixplan.Text.{str_lt}
use nixplan.Errors.{ok, traverse}
use nixplan.Sorted.{text_order, nat_order, pair_order, contains, count}
use nixplan.Order.Components.{Forward}
use nixplan.Order.Sequence.{sequence, group_at, place_of, placed_link, links}
use nixplan.Order.Sequence.Correct.{Precedes}
use nixplan.Order.Sequence.Ordered.{sequence-Precedes}
use nixplan.Order.Sequence.Once.{count-sequence}
use nixplan.Order.Sequence.Total.{sequence-ok}

-- "b" reads "a", and its component stands first.
abbrev groups : List (List String)
groups = ("b" ∷ []) ∷ ("a" ∷ []) ∷ []

abbrev forward : Forward
forward = ("a", "b" ∷ []) ∷ ("b", []) ∷ []

sequence-groups : sequence groups forward ≡ ok (("a" ∷ []) ∷ ("b" ∷ []) ∷ [])
unfolding sequence str_lt
sequence-groups = refl

linked : contains ("a", "b") (links forward) ≡ true
unfolding links contains
linked = refl

apart : place_of groups "a" ≢ place_of groups "b"
unfolding place_of
apart h = cc

sequence-Precedes_example : Precedes "a" "b" (("a" ∷ []) ∷ ("b" ∷ []) ∷ [])
sequence-Precedes_example =
    sequence-Precedes groups forward (("a" ∷ []) ∷ ("b" ∷ []) ∷ []) "a" "b" sequence-groups linked
      apart

count-sequence_example :
    count {A = String} "a" (flatten (("a" ∷ []) ∷ ("b" ∷ []) ∷ []))
    ≡ count {A = String} "a" (flatten groups)
count-sequence_example =
    count-sequence groups forward (("a" ∷ []) ∷ ("b" ∷ []) ∷ []) sequence-groups "a"

placed : traverse (placed_link groups) (links forward) ≡ ok ((1, 0) ∷ [])
unfolding traverse placed_link links
placed = refl

abbrev rank : ℕ → ℕ
rank i = 1 - i

rises : (g r : ℕ) → contains {A = ℕ × ℕ} (g, r) ((1, 0) ∷ []) ≡ true → g ≢ r → rank g < rank r
unfolding contains
rises g r c other = ground arith

has_entries : (i : ℕ) → i < length groups → group_at groups i ≢ []
unfolding group_at
has_entries zero l e = cc
has_entries (suc zero) l e = cc
has_entries (suc (suc i)) l e = absurd (omega arith)

sequence-ok_example : (walked : List (List String)) × (sequence groups forward ≡ ok walked)
sequence-ok_example = sequence-ok groups forward ((1, 0) ∷ []) rank has_entries placed rises
