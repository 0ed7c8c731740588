-- ===== src/Text.antt =====
-- Python's `str`: equality, and the order by code points that `sorted` puts names in.
pub mod Words
pub mod Shell
pub mod Split
use Prim.Native.Char.{Char, code}
use Prim.Native.String.compare
use Prim.Native.String.{compare, then as lexicographic, [], ◌∷◌}
use Prim.Native.Nat.{Ordering, compare as compare_ℕ}
use text.Mathlib.Text.{is_lt}
use text.Mathlib.TextEquality.{codes_equal}
use text.Mathlib.TextPositions.{compare_refl}
use nixplan.Prelude.{ℕ, String, ◌≡◌, refl, ap₂, Bool, true, false, arith, ltb, if◌then◌else◌}

unfoldable pub str_lt : String → String → Bool
str_lt s t = is_lt (compare s t)

pub str_lt_irrefl : (s : String) → str_lt s s ≡ false
unfolding str_lt
str_lt_irrefl s = rw (compare_refl s)

is_lt-lexicographic :
    (m n : ℕ) (o : Ordering)
    → is_lt (lexicographic (compare_ℕ m n) o)
      ≡ (if ltb m n then true else if ltb n m then false else is_lt o)
is_lt-lexicographic m n o = ground arith

str_lt-cons :
    (c d : Char) (s t : String)
    → str_lt (c ∷ s) (d ∷ t) ≡ (
        if ltb (code c) (code d) then true else if ltb (code d) (code c) then false else str_lt s t)
unfolding str_lt
str_lt-cons c d s t =
    rw (compare.cons-cons c d s t) (is_lt-lexicographic (code c) (code d) (compare s t))

str_lt-nil : (d : Char) (t : String) → str_lt [] (d ∷ t) ≡ true
unfolding str_lt
str_lt-nil d t = rw (compare.nil-cons d t)

not-str_lt-nil : (s : String) → str_lt s [] ≡ false
unfolding str_lt
not-str_lt-nil [] = refl
not-str_lt-nil (c ∷ s) = rw (compare.cons-nil c s)

pub str_lt_trans : (s t u : String) → str_lt s t ≡ true → str_lt t u ≡ true → str_lt s u ≡ true
str_lt_trans s t [] h k = cc (not-str_lt-nil t)
str_lt_trans s [] (e ∷ u) h k = cc (not-str_lt-nil s)
str_lt_trans [] (d ∷ t) (e ∷ u) h k = str_lt-nil e u
str_lt_trans (c ∷ s) (d ∷ t) (e ∷ u) h k =
    ground
      (arith, str_lt-cons c d s t, str_lt-cons d e t u, str_lt-cons c e s u, str_lt_trans s t u)

codes_le : (m n : ℕ) → ltb m n ≡ false → ltb n m ≡ false → compare_ℕ m n ≡ Ordering.eq
codes_le m n h k = ground arith

-- Two texts neither of which stands before the other are equal.
pub str_lt_connex : (s t : String) → str_lt s t ≡ false → str_lt t s ≡ false → s ≡ t
str_lt_connex [] [] h k = refl
str_lt_connex [] (d ∷ t) h k = cc (str_lt-nil d t)
str_lt_connex (c ∷ s) [] h k = cc (str_lt-nil c s)
str_lt_connex (c ∷ s) (d ∷ t) h k =
    let first : compare_ℕ (code c) (code d) ≡ Ordering.eq =
      codes_le _ _ (ground (arith, str_lt-cons c d s t)) (ground (arith, str_lt-cons d c t s)) in
    let rest : s ≡ t =
      str_lt_connex s t (ground (arith, str_lt-cons c d s t, str_lt-cons d c t s))
        (ground (arith, str_lt-cons c d s t, str_lt-cons d c t s)) in
    ap₂ ◌∷◌ (codes_equal c d first) rest
