-- ===== src/Text/Split/Joined.antt =====
-- `shlex.split` of what `shlex.join` made.
use Prim.Native.Char.{Char, code}
use Prim.Native.Nat.{Ordering, compare as compare_ℕ}
use Prim.Native.String as Text
use text.Mathlib.TextEquality.{codes_equal}
use text.Mathlib.TextLemmas.{nil-append, cons-append, append-nil, append_assoc}
use nixplan.Prelude.{
  ℕ, String, str_eq, eq_iff, true, false, Bool-cases, inl, inr, and_true, ◌≡◌, refl, sym, ap, ◌∙◌,
  some, List, [], ◌∷◌, ◌==◌, arith,
}
use nixplan.Text.Words.{join_by}
use nixplan.Text.Shell.{is_safe, every_point, replace_quotes, quote}
use nixplan.Text.Split.{
  Kind, blank, apostrophe, quotation, backslash, plain, kind, between, in_word, single, push,
  new_word, split_in, split, join,
}

abbrev and_text : String → String → String
and_text s t = Text.◌++◌ s t

-- What may follow a word: nothing, or a blank.
abbrev Follows : String → List String → Type 0
Follows rest later = split_in in_word rest ≡ some ("" ∷ later)

kind_safe : (c : ℕ) → is_safe c ≡ true → kind c ≡ plain
unfolding is_safe
kind_safe c h = ground arith

kind_apostrophe : (c : ℕ) → (c == 39) ≡ true → kind c ≡ apostrophe
kind_apostrophe c h = ground arith

is_apostrophe : (c : Char) → (code c == 39) ≡ true → c ≡ "'"
is_apostrophe c h = codes_equal c "'" (same (code c) h)
  where
    same : (n : ℕ) → (n == 39) ≡ true → compare_ℕ n 39 ≡ Ordering.eq
    same n h = ground arith

after_plain :
    (c : Char) (s : String)
    → kind (code c) ≡ plain
    → split_in in_word (String.◌∷◌ c s) ≡ push c (split_in in_word s)
unfolding split_in
after_plain c s k = rw (k, split_in) refl

first_plain :
    (c : Char) (s : String)
    → kind (code c) ≡ plain
    → split_in between (String.◌∷◌ c s) ≡ push c (split_in in_word s)
unfolding split_in
first_plain c s k = rw (k, split_in) refl

kind_other : (n : ℕ) → (n == 39) ≡ false → kind n ≡ apostrophe → plain ≡ apostrophe
kind_other n h k = ground arith

after_other :
    (c : Char) (s : String)
    → (code c == 39) ≡ false
    → split_in single (String.◌∷◌ c s) ≡ push c (split_in single s)
unfolding split_in
after_other c s n = by_kind (kind (code c)) (kind_other (code c) n)
  where
    by_kind :
        (k : Kind)
        → (k ≡ apostrophe → plain ≡ apostrophe)
        → elim k [ apostrophe ↦ split_in in_word s | _ ↦ push c (split_in single s) ]
          ≡ push c (split_in single s)
    by_kind apostrophe e = cc (e refl)
    by_kind blank e = refl
    by_kind quotation e = refl
    by_kind backslash e = refl
    by_kind plain e = refl

after_apostrophe : (s : String) → split_in single (String.◌∷◌ "'" s) ≡ split_in in_word s
unfolding split_in
after_apostrophe s = refl

replaced : (t : String) → split_in single (and_text "'\"'\"'" t) ≡ push "'" (split_in single t)
unfolding split_in
replaced t = ap (split_in single) (
    cons-append "'" "\"'\"'" t
    ∙ ap (String.◌∷◌ "'") (
        cons-append "\"" "'\"'" t
        ∙ ap (String.◌∷◌ "\"") (
            cons-append "'" "\"'" t
            ∙ ap (String.◌∷◌ "'") (
                cons-append "\"" "'" t
                ∙ ap (String.◌∷◌ "\"")
                    (cons-append "'" "" t ∙ ap (String.◌∷◌ "'") (nil-append t))))))

split_in-safe :
    (w rest : String) (later : List String)
    → every_point is_safe w ≡ true
    → Follows rest later
    → split_in in_word (and_text w rest) ≡ some (w ∷ later)
split_in-safe String.[] rest later safe h = ap (split_in in_word) (nil-append rest) ∙ h
split_in-safe (String.◌∷◌ c w) rest later safe h =
    ap (split_in in_word) (cons-append c w rest)
    ∙ after_plain c (and_text w rest)
        (kind_safe (code c) (and_true (is_safe (code c)) (every_point is_safe w) safe).0)
    ∙ ap (push c)
        (split_in-safe w rest later (and_true (is_safe (code c)) (every_point is_safe w) safe).1 h)

split_in-single :
    (w rest : String) (later : List String)
    → Follows rest later
    → split_in single (and_text (replace_quotes w) (String.◌∷◌ "'" rest)) ≡ some (w ∷ later)
unfolding replace_quotes
split_in-single String.[] rest later h =
    ap (split_in single) (nil-append (String.◌∷◌ "'" rest)) ∙ after_apostrophe rest ∙ h
split_in-single (String.◌∷◌ c w) rest later h = elim (Bool-cases (code c == 39)) [
  | inl y ↦ rw y (
      ap (split_in single) (append_assoc "'\"'\"'" (replace_quotes w) (String.◌∷◌ "'" rest))
      ∙ replaced (and_text (replace_quotes w) (String.◌∷◌ "'" rest))
      ∙ ap (push "'") (split_in-single w rest later h)
      ∙ ap (λ d. some (String.◌∷◌ d w ∷ later)) (sym (is_apostrophe c y)))
  | inr n ↦ rw n (
      ap (split_in single) (cons-append c (replace_quotes w) (String.◌∷◌ "'" rest))
      ∙ after_other c (and_text (replace_quotes w) (String.◌∷◌ "'" rest)) n
      ∙ ap (push c) (split_in-single w rest later h))
]

safe_word :
    (w rest : String) (later : List String)
    → str_eq w "" ≡ false
    → every_point is_safe w ≡ true
    → Follows rest later
    → split_in between (and_text w rest) ≡ some (w ∷ later)
safe_word String.[] rest later n safe h = cc
safe_word (String.◌∷◌ c w) rest later n safe h =
    ap (split_in between) (cons-append c w rest)
    ∙ first_plain c (and_text w rest)
        (kind_safe (code c) (and_true (is_safe (code c)) (every_point is_safe w) safe).0)
    ∙ ap (push c)
        (split_in-safe w rest later (and_true (is_safe (code c)) (every_point is_safe w) safe).1 h)

one : (c : Char) (t : String) → and_text (String.◌∷◌ c "") t ≡ String.◌∷◌ c t
one c t = cons-append c "" t ∙ ap (String.◌∷◌ c) (nil-append t)

empty_word :
    (rest : String) (later : List String)
    → Follows rest later
    → split_in between (and_text "''" rest) ≡ some ("" ∷ later)
unfolding split_in
empty_word rest later h =
    ap (split_in between) (cons-append "'" "'" rest ∙ ap (String.◌∷◌ "'") (one "'" rest)) ∙ h

quoted_word :
    (w rest : String) (later : List String)
    → Follows rest later
    → split_in between (and_text (and_text "'" (and_text (replace_quotes w) "'")) rest)
      ≡ some (w ∷ later)
unfolding split_in
quoted_word w rest later h =
    ap (split_in between) (
      append_assoc "'" (and_text (replace_quotes w) "'") rest
      ∙ one "'" (and_text (and_text (replace_quotes w) "'") rest)
      ∙ ap (String.◌∷◌ "'") (
          append_assoc (replace_quotes w) "'" rest
          ∙ ap (and_text (replace_quotes w)) (one "'" rest)))
    ∙ split_in-single w rest later h

-- A word is read back from its quotation, whatever follows it.
split_in-quote :
    (w rest : String) (later : List String)
    → Follows rest later
    → split_in between (and_text (quote w) rest) ≡ some (w ∷ later)
unfolding quote
split_in-quote w rest later h = elim (Bool-cases (str_eq w "")) [
  | inl y ↦ rw y (empty_word rest later h ∙ ap (λ v. some (v ∷ later)) (sym ((eq_iff w "").0 y)))
  | inr n ↦ elim (Bool-cases (every_point is_safe w)) [
    | inl safe ↦ rw (n, safe) (safe_word w rest later n safe h)
    | inr other ↦ rw (n, other) (quoted_word w rest later h)
  ]
]

-- The words that were joined are read back, whatever characters they have.
pub split-join : (ws : List String) → split (join ws) ≡ some ws
unfolding split join join_by split_in
split-join [] = refl
split-join (w ∷ []) =
    ap (split_in between) (sym (append-nil (quote w))) ∙ split_in-quote w "" [] refl
split-join (w ∷ v ∷ ws) =
    split_in-quote w (and_text " " (join (v ∷ ws))) (v ∷ ws)
      (ap (split_in in_word) (one " " (join (v ∷ ws))) ∙ ap new_word (split-join (v ∷ ws)))
