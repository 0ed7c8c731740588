-- ===== src/Report/Told/Said.antt =====
-- cli/report.py: the lines of the answers of a report, and what saying a line leaves as it is.
use nixplan.Prelude.{
  String, str_eq, Bool, true, false, ◌&&◌, ◌||◌, Option, Bool-cases, inl, inr, ◌≡◌, refl, sym, ap,
  ◌∙◌, none, some, List, [], ◌∷◌, arith,
}
use nixplan.Prelude.Int.{ℤ}
use nixplan.Errors.{Result, ok, raises, ok-injective}
use nixplan.Sorted.{text_order, contains}
use nixplan.Json.{Json}
use nixplan.Paths.{FilePath}
use nixplan.Manifest.{Entry, Deployment}
use nixplan.Report.Lines.{Verdict, lines_of}
use nixplan.Report.Status.{Asker, asked_of, Reader, Told, say_lines, ask_at, reverse_onto}

-- The line is one of an answer's.
abbrev pub is_told : (Json → String) → String → List Verdict → Bool
is_told str line [] = false
is_told str line (a ∷ answers) = contains line (lines_of str a) || is_told str line answers

pub swap : (a b c : Bool) → (a || (b || c)) ≡ ((b || a) || c)
swap a b c = ground arith

pub already : (b c d : Bool) → (b ≡ true → d ≡ true) → (c || d) ≡ ((b || c) || d)
already b c d h = ground arith

pub contains-reverse_onto :
    (line : String) (xs onto : List String)
    → contains line (reverse_onto xs onto) ≡ (contains line xs || contains line onto)
unfolding contains
contains-reverse_onto line [] onto = refl
contains-reverse_onto line (x ∷ xs) onto =
    contains-reverse_onto line xs (x ∷ onto)
    ∙ swap (contains line xs) (str_eq x line) (contains line onto)

pub is_told-reverse_onto :
    (str : Json → String) (line : String) (xs onto : List Verdict)
    → is_told str line (reverse_onto xs onto) ≡ (is_told str line xs || is_told str line onto)
is_told-reverse_onto str line [] onto = refl
is_told-reverse_onto str line (x ∷ xs) onto =
    is_told-reverse_onto str line xs (x ∷ onto)
    ∙ swap (is_told str line xs) (contains line (lines_of str x)) (is_told str line onto)

pub or_false : (b c : Bool) → b ≡ c → (b || false) ≡ (c || false)
or_false b c e = ap (λ z. z || false) e

pub answers-say_lines :
    {S : Type 0} (once : Bool) (ls : List String) (t : Told S)
    → (say_lines once ls t).answers ≡ t.answers
unfolding say_lines
answers-say_lines once [] t = refl
answers-say_lines once (l ∷ ls) t = elim (Bool-cases (once && contains l t.lines)) [
  | inl y ↦ rw y (answers-say_lines once ls t)
  | inr n ↦ rw n (answers-say_lines once ls (record t { lines = l ∷ t.lines }))
]

asked_of-same :
    {S : Type 0} (asker : Asker S) (t t1 : Told S) (address : String) (answer : ℤ × String)
    (script : Result String)
    → asked_of asker t address script ≡ ok (t1, answer)
    → (t1.lines ≡ t.lines) × (t1.answers ≡ t.answers)
asked_of-same asker t t1 address answer (raises x) asked = cc
asked_of-same asker t t1 address answer (ok script) asked =
    let same = ok-injective asked in
    (ap (λ z. (z.0).lines) (sym same), ap (λ z. (z.0).answers) (sym same))

-- A question of an entry says nothing by itself.
pub ask_at-same :
    {S : Type 0} (reader : Reader) (d : Deployment) (asker : Asker S) (e : Entry)
    (path : Option FilePath) (address : Option String) (t t1 : Told S) (answer : ℤ × String)
    → ask_at reader d asker e path address t ≡ ok (t1, answer)
    → (t1.lines ≡ t.lines) × (t1.answers ≡ t.answers)
unfolding ask_at
ask_at-same reader d asker e none address t t1 answer asked =
    let same = ok-injective asked in
    (ap (λ z. (z.0).lines) (sym same), ap (λ z. (z.0).answers) (sym same))
ask_at-same reader d asker e (some path) none t t1 answer asked =
    let same = ok-injective asked in
    (ap (λ z. (z.0).lines) (sym same), ap (λ z. (z.0).answers) (sym same))
ask_at-same reader d asker e (some path) (some address) t t1 answer asked =
    asked_of-same asker t t1 address answer _ asked
