-- ===== src/Report/Each/Adding.antt =====
-- cli/report.py: the entries that a part of a `status` answers for.
use nixplan.Prelude.{
  String, Bool, true, false, ◌≡◌, refl, sym, ap, ◌∙◌, List, [], ◌∷◌, ◌++◌, append_assoc,
  if◌then◌else◌,
}
use nixplan.Errors.{Result, ok, raises}
use nixplan.Manifest.{Entry}
use nixplan.Report.Lines.{Verdict, of_entry, of_value, of_holding}
use nixplan.Report.Status.{Told, Asked, goes_on, ends, and_ask, settle_told, reverse_onto}

abbrev pub Placed : Type 0
Placed = String × String

abbrev pub placed : Entry → Placed
placed e = (e.key, e.machine)

-- The key and the machine of each answer about an entry.
abbrev pub entries_answered : List Verdict → List Placed
entries_answered [] = []
entries_answered (of_entry a ∷ answers) = (a.key, a.machine) ∷ entries_answered answers
entries_answered (of_value v ∷ answers) = entries_answered answers
entries_answered (of_holding machine h ∷ answers) = entries_answered answers

-- The same of answers of which the last one stands first, before others.
abbrev pub answered_onto : List Verdict → List Placed → List Placed
answered_onto [] onto = onto
answered_onto (of_entry a ∷ answers) onto = answered_onto answers ((a.key, a.machine) ∷ onto)
answered_onto (of_value v ∷ answers) onto = answered_onto answers onto
answered_onto (of_holding machine h ∷ answers) onto = answered_onto answers onto

pub entries_answered-reverse_onto :
    (xs onto : List Verdict)
    → entries_answered (reverse_onto xs onto) ≡ answered_onto xs (entries_answered onto)
entries_answered-reverse_onto [] onto = refl
entries_answered-reverse_onto (of_entry a ∷ xs) onto =
    entries_answered-reverse_onto xs (of_entry a ∷ onto)
entries_answered-reverse_onto (of_value v ∷ xs) onto =
    entries_answered-reverse_onto xs (of_value v ∷ onto)
entries_answered-reverse_onto (of_holding machine h ∷ xs) onto =
    entries_answered-reverse_onto xs (of_holding machine h ∷ onto)

module _ {S : Type 0} where
  -- Where a part of a report goes on, it answered for these entries.
  abbrev pub AddsTo : List Placed → Told S → Told S → Type 0
  AddsTo ps t t1 =
      (onto : List Placed) → answered_onto t1.answers onto ≡ answered_onto t.answers (ps ++ onto)

  abbrev pub Adds : List Placed → Told S → Asked S → Type 0
  Adds ps t (goes_on t1) = AddsTo ps t t1
  Adds ps t (ends t1 e) = Unit

  after-Adds :
      (ps qs : List Placed) (t t1 : Told S) (m : Asked S)
      → AddsTo ps t t1
      → Adds qs t1 m
      → Adds (ps ++ qs) t m
  after-Adds ps qs t t1 (goes_on t2) h k =
      λ onto. k onto ∙ h (qs ++ onto) ∙ ap (answered_onto t.answers) (sym (append_assoc ps qs onto))
  after-Adds ps qs t t1 (ends t2 e) h k = tt

  pub and_ask-Adds :
      (ps qs : List Placed) (t : Told S) (m : Asked S) (f : Told S → Asked S)
      → Adds ps t m
      → ((t1 : Told S) → Adds qs t1 (f t1))
      → Adds (ps ++ qs) t (and_ask m f)
  and_ask-Adds ps qs t (goes_on t1) f h k = after-Adds ps qs t t1 (f t1) h (k t1)
  and_ask-Adds ps qs t (ends t1 e) f h k = tt

  pub settle_told-Adds :
      {A : Type 0} (ps : List Placed) (t : Told S) (r : Result A) (f : A → Asked S)
      → ((a : A) → Adds ps t (f a))
      → Adds ps t (settle_told t r f)
  settle_told-Adds ps t (ok a) f h = h a
  settle_told-Adds ps t (raises e) f h = tt

  pub choice-Adds :
      (ps : List Placed) (t : Told S) (c : Bool) (m n : Asked S)
      → Adds ps t m
      → Adds ps t n
      → Adds ps t (if c then m else n)
  choice-Adds ps t true m n h k = h
  choice-Adds ps t false m n h k = k

  pub choice-AddsTo :
      (ps : List Placed) (t : Told S) (c : Bool) (m n : Told S)
      → AddsTo ps t m
      → AddsTo ps t n
      → AddsTo ps t (if c then m else n)
  choice-AddsTo ps t true m n h k = h
  choice-AddsTo ps t false m n h k = k
