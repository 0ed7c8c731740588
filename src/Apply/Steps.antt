-- ===== src/Apply/Steps.antt =====
-- cli/apply.py: the steps of each part of a run, and what the machines answered to them.
use nixplan.Prelude.{
  String, ◌≡◌, refl, sym, ap, ap₂, subst, ◌∙◌, Bool, true, false, Option, none, some, List, [], ◌∷◌,
  ◌++◌, if◌then◌else◌,
}
use nixplan.Errors.{Result, ok, raises}
use nixplan.Text.Words.{words, split_lines}
use nixplan.Sorted.{text_order, contains}
use nixplan.Order.{Pair}
use nixplan.Apply.{Bytes, Write, Unsealer}
use nixplan.Apply.Run.{
  Taken, Step, Outcome, said, exited, Channel, Line, Progress, Ended, went, stopped, raised,
  announced, copy_unsealer, install_unsealer, write_sealed, write_plain, copy_entry, activate,
  restart, record_lines, and_then, settle, moved_by, taken_with, take, install, write_copy,
  write_all, activate_all, restart_all,
}

-- The steps that the lines of a run announce, the first one first.
abbrev pub steps : List Line → List Step
steps [] = []
steps (announced step ∷ lines) = steps lines ++ (step ∷ [])
steps (_ ∷ lines) = steps lines

-- The steps that a run plans for a part of its work.
abbrev pub unsealer_steps : List Unsealer → List Step
unsealer_steps [] = []
unsealer_steps (u ∷ us) = copy_unsealer u ∷ install_unsealer u ∷ unsealer_steps us

abbrev pub sealed_step : Write → Option Bytes → List Step
sealed_step w none = []
sealed_step w (some copy) = write_sealed w ∷ []

abbrev pub write_steps : List Write → List Step
write_steps [] = []
write_steps (w ∷ ws) = sealed_step w w.sealed ++ write_plain w ∷ write_steps ws

abbrev pub entry_steps : List Taken → List Step
entry_steps [] = []
entry_steps (t ∷ ts) = copy_entry t ∷ activate t ∷ entry_steps ts

abbrev pub restart_steps : List (String × Taken) → List Step
restart_steps [] = []
restart_steps ((value, t) ∷ rest) = restart value t ∷ restart_steps rest

-- A step with what its machine answered.
abbrev pub Answered : Type 0
Answered = Step × String

abbrev pub taken_steps : List Answered → List Step
taken_steps [] = []
taken_steps ((step, answer) ∷ rest) = step ∷ taken_steps rest

pub taken_steps-append :
    (xs ys : List Answered) → taken_steps (xs ++ ys) ≡ taken_steps xs ++ taken_steps ys
taken_steps-append [] ys = refl
taken_steps-append ((step, answer) ∷ xs) ys = ap (λ z. step ∷ z) (taken_steps-append xs ys)

-- The values, with their machines, whose plaintext write was answered with the word `changed`.
abbrev pub moved_in : List Answered → List Pair
moved_in [] = []
moved_in ((write_plain w, answer) ∷ rest) =
    if contains "changed" (words answer)
    then (w.value.key, w.machine) ∷ moved_in rest
    else moved_in rest
moved_in (_ ∷ rest) = moved_in rest

moved_in-plain :
    (w : Write) (answer : String) (rest : List Answered)
    → moved_in ((write_plain w, answer) ∷ rest) ≡ moved_by w answer ++ moved_in rest
moved_in-plain w answer rest = by_word (contains "changed" (words answer))
  where
    by_word :
        (b : Bool)
        → (if b then (w.value.key, w.machine) ∷ moved_in rest else moved_in rest)
          ≡ (if b then (w.value.key, w.machine) ∷ [] else []) ++ moved_in rest
    by_word true = refl
    by_word false = refl

module _ {S : Type 0} where
  -- The machines go from one state to another through some steps, each of which they answer.
  abbrev pub Runs : Channel S → S → List Answered → S → Type 0
  Runs channel s [] s1 = s ≡ s1
  Runs channel s ((step, answer) ∷ rest) s1 =
      (next : S) × (channel s step ≡ (next, said answer)) × Runs channel next rest s1

  pub Runs-append :
      (channel : Channel S) (xs ys : List Answered) (s s1 s2 : S)
      → Runs channel s xs s1
      → Runs channel s1 ys s2
      → Runs channel s (xs ++ ys) s2
  Runs-append channel [] ys s s1 s2 h k = subst (λ z. Runs channel z ys s2) (sym h) k
  Runs-append channel ((step, answer) ∷ xs) ys s s1 s2 (next, said_so, h) k =
      (next, said_so, Runs-append channel xs ys next s1 s2 h k)

  pub and_then-eq-went :
      {A B : Type 0} (m : Ended S A) (f : Progress S → A → Ended S B) {q : Progress S} {b : B}
      → and_then m f ≡ went q b
      → (p : Progress S) × (a : A) × (m ≡ went p a) × (f p a ≡ went q b)
  and_then-eq-went (went p a) f h = (p, a, refl, h)
  and_then-eq-went (stopped p) f h = cc
  and_then-eq-went (raised p e) f h = cc

  pub settle-eq-went :
      {A : Type 0} (p : Progress S) (r : Result A) {q : Progress S} {a : A}
      → settle p r ≡ went q a
      → (r ≡ ok a) × (p ≡ q)
  settle-eq-went p (ok a) h = (cc, cc)
  settle-eq-went p (raises e) h = (cc, cc)

  state-record_lines : (ss : List String) (p : Progress S) → (record_lines ss p).state ≡ p.state
  unfolding record_lines
  state-record_lines [] p = refl
  state-record_lines (s ∷ ss) p = state-record_lines ss _

  -- A step that went was answered.
  outcome-said :
      (echo : Bool) (step : Step) (lines : List Line) (o : S × Outcome) {q : Progress S}
      {answer : String}
      → taken_with echo step lines o ≡ went q answer
      → o ≡ (q.state, said answer)
  unfolding taken_with
  outcome-said true step lines (s, said a) {q} {answer} h =
      let same : a ≡ answer = cc in
      let there : record_lines (split_lines a)
            (record { state = s; lines = announced step ∷ lines })
          ≡ q =
        cc in
      ap₂ (λ x y. (x, said y))
        (sym (
            state-record_lines (split_lines a)
              (record { state = s; lines = announced step ∷ lines }))
          ∙ ap (λ (z : Progress S). z.state) there)
        same
  outcome-said false step lines (s, said a) {q} {answer} h =
      let same : a ≡ answer = cc in
      let there : ◌≡◌ {A = Progress S} (record { state = s; lines = announced step ∷ lines }) q =
        cc in
      ap₂ (λ x y. (x, said y)) (ap (λ (z : Progress S). z.state) there) same
  outcome-said echo step lines (s, exited n printed) h = cc

  take-answered :
      (channel : Channel S) (echo : Bool) (step : Step) (p : Progress S) {q : Progress S}
      {answer : String}
      → take channel echo step p ≡ went q answer
      → channel p.state step ≡ (q.state, said answer)
  unfolding take
  take-answered channel echo step p h = outcome-said echo step p.lines (channel p.state step) h

  -- The machines answered the steps `todo` on the way from `p` to `q`.
  abbrev pub RunsTo : Channel S → List Step → Progress S → Progress S → Type 0
  RunsTo channel todo p q =
      (answers : List Answered) × Runs channel p.state answers q.state
      × (taken_steps answers ≡ todo)

  pub RunsTo-take :
      (channel : Channel S) (echo : Bool) (step : Step) (p r : Progress S) {todo : List Step}
      {q : Progress S} {answer : String}
      → take channel echo step p ≡ went q answer
      → RunsTo channel todo q r
      → RunsTo channel (step ∷ todo) p r
  RunsTo-take channel echo step p r {todo} {q} {answer} e (answers, ran, same) = (
    (step, answer) ∷ answers,
    (q.state, take-answered channel echo step p e, ran),
    ap (λ z. step ∷ z) same,
  )

  pub install-RunsTo :
      (channel : Channel S) (us : List Unsealer) (p : Progress S) {q : Progress S}
      → install channel us p ≡ went q tt
      → RunsTo channel (unsealer_steps us) p q
  unfolding install
  install-RunsTo channel [] p h = ([], cc, refl)
  install-RunsTo channel (u ∷ us) p {q} h =
      let (p1, a1, e1, h1) = and_then-eq-went (take channel false (copy_unsealer u) p) _ h in
      let (p2, a2, e2, h2) = and_then-eq-went (take channel true (install_unsealer u) p1) _ h1 in
      RunsTo-take channel false (copy_unsealer u) p q e1
        (RunsTo-take channel true (install_unsealer u) p1 q e2 (install-RunsTo channel us p2 h2))

  pub activate_all-RunsTo :
      (channel : Channel S) (ts : List Taken) (p : Progress S) {q : Progress S}
      → activate_all channel ts p ≡ went q tt
      → RunsTo channel (entry_steps ts) p q
  unfolding activate_all
  activate_all-RunsTo channel [] p h = ([], cc, refl)
  activate_all-RunsTo channel (t ∷ ts) p {q} h =
      let (p1, a1, e1, h1) = and_then-eq-went (take channel false (copy_entry t) p) _ h in
      let (p2, a2, e2, h2) = and_then-eq-went (take channel true (activate t) p1) _ h1 in
      RunsTo-take channel false (copy_entry t) p q e1
        (RunsTo-take channel true (activate t) p1 q e2 (activate_all-RunsTo channel ts p2 h2))

  pub restart_all-RunsTo :
      (channel : Channel S) (rs : List (String × Taken)) (p : Progress S) {q : Progress S}
      → restart_all channel rs p ≡ went q tt
      → RunsTo channel (restart_steps rs) p q
  unfolding restart_all
  restart_all-RunsTo channel [] p h = ([], cc, refl)
  restart_all-RunsTo channel ((value, t) ∷ rest) p {q} h =
      let (p1, a1, e1, h1) = and_then-eq-went (take channel true (restart value t) p) _ h in
      RunsTo-take channel true (restart value t) p q e1 (restart_all-RunsTo channel rest p1 h1)

  -- The same of writes, with the values that their answers moved.
  abbrev pub WritesTo : Channel S → List Step → List Pair → Progress S → Progress S → Type 0
  WritesTo channel todo moved p q =
      (answers : List Answered) × Runs channel p.state answers q.state
      × (taken_steps answers ≡ todo)
      × (moved_in answers ≡ moved)

  write_copy-WritesTo :
      (channel : Channel S) (w : Write) (copy : Option Bytes) {todo : List Step} {moved : List Pair}
      (p r : Progress S) {q : Progress S}
      → write_copy channel w copy p ≡ went q tt
      → WritesTo channel todo moved q r
      → WritesTo channel (sealed_step w copy ++ todo) moved p r
  unfolding write_copy
  write_copy-WritesTo channel w none {todo} {moved} p r {q} h wrote =
      let same : q ≡ p = cc in subst (λ z. WritesTo channel todo moved z r) same wrote
  write_copy-WritesTo channel w (some copy) {todo} {moved} p r {q} h (answers, ran, same, moves) =
      let (p1, a1, e1, h1) = and_then-eq-went (take channel true (write_sealed w) p) _ h in
      let at : p1 ≡ q = cc in
      (
        (write_sealed w, a1) ∷ answers,
        (
          p1.state,
          take-answered channel true (write_sealed w) p e1,
          subst (λ (z : Progress S). Runs channel z.state answers r.state) (sym at) ran,
        ),
        ap (λ z. write_sealed w ∷ z) same,
        moves,
      )

  pub write_all-RunsTo :
      (channel : Channel S) (ws : List Write) (p : Progress S) {q : Progress S} {moved : List Pair}
      → write_all channel ws p ≡ went q moved
      → WritesTo channel (write_steps ws) moved p q
  unfolding write_all
  write_all-RunsTo channel [] p h = ([], cc, refl, cc)
  write_all-RunsTo channel (w ∷ ws) p {q} {moved} h =
      let (p1, u, e1, h1) = and_then-eq-went (write_copy channel w w.sealed p) _ h in
      let (p2, answer, e2, h2) = and_then-eq-went (take channel true (write_plain w) p1) _ h1 in
      let (p3, later, e3, h3) = and_then-eq-went (write_all channel ws p2) _ h2 in
      let at : p3 ≡ q = cc in
      let joined : moved_by w answer ++ later ≡ moved = cc in
      let (answers, ran, same, moves) = write_all-RunsTo channel ws p2 e3 in
      write_copy-WritesTo channel w w.sealed p q e1 (
        (write_plain w, answer) ∷ answers,
        (
          p2.state,
          take-answered channel true (write_plain w) p1 e2,
          subst (λ (z : Progress S). Runs channel p2.state answers z.state) at ran,
        ),
        ap (λ z. write_plain w ∷ z) same,
        moved_in-plain w answer answers ∙ ap (λ z. moved_by w answer ++ z) moves ∙ joined,
      )
