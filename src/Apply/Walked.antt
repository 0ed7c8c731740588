-- ===== src/Apply/Walked.antt =====
-- cli/apply.py: the steps that a run announces, in order.
use nixplan.Prelude.{
  String, ◌≡◌, refl, sym, subst, ap, ◌∙◌, Bool, true, false, Option, none, some, List, [], ◌∷◌,
  ◌++◌, append_assoc, append-nil, map,
}
use nixplan.Errors.{Result, ok, traverse}
use nixplan.Text.Words.{split_lines}
use nixplan.Order.{Pair}
use nixplan.Manifest.{Deployment}
use nixplan.Manifest.Ask.{machine_scope}
use nixplan.Apply.{Bytes, Write, Unsealer, unsealers}
use nixplan.Apply.Rotations.{rotations}
use nixplan.Apply.Steps.{
  steps, unsealer_steps, sealed_step, write_steps, entry_steps, restart_steps, Answered,
  taken_steps, moved_in, Runs, Runs-append, and_then-eq-went, settle-eq-went, install-RunsTo,
  write_all-RunsTo, activate_all-RunsTo, restart_all-RunsTo,
}
use nixplan.Apply.Run.{
  Taken, Prepared, Step, Outcome, said, exited, Channel, Progress, Ended, went, stopped, raised,
  announced, echoed, copy_unsealer, install_unsealer, write_sealed, write_plain, copy_entry,
  activate, restart, record_lines, and_then, settle, moved_by, taken_with, take, install,
  write_copy, write_all, activate_all, restart_all, restart_step, deliver,
}

abbrev scopes_of : Deployment → Prepared → Result (List String)
scopes_of d prepared = traverse (λ (w : Write). machine_scope d w.machine) prepared.planned

abbrev pairs_of : Deployment → Prepared → List Pair → Result (List Pair)
pairs_of d prepared moved = rotations d (map (λ (t : Taken). t.key) prepared.taken) moved

chained :
    (a b c d e : List Step) {x y z w : List Step}
    → x ≡ a ++ b
    → y ≡ x ++ c
    → z ≡ y ++ d
    → w ≡ z ++ e
    → w ≡ a ++ (b ++ (c ++ (d ++ e)))
chained a b c d e h1 h2 h3 h4 =
    h4
    ∙ ap (λ v. v ++ e) (h3 ∙ ap (λ v. v ++ d) (h2 ∙ ap (λ v. v ++ c) h1))
    ∙ append_assoc (((a ++ b) ++ c)) d e
    ∙ append_assoc (a ++ b) c (d ++ e)
    ∙ append_assoc a b (c ++ (d ++ e))

module _ {S : Type 0} where
  -- A part that went well has announced the steps `todo` after those that were announced before.
  abbrev pub After : {A : Type 0} → List Step → Progress S → Ended S A → Type 0
  After todo p (went q a) = steps q.lines ≡ steps p.lines ++ todo
  After todo p (stopped q) = Unit
  After todo p (raised q e) = Unit

  pub steps-record_lines :
      (ss : List String) (p : Progress S) → steps (record_lines ss p).lines ≡ steps p.lines
  unfolding record_lines
  steps-record_lines [] p = refl
  steps-record_lines (s ∷ ss) p = steps-record_lines ss (record p { lines = echoed s ∷ p.lines })

  taken_with-After :
      (echo : Bool) (step : Step) (p : Progress S) (o : S × Outcome)
      → After (step ∷ []) p (taken_with echo step p.lines o)
  unfolding taken_with
  taken_with-After true step p (s, said answer) =
      steps-record_lines (split_lines answer)
        (record { state = s; lines = announced step ∷ p.lines })
  taken_with-After false step p (s, said answer) = refl
  taken_with-After echo step p (s, exited n printed) = tt

  pub take-After :
      (channel : Channel S) (echo : Bool) (step : Step) (p : Progress S)
      → After (step ∷ []) p (take channel echo step p)
  unfolding take
  take-After channel echo step p = taken_with-After echo step p (channel p.state step)

  pub and_then-After :
      {A B : Type 0} (first later : List Step) (p : Progress S) (m : Ended S A)
      (f : Progress S → A → Ended S B)
      → After first p m
      → ((q : Progress S) (a : A) → After later q (f q a))
      → After (first ++ later) p (and_then m f)
  and_then-After first later p (went q a) f h k = joined (f q a) (k q a)
    where
      joined : {B : Type 0} (e : Ended S B) → After later q e → After (first ++ later) p e
      joined (went r b) g = g ∙ ap (λ x. x ++ later) h ∙ append_assoc (steps p.lines) first later
      joined (stopped r) g = tt
      joined (raised r e) g = tt
  and_then-After first later p (stopped q) f h k = tt
  and_then-After first later p (raised q e) f h k = tt

  pub went-After : {A : Type 0} (p : Progress S) (a : A) → After [] p (went p a)
  went-After p a = sym (append-nil (steps p.lines))

  install-After :
      (channel : Channel S) (us : List Unsealer) (p : Progress S)
      → After (unsealer_steps us) p (install channel us p)
  unfolding install
  install-After channel [] p = went-After p tt
  install-After channel (u ∷ us) p =
      and_then-After (copy_unsealer u ∷ []) (install_unsealer u ∷ unsealer_steps us) p _ _
        (take-After channel false (copy_unsealer u) p)
        λ p1 a.
          and_then-After (install_unsealer u ∷ []) (unsealer_steps us) p1 _ _
            (take-After channel true (install_unsealer u) p1) λ p2 b. install-After channel us p2

  activate_all-After :
      (channel : Channel S) (ts : List Taken) (p : Progress S)
      → After (entry_steps ts) p (activate_all channel ts p)
  unfolding activate_all
  activate_all-After channel [] p = went-After p tt
  activate_all-After channel (t ∷ ts) p =
      and_then-After (copy_entry t ∷ []) (activate t ∷ entry_steps ts) p _ _
        (take-After channel false (copy_entry t) p)
        λ p1 a.
          and_then-After (activate t ∷ []) (entry_steps ts) p1 _ _
            (take-After channel true (activate t) p1) λ p2 b. activate_all-After channel ts p2

  restart_all-After :
      (channel : Channel S) (rs : List (String × Taken)) (p : Progress S)
      → After (restart_steps rs) p (restart_all channel rs p)
  unfolding restart_all
  restart_all-After channel [] p = went-After p tt
  restart_all-After channel ((value, t) ∷ rest) p =
      and_then-After (restart value t ∷ []) (restart_steps rest) p _ _
        (take-After channel true (restart value t) p) λ p1 a. restart_all-After channel rest p1

  write_copy-After :
      (channel : Channel S) (w : Write) (copy : Option Bytes) (p : Progress S)
      → After (sealed_step w copy) p (write_copy channel w copy p)
  unfolding write_copy
  write_copy-After channel w none p = went-After p tt
  write_copy-After channel w (some copy) p =
      and_then-After (write_sealed w ∷ []) [] p _ _ (take-After channel true (write_sealed w) p)
        λ p1 a. went-After p1 tt

  write_all-After :
      (channel : Channel S) (ws : List Write) (p : Progress S)
      → After (write_steps ws) p (write_all channel ws p)
  unfolding write_all
  write_all-After channel [] p = went-After {A = List Pair} p []
  write_all-After channel (w ∷ ws) p =
      and_then-After (sealed_step w w.sealed) (write_plain w ∷ write_steps ws) p _ _
        (write_copy-After channel w w.sealed p)
        λ p1 u.
          and_then-After (write_plain w ∷ []) (write_steps ws) p1 _ _
            (take-After channel true (write_plain w) p1)
            λ p2 answer.
              subst
                (λ z. After z p2 (
                  and_then (write_all channel ws p2)
                    λ p3 moved. went p3 (moved_by w answer ++ moved)))
                (append-nil (write_steps ws))
                (and_then-After (write_steps ws) [] p2 _ _ (write_all-After channel ws p2)
                  λ p3 moved. went-After {A = List Pair} p3 (moved_by w answer ++ moved))

  pub After-went :
      {A : Type 0} (todo : List Step) (p : Progress S) (m : Ended S A) {q : Progress S} {a : A}
      → After todo p m
      → m ≡ went q a
      → steps q.lines ≡ steps p.lines ++ todo
  After-went todo p m h e = subst (After todo p) e h

  -- How a run that went from `p` to `q` delivered. The machines went through the unsealers' steps, the
  -- writes, the entries and the restarts, each step in the state that the one before it left, and
  -- answered each. The restarts follow from the values whose write was answered with `changed`. These
  -- steps, and no others, were announced.
  abbrev pub RunsThrough : Deployment → Channel S → Prepared → Progress S → Progress S → Type 0
  RunsThrough d channel prepared p q =
      (us : List Unsealer) × (pairs : List Pair) × (rs : List (String × Taken)) × (installed : List
        Answered)
      × (wrote : List Answered) × (activated : List Answered) × (restarted : List Answered)
      × (unsealers d prepared.planned ≡ ok us)
      × (taken_steps installed ≡ unsealer_steps us)
      × (taken_steps wrote ≡ write_steps prepared.planned)
      × (taken_steps activated ≡ entry_steps prepared.taken)
      × (taken_steps restarted ≡ restart_steps rs)
      × (rotations d (map (λ (t : Taken). t.key) prepared.taken) (moved_in wrote) ≡ ok pairs)
      × (traverse (restart_step prepared.taken) pairs ≡ ok rs)
      × Runs channel p.state (installed ++ (wrote ++ (activated ++ restarted))) q.state
      × (steps q.lines
          ≡ steps p.lines
            ++ (unsealer_steps us
                ++ (write_steps prepared.planned
                    ++ (entry_steps prepared.taken ++ restart_steps rs))))

  -- A run that goes through takes and announces exactly these steps, in this order: for each machine
  -- that it seals a value to the copy and the installation of its unsealer; each planned write, a
  -- sealed copy before its plaintext; for each entry that was taken, in their order, its copy and its
  -- activation; and the restarts that follow from the values whose plaintext write was answered with
  -- the word `changed`.
  pub deliver-RunsThrough :
      (d : Deployment) (channel : Channel S) (prepared : Prepared) (p q : Progress S)
      → deliver d channel prepared p ≡ went q tt
      → RunsThrough d channel prepared p q
  unfolding deliver
  deliver-RunsThrough d channel prepared p q h =
      let (p0, us, e0, h0) = and_then-eq-went (settle p (unsealers d prepared.planned)) _ h in
      let (found, same0) = settle-eq-went p (unsealers d prepared.planned) e0 in
      let (p1, u, e1, h1) = and_then-eq-went (install channel us p0) _ h0 in
      let (p2, scopes, e2, h2) = and_then-eq-went (settle p1 (scopes_of d prepared)) _ h1 in
      let (scoped, same2) = settle-eq-went p1 (scopes_of d prepared) e2 in
      let (p3, moved, e3, h3) = and_then-eq-went (write_all channel prepared.planned p2) _ h2 in
      let (p4, v, e4, h4) = and_then-eq-went (activate_all channel prepared.taken p3) _ h3 in
      let (p5, pairs, e5, h5) = and_then-eq-went (settle p4 (pairs_of d prepared moved)) _ h4 in
      let (rotated, same5) = settle-eq-went p4 (pairs_of d prepared moved) e5 in
      let (p6, rs, e6, h6) =
        and_then-eq-went (settle p5 (traverse (restart_step prepared.taken) pairs)) _ h5 in
      let (restarts, same6) = settle-eq-went p5 (traverse (restart_step prepared.taken) pairs) e6 in
      let i =
        After-went (unsealer_steps us) p0 (install channel us p0) (install-After channel us p0)
          e1 in
      let w =
        After-went (write_steps prepared.planned) p2 (write_all channel prepared.planned p2)
          (write_all-After channel prepared.planned p2) e3 in
      let a =
        After-went (entry_steps prepared.taken) p3 (activate_all channel prepared.taken p3)
          (activate_all-After channel prepared.taken p3) e4 in
      let r =
        After-went (restart_steps rs) p6 (restart_all channel rs p6)
          (restart_all-After channel rs p6) h6 in
      let (installed, ran_i, todo_i) = install-RunsTo channel us p0 e1 in
      let (wrote, ran_w, todo_w, same_moved) = write_all-RunsTo channel prepared.planned p2 e3 in
      let (activated, ran_a, todo_a) = activate_all-RunsTo channel prepared.taken p3 e4 in
      let (restarted, ran_r, todo_r) = restart_all-RunsTo channel rs p6 h6 in
      let keys_taken = map (λ (t : Taken). t.key) prepared.taken in
      let ran_rest = Runs-append channel activated restarted p3.state p4.state q.state ran_a (
        subst (λ (z : Progress S). Runs channel z.state restarted q.state) (sym (same5 ∙ same6))
          ran_r) in
      let ran_writes =
        Runs-append channel wrote (activated ++ restarted) p2.state p3.state q.state ran_w
          ran_rest in
      let ran =
        Runs-append channel installed (wrote ++ (activated ++ restarted)) p0.state p1.state q.state
          ran_i
          (subst
            (λ (z : Progress S). Runs channel z.state (wrote ++ (activated ++ restarted)) q.state)
            (sym same2) ran_writes) in
      (
        us,
        pairs,
        rs,
        installed,
        wrote,
        activated,
        restarted,
        found,
        todo_i,
        todo_w,
        todo_a,
        todo_r,
        ap (rotations d keys_taken) same_moved ∙ rotated,
        restarts,
        subst
            (λ (z : Progress S).
              Runs channel z.state (installed ++ (wrote ++ (activated ++ restarted))) q.state)
            (sym same0) ran,
        chained (steps p.lines) (unsealer_steps us) (write_steps prepared.planned)
            (entry_steps prepared.taken) (restart_steps rs)
            (i ∙ ap (λ z. steps z.lines ++ unsealer_steps us) (sym same0))
            (w ∙ ap (λ z. steps z.lines ++ write_steps prepared.planned) (sym same2)) a
            (r ∙ ap (λ z. steps z.lines ++ restart_steps rs) (sym (same5 ∙ same6))),
      )
