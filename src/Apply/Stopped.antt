-- ===== src/Apply/Stopped.antt =====
-- cli/apply.py: how the lines of a run end that a machine stopped.
use nixplan.Prelude.{String, ◌≡◌, refl, Bool, true, false, Option, none, some, List, [], ◌∷◌, map}
use nixplan.Errors.{Result, ok, raises, traverse}
use nixplan.Manifest.{Deployment}
use nixplan.Manifest.Ask.{machine_scope}
use nixplan.Apply.{Bytes, Write, Unsealer, unsealers}
use nixplan.Apply.Rotations.{rotations}
use nixplan.Apply.Run.{
  Taken, Prepared, Step, Outcome, said, exited, Channel, Line, Progress, Ended, went, stopped,
  raised, announced, failed, copy_unsealer, install_unsealer, write_sealed, write_plain, copy_entry,
  activate, restart, and_then, settle, taken_with, take, install, write_copy, write_all,
  activate_all, restart_all, restart_step, deliver,
}

module _ {S : Type 0} where
  -- Where a part of a run was stopped, its last lines announce one step and say that it failed.
  abbrev pub NamesFailure : {A : Type 0} → Ended S A → Type 0
  NamesFailure (went q a) = Unit
  NamesFailure (stopped q) =
      (step : Step) × (before : List Line) × (q.lines ≡ failed step ∷ announced step ∷ before)
  NamesFailure (raised q e) = Unit

  taken_with-NamesFailure :
      (echo : Bool) (step : Step) (lines : List Line) (o : S × Outcome)
      → NamesFailure (taken_with echo step lines o)
  unfolding taken_with
  taken_with-NamesFailure echo step lines (s, said answer) = tt
  taken_with-NamesFailure echo step lines (s, exited n printed) = (step, lines, refl)

  pub take-NamesFailure :
      (channel : Channel S) (echo : Bool) (step : Step) (p : Progress S)
      → NamesFailure (take channel echo step p)
  unfolding take
  take-NamesFailure channel echo step p =
      taken_with-NamesFailure echo step p.lines (channel p.state step)

  pub and_then-NamesFailure :
      {A B : Type 0} (m : Ended S A) (f : Progress S → A → Ended S B)
      → NamesFailure m
      → ((q : Progress S) (a : A) → NamesFailure (f q a))
      → NamesFailure (and_then m f)
  and_then-NamesFailure (went q a) f h k = k q a
  and_then-NamesFailure (stopped q) f h k = h
  and_then-NamesFailure (raised q e) f h k = tt

  pub settle-NamesFailure : {A : Type 0} (p : Progress S) (r : Result A) → NamesFailure (settle p r)
  settle-NamesFailure p (ok a) = tt
  settle-NamesFailure p (raises e) = tt

  install-NamesFailure :
      (channel : Channel S) (us : List Unsealer) (p : Progress S)
      → NamesFailure (install channel us p)
  unfolding install
  install-NamesFailure channel [] p = tt
  install-NamesFailure channel (u ∷ us) p =
      and_then-NamesFailure _ _ (take-NamesFailure channel false (copy_unsealer u) p) λ p1 a.
        and_then-NamesFailure _ _ (take-NamesFailure channel true (install_unsealer u) p1)
          λ p2 b. install-NamesFailure channel us p2

  write_copy-NamesFailure :
      (channel : Channel S) (w : Write) (copy : Option Bytes) (p : Progress S)
      → NamesFailure (write_copy channel w copy p)
  unfolding write_copy
  write_copy-NamesFailure channel w none p = tt
  write_copy-NamesFailure channel w (some copy) p =
      and_then-NamesFailure _ _ (take-NamesFailure channel true (write_sealed w) p) λ p1 a. tt

  write_all-NamesFailure :
      (channel : Channel S) (ws : List Write) (p : Progress S)
      → NamesFailure (write_all channel ws p)
  unfolding write_all
  write_all-NamesFailure channel [] p = tt
  write_all-NamesFailure channel (w ∷ ws) p =
      and_then-NamesFailure _ _ (write_copy-NamesFailure channel w w.sealed p) λ p1 u.
        and_then-NamesFailure _ _ (take-NamesFailure channel true (write_plain w) p1) λ p2 answer.
          and_then-NamesFailure _ _ (write_all-NamesFailure channel ws p2) λ p3 moved. tt

  activate_all-NamesFailure :
      (channel : Channel S) (ts : List Taken) (p : Progress S)
      → NamesFailure (activate_all channel ts p)
  unfolding activate_all
  activate_all-NamesFailure channel [] p = tt
  activate_all-NamesFailure channel (t ∷ ts) p =
      and_then-NamesFailure _ _ (take-NamesFailure channel false (copy_entry t) p) λ p1 a.
        and_then-NamesFailure _ _ (take-NamesFailure channel true (activate t) p1)
          λ p2 b. activate_all-NamesFailure channel ts p2

  restart_all-NamesFailure :
      (channel : Channel S) (rs : List (String × Taken)) (p : Progress S)
      → NamesFailure (restart_all channel rs p)
  unfolding restart_all
  restart_all-NamesFailure channel [] p = tt
  restart_all-NamesFailure channel ((value, t) ∷ rest) p =
      and_then-NamesFailure _ _ (take-NamesFailure channel true (restart value t) p)
        λ p1 a. restart_all-NamesFailure channel rest p1

  -- However the machines answer, a run that one of them stopped ends with the line of one step and
  -- the line that says that this step failed: no step is announced after it.
  pub deliver-NamesFailure :
      (d : Deployment) (channel : Channel S) (prepared : Prepared) (p : Progress S)
      → NamesFailure (deliver d channel prepared p)
  unfolding deliver
  deliver-NamesFailure d channel prepared p =
      and_then-NamesFailure _ _ (settle-NamesFailure p (unsealers d prepared.planned)) λ p0 us.
        and_then-NamesFailure _ _ (install-NamesFailure channel us p0) λ p1 u.
          and_then-NamesFailure _ _
            (settle-NamesFailure p1
              (traverse (λ (w : Write). machine_scope d w.machine) prepared.planned))
            λ p2 scopes.
              and_then-NamesFailure _ _ (write_all-NamesFailure channel prepared.planned p2)
                λ p3 moved.
                  and_then-NamesFailure _ _ (activate_all-NamesFailure channel prepared.taken p3)
                    λ p4 v.
                      and_then-NamesFailure _ _
                        (settle-NamesFailure p4
                          (rotations d (map (λ (t : Taken). t.key) prepared.taken) moved))
                        λ p5 pairs.
                          and_then-NamesFailure _ _
                            (settle-NamesFailure p5 (traverse (restart_step prepared.taken) pairs))
                            λ p6 rs. restart_all-NamesFailure channel rs p6
