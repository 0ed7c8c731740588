-- ===== src/Apply/Dry.antt =====
-- cli/apply.py: what a run through `Nobody` does to the machines.
use nixplan.Prelude.{
  String, str_eq, Bool, true, false, ◌≡◌, refl, Option, none, some, List, [], ◌∷◌, ◌++◌, map,
  if◌then◌else◌,
}
use nixplan.Text.Words.{split_lines}
use nixplan.Errors.{Result, ok, raises, traverse}
use nixplan.Dict.{Dict, values, sorted_items}
use nixplan.Manifest.{Deployment}
use nixplan.Manifest.Ask.{machine_scope}
use nixplan.Remote.Holdings.{Holding}
use nixplan.Remote.Options.{channel as options}
use nixplan.Remote.Verbs.{holdings_script}
use nixplan.Apply.{Bytes, Write, Unsealer, Preflight, unsealers, preflights, announcements}
use nixplan.Apply.Rotations.{rotations}
use nixplan.Apply.Run.{
  Held, Taken, Request, Prepared, prepare, Step, preflight_of_machine, retire, copy_unsealer,
  install_unsealer, write_sealed, write_plain, copy_entry, activate, restart, Channel, nobody,
  Progress, Ended, went, stopped, raised, and_then, settle, take, taken_with, record_lines,
  record_line, echoed, announced, told, said, install, write_copy, write_all, activate_all,
  restart_all, restart_step, deliver,
}
use nixplan.Apply.Whole.{
  World, answer_of, answered_holdings, question, hold_machine, holdings, reached_at, tell,
  holding_lines, preflight_all, retire_held, retire_all, retire_if, carry_out, apply,
}

module _ {S : Type 0} (s : S) where
  -- No machine stopped this part of a run, and the machines are as they were.
  abbrev pub Untouched : {A : Type 0} → Ended S A → Type 0
  Untouched (went q a) = q.state ≡ s
  Untouched (stopped q) = ⊥
  Untouched (raised q e) = q.state ≡ s

  record_lines-state :
      (ss : List String) (p : Progress S) → p.state ≡ s → (record_lines ss p).state ≡ s
  unfolding record_lines
  record_lines-state [] p h = h
  record_lines-state (x ∷ ss) p h = record_lines-state ss (record_line (echoed x) p) h

  tell-state : (ss : List String) (p : Progress S) → p.state ≡ s → (tell ss p).state ≡ s
  unfolding tell
  tell-state [] p h = h
  tell-state (x ∷ ss) p h = tell-state ss (record_line (told x) p) h

  take-Untouched :
      (echo : Bool) (step : Step) (p : Progress S)
      → p.state ≡ s
      → Untouched (take nobody echo step p)
  unfolding take taken_with nobody
  take-Untouched true step p h =
      record_lines-state (split_lines "")
        (record { state = p.state; lines = announced step ∷ p.lines }) h
  take-Untouched false step p h = h

  and_then-Untouched :
      {A B : Type 0} (m : Ended S A) (f : Progress S → A → Ended S B)
      → Untouched m
      → ((q : Progress S) (a : A) → q.state ≡ s → Untouched (f q a))
      → Untouched (and_then m f)
  and_then-Untouched (went q a) f h k = k q a h
  and_then-Untouched (stopped q) f h k = absurd h
  and_then-Untouched (raised q e) f h k = h

  settle-Untouched :
      {A : Type 0} (p : Progress S) (r : Result A) → p.state ≡ s → Untouched (settle p r)
  settle-Untouched p (ok a) h = h
  settle-Untouched p (raises e) h = h

  choice-Untouched :
      {A : Type 0} (c : Bool) (x y : Ended S A)
      → Untouched x
      → Untouched y
      → Untouched (if c then x else y)
  choice-Untouched true x y a b = a
  choice-Untouched false x y a b = b

  hold_machine-Untouched :
      (world : World) (d : Deployment) (m : String × String) (p : Progress S)
      → p.state ≡ s
      → Untouched (hold_machine world d nobody m p)
  unfolding hold_machine question nobody
  hold_machine-Untouched world d (machine, address) p h =
      and_then-Untouched _ _ (settle-Untouched p (machine_scope d machine) h) λ p1 scope h1.
        choice-Untouched (str_eq (holdings_script (values d.realisers) scope) "") _ _ h1 (
          settle-Untouched p1
            (answered_holdings world d machine address scope (answer_of (said ""))) h1)

  holdings-Untouched :
      (world : World) (d : Deployment) (ms : Dict String) (p : Progress S)
      → p.state ≡ s
      → Untouched (holdings world d nobody ms p)
  unfolding holdings
  holdings-Untouched world d [] p h = h
  holdings-Untouched world d (m ∷ ms) p h =
      and_then-Untouched _ _ (hold_machine-Untouched world d m p h) λ p1 held h1.
        and_then-Untouched _ _ (holdings-Untouched world d ms p1 h1) λ p2 others h2. h2

  preflight_all-Untouched :
      (qs : List Preflight) (p : Progress S)
      → p.state ≡ s
      → Untouched (preflight_all true nobody qs p)
  unfolding preflight_all
  preflight_all-Untouched [] p h = h
  preflight_all-Untouched (q ∷ qs) p h =
      and_then-Untouched _ _ (take-Untouched true (preflight_of_machine q) p h)
        λ p1 answered h1. preflight_all-Untouched qs p1 h1

  retire_held-Untouched :
      (held : Held) (hs : List Holding) (p : Progress S)
      → p.state ≡ s
      → Untouched (retire_held nobody held hs p)
  unfolding retire_held
  retire_held-Untouched held [] p h = h
  retire_held-Untouched held (x ∷ hs) p h =
      and_then-Untouched _ _ (take-Untouched true (retire held x) p h)
        λ p1 answered h1. retire_held-Untouched held hs p1 h1

  retire_if-Untouched :
      (retiring : Bool) (asked : List Held) (p : Progress S)
      → p.state ≡ s
      → Untouched (retire_if retiring nobody asked p)
  unfolding retire_if retire_all
  retire_if-Untouched false asked p h = h
  retire_if-Untouched true [] p h = h
  retire_if-Untouched true (held ∷ asked) p h =
      and_then-Untouched _ _ (retire_held-Untouched held held.holdings p h)
        λ p1 u h1. retire_if-Untouched true asked p1 h1

  install-Untouched :
      (us : List Unsealer) (p : Progress S) → p.state ≡ s → Untouched (install nobody us p)
  unfolding install
  install-Untouched [] p h = h
  install-Untouched (u ∷ us) p h =
      and_then-Untouched _ _ (take-Untouched false (copy_unsealer u) p h) λ p1 a h1.
        and_then-Untouched _ _ (take-Untouched true (install_unsealer u) p1 h1)
          λ p2 b h2. install-Untouched us p2 h2

  write_copy-Untouched :
      (w : Write) (copy : Option Bytes) (p : Progress S)
      → p.state ≡ s
      → Untouched (write_copy nobody w copy p)
  unfolding write_copy
  write_copy-Untouched w none p h = h
  write_copy-Untouched w (some copy) p h =
      and_then-Untouched _ _ (take-Untouched true (write_sealed w) p h) λ p1 a h1. h1

  write_all-Untouched :
      (ws : List Write) (p : Progress S) → p.state ≡ s → Untouched (write_all nobody ws p)
  unfolding write_all
  write_all-Untouched [] p h = h
  write_all-Untouched (w ∷ ws) p h =
      and_then-Untouched _ _ (write_copy-Untouched w w.sealed p h) λ p1 u h1.
        and_then-Untouched _ _ (take-Untouched true (write_plain w) p1 h1)
          λ p2 answer h2. and_then-Untouched _ _ (write_all-Untouched ws p2 h2) λ p3 moved h3. h3

  activate_all-Untouched :
      (ts : List Taken) (p : Progress S) → p.state ≡ s → Untouched (activate_all nobody ts p)
  unfolding activate_all
  activate_all-Untouched [] p h = h
  activate_all-Untouched (t ∷ ts) p h =
      and_then-Untouched _ _ (take-Untouched false (copy_entry t) p h) λ p1 a h1.
        and_then-Untouched _ _ (take-Untouched true (activate t) p1 h1)
          λ p2 b h2. activate_all-Untouched ts p2 h2

  restart_all-Untouched :
      (rs : List (String × Taken)) (p : Progress S)
      → p.state ≡ s
      → Untouched (restart_all nobody rs p)
  unfolding restart_all
  restart_all-Untouched [] p h = h
  restart_all-Untouched ((value, t) ∷ rest) p h =
      and_then-Untouched _ _ (take-Untouched true (restart value t) p h)
        λ p1 a h1. restart_all-Untouched rest p1 h1

  deliver-Untouched :
      (d : Deployment) (prepared : Prepared) (p : Progress S)
      → p.state ≡ s
      → Untouched (deliver d nobody prepared p)
  unfolding deliver
  deliver-Untouched d prepared p h =
      and_then-Untouched _ _ (settle-Untouched p (unsealers d prepared.planned) h) λ p0 us h0.
        and_then-Untouched _ _ (install-Untouched us p0 h0) λ p1 u h1.
          and_then-Untouched _ _
            (settle-Untouched p1
              (traverse (λ (w : Write). machine_scope d w.machine) prepared.planned) h1)
            λ p2 scopes h2.
              and_then-Untouched _ _ (write_all-Untouched prepared.planned p2 h2) λ p3 moved h3.
                and_then-Untouched _ _ (activate_all-Untouched prepared.taken p3 h3) λ p4 v h4.
                  and_then-Untouched _ _
                    (settle-Untouched p4
                      (rotations d (map (λ (t : Taken). t.key) prepared.taken) moved) h4)
                    λ p5 pairs h5.
                      and_then-Untouched _ _
                        (settle-Untouched p5 (traverse (restart_step prepared.taken) pairs) h5)
                        λ p6 rs h6. restart_all-Untouched rs p6 h6

  -- A dry run of `apply` is stopped by no machine and leaves the machines as they were, whether it
  -- ends with its lines or at a refusal, whatever the channel of a real run would do.
  pub apply-Untouched :
      (world : World) (d : Deployment) (request : Request) (retiring : Bool) (channel : Channel S)
      → Untouched (apply world d request true retiring channel s)
  unfolding apply carry_out
  apply-Untouched world d request retiring channel =
      and_then-Untouched _ _
        (settle-Untouched _ (prepare world.disk world.outside world.runs d request) refl)
        λ p0 prepared h0.
          and_then-Untouched _ _ (settle-Untouched p0 (options world.environ world.ssh_key) h0)
            λ p shared h.
              and_then-Untouched _ _
                (holdings-Untouched world d (sorted_items (reached_at [] prepared.taken)) p h)
                λ p1 asked h1.
                  and_then-Untouched _ _
                    (settle-Untouched _
                      (preflights d (map (λ (t : Taken). (t.key, t.address)) prepared.taken)
                        prepared.planned)
                      (tell-state
                        (announcements prepared.walked prepared.withheld
                          ++ holding_lines retiring asked)
                        p1 h1))
                    λ p2 qs h2. and_then-Untouched _ _ (preflight_all-Untouched qs p2 h2) λ p3 u h3.
                      and_then-Untouched _ _ (retire_if-Untouched retiring asked p3 h3)
                        λ p4 v h4. deliver-Untouched d prepared p4 h4
