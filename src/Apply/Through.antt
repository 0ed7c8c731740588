-- ===== src/Apply/Through.antt =====
-- cli/apply.py: the steps that a whole run announces, in order.
use nixplan.Prelude.{
  String, str_eq, ◌≡◌, refl, sym, ap, subst, ◌∙◌, Bool, true, false, List, [], ◌∷◌, ◌++◌, map,
  if◌then◌else◌,
}
use nixplan.Errors.{Result, ok}
use nixplan.Dict.{Dict, values, sorted_items}
use nixplan.Manifest.{Deployment}
use nixplan.Manifest.Ask.{machine_scope}
use nixplan.Remote.Holdings.{Holding}
use nixplan.Remote.Verbs.{holdings_script}
use nixplan.Apply.{Preflight, preflights, announcements}
use nixplan.Apply.Run.{
  Held, Taken, Request, Prepared, prepare, Step, preflight_of_machine, retire, ask_holdings,
  Channel, told, Progress, Ended, went, stopped, raised, record_line, settle,
}
use nixplan.Apply.Whole.{
  World, answer_of, answered_holdings, question, hold_machine, holdings, reached_at, tell,
  holding_lines, verify_unless, preflight_all, retire_held, retire_all, retire_if, carry_out, apply,
  channel_of,
}
use nixplan.Remote.Options.{channel as options}
use nixplan.Apply.Steps.{steps, Runs, RunsTo, and_then-eq-went, settle-eq-went}
use nixplan.Apply.Retired.{
  retire_steps, retired_steps, preflight_all-RunsTo, RunsTo-append, retire_if-RunsTo,
}
use nixplan.Apply.Walked.{
  After, take-After, and_then-After, went-After, After-went, RunsThrough, deliver-RunsThrough,
}

module _ {S : Type 0} where
  settle-After : {A : Type 0} (p : Progress S) (r : Result A) → After [] p (settle p r)
  settle-After p (ok a) = went-After p a
  settle-After p (Result.raises e) = tt

  choice-After :
      {A : Type 0} (todo : List Step) (p : Progress S) (c : Bool) (x y : Ended S A)
      → After todo p x
      → After todo p y
      → After todo p (if c then x else y)
  choice-After todo p true x y a b = a
  choice-After todo p false x y a b = b

  moved-After :
      {A : Type 0} (p : Progress S) (s : S) (m : Ended S A)
      → After [] (record p { state = s }) m
      → After [] p m
  moved-After p s (went q a) h = h
  moved-After p s (stopped q) h = tt
  moved-After p s (raised q e) h = tt

  hold_machine-After :
      (world : World) (d : Deployment) (channel : Channel S) (m : String × String) (p : Progress S)
      → After [] p (hold_machine world d channel m p)
  unfolding hold_machine question
  hold_machine-After world d channel (machine, address) p =
      and_then-After [] [] p _ _ (settle-After p (machine_scope d machine)) λ p1 scope.
        let (s, outcome) = channel p1.state (ask_holdings machine address scope) in
        choice-After [] p1 (str_eq (holdings_script (values d.realisers) scope) "") _ _
          (went-After {A = List Held} p1 [])
          (moved-After p1 s _ (
            settle-After (record p1 { state = s })
              (answered_holdings world d machine address scope (answer_of outcome))))

  holdings-After :
      (world : World) (d : Deployment) (channel : Channel S) (ms : Dict String) (p : Progress S)
      → After [] p (holdings world d channel ms p)
  unfolding holdings
  holdings-After world d channel [] p = went-After {A = List Held} p []
  holdings-After world d channel (m ∷ ms) p =
      and_then-After [] [] p _ _ (hold_machine-After world d channel m p) λ p1 held.
        and_then-After [] [] p1 _ _ (holdings-After world d channel ms p1)
          λ p2 others. went-After {A = List Held} p2 (held ++ others)

  steps-tell : (ss : List String) (p : Progress S) → steps (tell ss p).lines ≡ steps p.lines
  unfolding tell
  steps-tell [] p = refl
  steps-tell (x ∷ ss) p = steps-tell ss (record_line (told x) p)

  preflight_all-After :
      (dry : Bool) (channel : Channel S) (qs : List Preflight) (p : Progress S)
      → After (map preflight_of_machine qs) p (preflight_all dry channel qs p)
  unfolding preflight_all
  preflight_all-After dry channel [] p = went-After p tt
  preflight_all-After dry channel (q ∷ qs) p =
      and_then-After (preflight_of_machine q ∷ []) (map preflight_of_machine qs) p _ _
        (take-After channel true (preflight_of_machine q) p)
        λ p1 answered.
          and_then-After [] (map preflight_of_machine qs) p1 _ _
            (settle-After p1 (verify_unless dry q answered))
            λ p2 u. preflight_all-After dry channel qs p2

  retire_held-After :
      (channel : Channel S) (held : Held) (hs : List Holding) (p : Progress S)
      → After (retire_steps held hs) p (retire_held channel held hs p)
  unfolding retire_held
  retire_held-After channel held [] p = went-After p tt
  retire_held-After channel held (h ∷ hs) p =
      and_then-After (retire held h ∷ []) (retire_steps held hs) p _ _
        (take-After channel true (retire held h) p)
        λ p1 answered. retire_held-After channel held hs p1

  retire_if-After :
      (retiring : Bool) (channel : Channel S) (asked : List Held) (p : Progress S)
      → After (retired_steps retiring asked) p (retire_if retiring channel asked p)
  unfolding retire_if retire_all
  retire_if-After false channel asked p = went-After p tt
  retire_if-After true channel [] p = went-After p tt
  retire_if-After true channel (held ∷ asked) p =
      and_then-After (retire_steps held held.holdings) (retired_steps true asked) p _ _
        (retire_held-After channel held held.holdings p)
        λ p1 u. retire_if-After true channel asked p1

  state-tell : (ss : List String) (p : Progress S) → (tell ss p).state ≡ p.state
  unfolding tell
  state-tell [] p = refl
  state-tell (x ∷ ss) p = state-tell ss (record_line (told x) p)

  -- How a run of `apply` that went through from the machines `s` to `q` went. It was prepared and its
  -- ssh options were read. From `s`, it asked its machines what they hold, which took it to `middle`
  -- without a step announced. From there, the machines answered a preflight each, and a retirement of
  -- each holding if the run retires them, which took it to `before`. From there, it delivered.
  abbrev pub WentThrough :
      World → Deployment → Request → Bool → Bool → Channel S → S → Progress S → Type 0
  WentThrough world d request dry retiring channel s q =
      (prepared : Prepared) × (asked : List Held) × (qs : List Preflight) × (middle : Progress S)
      × (before : Progress S) × (prepare world.disk world.outside world.runs d request
          ≡ ok prepared)
      × ((shared : String × Dict String) × (options world.environ world.ssh_key ≡ ok shared))
      × (holdings world d (channel_of dry channel) (sorted_items (reached_at [] prepared.taken))
            (record { state = s; lines = [] })
          ≡ went middle asked)
      × (steps middle.lines ≡ [])
      × (preflights d (map (λ (t : Taken). (t.key, t.address)) prepared.taken) prepared.planned
          ≡ ok qs)
      × RunsTo (channel_of dry channel)
          (map preflight_of_machine qs ++ retired_steps retiring asked) middle before
      × (steps before.lines ≡ map preflight_of_machine qs ++ retired_steps retiring asked)
      × RunsThrough d (channel_of dry channel) prepared before q

  -- A run of `apply` that goes through asks what the machines hold before it takes or announces a
  -- step. Its steps are, in this order, each in the state of the machines that the one before it
  -- left: the preflights; the retirements, of all that the machines answered they hold and the build
  -- does not name, in a run that retires; and the steps of the delivery.
  pub apply-WentThrough :
      (world : World) (d : Deployment) (request : Request) (dry retiring : Bool)
      (channel : Channel S) (s : S) (q : Progress S)
      → apply world d request dry retiring channel s ≡ went q tt
      → WentThrough world d request dry retiring channel s q
  unfolding apply carry_out
  apply-WentThrough world d request dry retiring channel s q h =
      let c = channel_of dry channel in
      let start : Progress S = record { state = s; lines = [] } in
      let (p0, prepared, e0, h0) =
        and_then-eq-went (settle start (prepare world.disk world.outside world.runs d request)) _
          h in
      let (ready, same0) =
        settle-eq-went start (prepare world.disk world.outside world.runs d request) e0 in
      let (p01, shared, e01, h01) =
        and_then-eq-went (settle p0 (options world.environ world.ssh_key)) _ h0 in
      let (read, same01) = settle-eq-went p0 (options world.environ world.ssh_key) e01 in
      let at_start : start ≡ p01 = same0 ∙ same01 in
      let machines = sorted_items (reached_at [] prepared.taken) in
      let (p1, asked, e1, h1) = and_then-eq-went (holdings world d c machines p01) _ h01 in
      let asked_first : holdings world d c machines start ≡ went p1 asked =
        ap (λ z. holdings world d c machines z) at_start ∙ e1 in
      let said = announcements prepared.walked prepared.withheld ++ holding_lines retiring asked in
      let questions =
        preflights d (map (λ (t : Taken). (t.key, t.address)) prepared.taken) prepared.planned in
      let (p2, qs, e2, h2) = and_then-eq-went (settle (tell said p1) questions) _ h1 in
      let (asked_ok, same2) = settle-eq-went (tell said p1) questions e2 in
      let (p3, u, e3, h3) = and_then-eq-went (preflight_all dry c qs p2) _ h2 in
      let (p4, v, e4, h4) = and_then-eq-went (retire_if retiring c asked p3) _ h3 in
      let unannounced : steps p1.lines ≡ [] =
        After-went [] start (holdings world d c machines start)
          (holdings-After world d c machines start) asked_first in
      let none_yet : steps p2.lines ≡ [] =
        ap (λ z. steps z.lines) (sym same2) ∙ steps-tell said p1 ∙ unannounced in
      let preflighted =
        After-went (map preflight_of_machine qs) p2 (preflight_all dry c qs p2)
          (preflight_all-After dry c qs p2) e3 in
      let retired =
        After-went (retired_steps retiring asked) p3 (retire_if retiring c asked p3)
          (retire_if-After retiring c asked p3) e4 in
      let (answers, ran, same_steps) =
        RunsTo-append c (map preflight_of_machine qs) (retired_steps retiring asked) p2 p3 p4
          (preflight_all-RunsTo dry c qs p2 e3) (retire_if-RunsTo retiring c asked p3 e4) in
      let same_state : p2.state ≡ p1.state =
        ap (λ (z : Progress S). z.state) (sym same2) ∙ state-tell said p1 in
      (
        prepared,
        asked,
        qs,
        p1,
        p4,
        ready,
        (shared, read),
        asked_first,
        unannounced,
        asked_ok,
        (answers, subst (λ z. Runs c z answers p4.state) same_state ran, same_steps),
        retired
            ∙ ap (λ z. z ++ retired_steps retiring asked)
                (preflighted ∙ ap (λ z. z ++ map preflight_of_machine qs) none_yet),
        deliver-RunsThrough d c prepared p4 q h4,
      )
