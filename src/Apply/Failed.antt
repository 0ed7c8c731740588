-- ===== src/Apply/Failed.antt =====
-- cli/apply.py: how the lines of a whole run end that a machine stopped.
use nixplan.Prelude.{String, str_eq, Bool, true, false, List, [], ◌∷◌, map, if◌then◌else◌}
use nixplan.Dict.{Dict, values, sorted_items}
use nixplan.Manifest.{Deployment}
use nixplan.Manifest.Ask.{machine_scope}
use nixplan.Remote.Holdings.{Holding}
use nixplan.Remote.Options.{channel as options}
use nixplan.Remote.Verbs.{holdings_script}
use nixplan.Apply.{Preflight, preflights}
use nixplan.Apply.Run.{
  Held, Taken, Request, prepare, preflight_of_machine, retire, Channel, Progress, Ended,
  ask_holdings,
}
use nixplan.Apply.Whole.{
  World, answer_of, answered_holdings, question, hold_machine, holdings, reached_at, verify_unless,
  preflight_all, retire_held, retire_all, retire_if, carry_out, apply, channel_of,
}
use nixplan.Apply.Stopped.{
  NamesFailure, take-NamesFailure, and_then-NamesFailure, settle-NamesFailure, deliver-NamesFailure,
}

module _ {S : Type 0} where
  choice-NamesFailure :
      {A : Type 0} (c : Bool) (x y : Ended S A)
      → NamesFailure x
      → NamesFailure y
      → NamesFailure (if c then x else y)
  choice-NamesFailure true x y a b = a
  choice-NamesFailure false x y a b = b

  hold_machine-NamesFailure :
      (world : World) (d : Deployment) (channel : Channel S) (m : String × String) (p : Progress S)
      → NamesFailure (hold_machine world d channel m p)
  unfolding hold_machine question
  hold_machine-NamesFailure world d channel (machine, address) p =
      and_then-NamesFailure _ _ (settle-NamesFailure p (machine_scope d machine)) λ p1 scope.
        choice-NamesFailure (str_eq (holdings_script (values d.realisers) scope) "") _ _ tt (
          settle-NamesFailure _ (
            answered_holdings world d machine address scope
              (answer_of (channel p1.state (ask_holdings machine address scope)).1)))

  holdings-NamesFailure :
      (world : World) (d : Deployment) (channel : Channel S) (ms : Dict String) (p : Progress S)
      → NamesFailure (holdings world d channel ms p)
  unfolding holdings
  holdings-NamesFailure world d channel [] p = tt
  holdings-NamesFailure world d channel (m ∷ ms) p =
      and_then-NamesFailure _ _ (hold_machine-NamesFailure world d channel m p) λ p1 held.
        and_then-NamesFailure _ _ (holdings-NamesFailure world d channel ms p1) λ p2 others. tt

  preflight_all-NamesFailure :
      (dry : Bool) (channel : Channel S) (qs : List Preflight) (p : Progress S)
      → NamesFailure (preflight_all dry channel qs p)
  unfolding preflight_all
  preflight_all-NamesFailure dry channel [] p = tt
  preflight_all-NamesFailure dry channel (q ∷ qs) p =
      and_then-NamesFailure _ _ (take-NamesFailure channel true (preflight_of_machine q) p)
        λ p1 answered.
          and_then-NamesFailure _ _ (settle-NamesFailure p1 (verify_unless dry q answered))
            λ p2 u. preflight_all-NamesFailure dry channel qs p2

  retire_held-NamesFailure :
      (channel : Channel S) (held : Held) (hs : List Holding) (p : Progress S)
      → NamesFailure (retire_held channel held hs p)
  unfolding retire_held
  retire_held-NamesFailure channel held [] p = tt
  retire_held-NamesFailure channel held (h ∷ hs) p =
      and_then-NamesFailure _ _ (take-NamesFailure channel true (retire held h) p)
        λ p1 answered. retire_held-NamesFailure channel held hs p1

  retire_all-NamesFailure :
      (channel : Channel S) (asked : List Held) (p : Progress S)
      → NamesFailure (retire_all channel asked p)
  unfolding retire_all
  retire_all-NamesFailure channel [] p = tt
  retire_all-NamesFailure channel (held ∷ asked) p =
      and_then-NamesFailure _ _ (retire_held-NamesFailure channel held held.holdings p)
        λ p1 u. retire_all-NamesFailure channel asked p1

  retire_if-NamesFailure :
      (retiring : Bool) (channel : Channel S) (asked : List Held) (p : Progress S)
      → NamesFailure (retire_if retiring channel asked p)
  unfolding retire_if
  retire_if-NamesFailure false channel asked p = tt
  retire_if-NamesFailure true channel asked p = retire_all-NamesFailure channel asked p

  -- However the machines answer, a run of `apply` that one of them stopped, a dry one or not, ends
  -- with the line of one step and the line that says that this step failed.
  pub apply-NamesFailure :
      (world : World) (d : Deployment) (request : Request) (dry retiring : Bool)
      (channel : Channel S) (s : S)
      → NamesFailure (apply world d request dry retiring channel s)
  unfolding apply carry_out
  apply-NamesFailure world d request dry retiring channel s =
      let c = channel_of dry channel in
      and_then-NamesFailure _ _
        (settle-NamesFailure _ (prepare world.disk world.outside world.runs d request))
        λ p0 prepared.
          and_then-NamesFailure _ _ (settle-NamesFailure p0 (options world.environ world.ssh_key))
            λ p shared.
              and_then-NamesFailure _ _
                (holdings-NamesFailure world d c (sorted_items (reached_at [] prepared.taken)) p)
                λ p1 asked.
                  and_then-NamesFailure _ _
                    (settle-NamesFailure _ (
                      preflights d (map (λ (t : Taken). (t.key, t.address)) prepared.taken)
                        prepared.planned))
                    λ p2 qs.
                      and_then-NamesFailure _ _ (preflight_all-NamesFailure dry c qs p2) λ p3 u.
                        and_then-NamesFailure _ _ (retire_if-NamesFailure retiring c asked p3)
                          λ p4 v. deliver-NamesFailure d c prepared p4
