-- ===== src/Apply/Retired.antt =====
-- cli/apply.py: what the machines answered to the preflights and the retirements of a run.
use nixplan.Prelude.{◌≡◌, refl, sym, ap₂, subst, ◌∙◌, Bool, true, false, List, [], ◌∷◌, ◌++◌, map}
use nixplan.Remote.Holdings.{Holding}
use nixplan.Apply.{Preflight}
use nixplan.Apply.Run.{
  Held, Step, preflight_of_machine, retire, Channel, Progress, went, settle, take,
}
use nixplan.Apply.Whole.{verify_unless, preflight_all, retire_held, retire_all, retire_if}
use nixplan.Apply.Steps.{
  taken_steps-append, Runs-append, RunsTo, RunsTo-take, and_then-eq-went, settle-eq-went,
}

abbrev pub retire_steps : Held → List Holding → List Step
retire_steps held [] = []
retire_steps held (h ∷ hs) = retire held h ∷ retire_steps held hs

abbrev pub retired_steps : Bool → List Held → List Step
retired_steps false asked = []
retired_steps true [] = []
retired_steps true (held ∷ asked) = retire_steps held held.holdings ++ retired_steps true asked

module _ {S : Type 0} where
  pub preflight_all-RunsTo :
      (dry : Bool) (channel : Channel S) (qs : List Preflight) (p : Progress S) {q : Progress S}
      → preflight_all dry channel qs p ≡ went q tt
      → RunsTo channel (map preflight_of_machine qs) p q
  unfolding preflight_all
  preflight_all-RunsTo dry channel [] p h = ([], cc, refl)
  preflight_all-RunsTo dry channel (c ∷ qs) p {q} h =
      let (p1, answered, e1, h1) =
        and_then-eq-went (take channel true (preflight_of_machine c) p) _ h in
      let (p2, u, e2, h2) = and_then-eq-went (settle p1 (verify_unless dry c answered)) _ h1 in
      let (verified, same) = settle-eq-went p1 (verify_unless dry c answered) e2 in
      RunsTo-take channel true (preflight_of_machine c) p q e1 (
        subst (λ (z : Progress S). RunsTo channel (map preflight_of_machine qs) z q) (sym same)
          (preflight_all-RunsTo dry channel qs p2 h2))

  pub RunsTo-append :
      (channel : Channel S) (first later : List Step) (p q r : Progress S)
      → RunsTo channel first p q
      → RunsTo channel later q r
      → RunsTo channel (first ++ later) p r
  RunsTo-append channel first later p q r (xs, ran_x, same_x) (ys, ran_y, same_y) = (
    xs ++ ys,
    Runs-append channel xs ys p.state q.state r.state ran_x ran_y,
    taken_steps-append xs ys ∙ ap₂ (λ a b. a ++ b) same_x same_y,
  )

  retire_held-RunsTo :
      (channel : Channel S) (held : Held) (hs : List Holding) (p : Progress S) {q : Progress S}
      → retire_held channel held hs p ≡ went q tt
      → RunsTo channel (retire_steps held hs) p q
  unfolding retire_held
  retire_held-RunsTo channel held [] p h = ([], cc, refl)
  retire_held-RunsTo channel held (x ∷ hs) p {q} h =
      let (p1, answered, e1, h1) = and_then-eq-went (take channel true (retire held x) p) _ h in
      RunsTo-take channel true (retire held x) p q e1 (retire_held-RunsTo channel held hs p1 h1)

  pub retire_if-RunsTo :
      (retiring : Bool) (channel : Channel S) (asked : List Held) (p : Progress S) {q : Progress S}
      → retire_if retiring channel asked p ≡ went q tt
      → RunsTo channel (retired_steps retiring asked) p q
  unfolding retire_if retire_all
  retire_if-RunsTo false channel asked p h = ([], cc, refl)
  retire_if-RunsTo true channel [] p h = ([], cc, refl)
  retire_if-RunsTo true channel (held ∷ asked) p {q} h =
      let (p1, u, e1, h1) = and_then-eq-went (retire_held channel held held.holdings p) _ h in
      RunsTo-append channel (retire_steps held held.holdings) (retired_steps true asked) p p1 q
        (retire_held-RunsTo channel held held.holdings p e1)
        (retire_if-RunsTo true channel asked p1 h1)
