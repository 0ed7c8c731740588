-- ===== src/Apply/Whole.antt =====
-- cli/apply.py: `holdings`, `holding_lines`, and `apply` as a whole.
pub mod Tests
use nixplan.Prelude.{
  ℕ, zero, suc, String, str_eq, Bool, true, false, not, ◌&&◌, ◌||◌, ◌==◌, Option, none, some, List,
  [], ◌∷◌, ◌++◌, map, flat_map, is_empty, any, if◌then◌else◌,
}
use nixplan.Prelude.Int.{ℤ, pos}
use nixplan.Text.Words.{fstring}
use nixplan.Errors.{Exception, Result, ok, raises, refuse, not_asked, ◌>>=◌}
use nixplan.Sorted.{text_order, contains}
use nixplan.Dict.{Dict, get, put, values, sorted_items}
use nixplan.Order.{Pair}
use nixplan.Manifest.{Entry, Realiser, Deployment}
use nixplan.Manifest.Read.{Disk}
use nixplan.Manifest.Ask.{machine_scope}
use nixplan.Remote.Holdings.{Holding, holdings_of, unnamed}
use nixplan.Remote.Holdings.Sections.{Decoder}
use nixplan.Remote.Answers.{verify}
use nixplan.Remote.Options.{channel as options}
use nixplan.Paths.{FilePath}
use nixplan.Remote.Verbs.{holdings_script}
use nixplan.Remote.Preflight.{preflight}
use nixplan.Apply.{Preflight, Outside, preflights, announcements}
use nixplan.Apply.Run.{
  Held, Taken, Request, Prepared, prepare, Step, ask_holdings, preflight_of_machine, retire,
  Outcome, said, exited, Channel, nobody, Line, told, Progress, Ended, went, stopped, raised,
  record_line, and_then, settle, take, deliver,
}

-- What a run reads besides the deployment.
pub record World : Type 0 where
  pub disk : Disk
  pub outside : Outside
  pub runs : String → Bool
  pub decode : Decoder
  -- the environment of the run, and its private key
  pub environ : Dict String
  pub ssh_key : Option FilePath

-- The machines of the entries that are taken, each with an address.
unfoldable pub reached_at : Dict String → List Taken → Dict String
unfolding put
reached_at reached [] = reached
reached_at reached (t ∷ ts) = reached_at (put reached t.entry.machine t.address) ts

abbrev held_if : String → String → String → List Holding → List Held
held_if machine address scope [] = []
held_if machine address scope (h ∷ hs) =
    record { machine = machine; address = address; scope = scope; holdings = h ∷ hs } ∷ []

-- `remote.asking`: how the question exited, and what the machine printed.
abbrev pub answer_of : Outcome → ℤ × String
answer_of (said answer) = (pos 0, answer)
answer_of (exited status printed) = (status, printed)

abbrev is_unreachable : ℤ → Bool
is_unreachable (pos n) = n == 255
is_unreachable _ = false

abbrev is_answered : ℤ → Bool
is_answered (pos zero) = true
is_answered _ = false

unfoldable pub answered_holdings :
    World → Deployment → String → String → String → ℤ × String → Result (List Held)
unfolding holdings_of unnamed
answered_holdings world d machine address scope (status, printed) =
    if is_unreachable status
    then ok []
    else if is_answered status
    then (do
      held ← holdings_of world.decode machine (values d.realisers) printed
      foreign ← unnamed world.disk d.entries (values d.realisers) held
      ok (held_if machine address scope foreign))
    else refuse (not_asked machine status printed)

-- `holding_lines`, with the line of `report.lines_of`
abbrev kept : Bool → String
kept true = ""
kept false = "; not retired"

unfoldable pub holding_lines : Bool → List Held → List String
holding_lines retiring asked =
    flat_map
      (λ (held : Held).
        map
          (λ (h : Holding). fstring (
            held.machine
            ∷ " holds "
            ∷ h.identity
            ∷ ", which this build does not name"
            ∷ kept retiring
            ∷ []))
          held.holdings)
      asked

abbrev pub verify_unless : Bool → Preflight → String → Result (Unit {0})
verify_unless true q answered = ok tt
verify_unless false q answered = verify q.machine (preflight q.portabled) answered

module _ {S : Type 0} where
  -- A machine that no published realiser reaches is asked nothing. A question is no step: nothing is
  -- announced.
  unfoldable pub question :
      World → Deployment → Channel S → String → String → String → Progress S → Ended S (List Held)
  unfolding answered_holdings
  question world d channel machine address scope p =
      let (s, outcome) = channel p.state (ask_holdings machine address scope) in
      settle (record p { state = s })
        (answered_holdings world d machine address scope (answer_of outcome))

  unfoldable pub hold_machine :
      World → Deployment → Channel S → String × String → Progress S → Ended S (List Held)
  unfolding question machine_scope holdings_script
  hold_machine world d channel (machine, address) p =
      and_then (settle p (machine_scope d machine)) λ p1 scope.
        if str_eq (holdings_script (values d.realisers) scope) ""
        then went p1 []
        else question world d channel machine address scope p1

  -- `holdings`: every machine is asked before anything is written.
  unfoldable pub holdings :
      World → Deployment → Channel S → Dict String → Progress S → Ended S (List Held)
  unfolding hold_machine
  holdings world d channel [] p = went p []
  holdings world d channel (m ∷ ms) p =
      and_then (hold_machine world d channel m p)
        λ p1 held. and_then (holdings world d channel ms p1) λ p2 others. went p2 (held ++ others)

  unfoldable pub tell : List String → Progress S → Progress S
  tell [] p = p
  tell (line ∷ lines) p = tell lines (record_line (told line) p)

  -- A dry run asked nothing, so it verifies nothing.
  unfoldable pub preflight_all : Bool → Channel S → List Preflight → Progress S → Ended S (Unit {0})
  unfolding take verify preflight
  preflight_all dry channel [] p = went p tt
  preflight_all dry channel (q ∷ qs) p =
      and_then (take channel true (preflight_of_machine q) p) λ p1 answered.
        and_then (settle p1 (verify_unless dry q answered)) λ p2 u. preflight_all dry channel qs p2

  unfoldable pub retire_held : Channel S → Held → List Holding → Progress S → Ended S (Unit {0})
  unfolding take
  retire_held channel held [] p = went p tt
  retire_held channel held (h ∷ hs) p =
      and_then (take channel true (retire held h) p) λ p1 answered. retire_held channel held hs p1

  unfoldable pub retire_all : Channel S → List Held → Progress S → Ended S (Unit {0})
  unfolding retire_held
  retire_all channel [] p = went p tt
  retire_all channel (held ∷ asked) p =
      and_then (retire_held channel held held.holdings p) λ p1 u. retire_all channel asked p1

  unfoldable pub retire_if : Bool → Channel S → List Held → Progress S → Ended S (Unit {0})
  unfolding retire_all
  retire_if false channel asked p = went p tt
  retire_if true channel asked p = retire_all channel asked p

  -- What a run does with the machines after it was prepared.
  unfoldable pub carry_out :
      World → Deployment → Bool → Bool → Channel S → Prepared → Progress S → Ended S (Unit {0})
  unfolding holdings reached_at sorted_items holding_lines tell announcements preflights
      preflight_all retire_if deliver
  carry_out world d dry retiring channel prepared p =
      and_then (holdings world d channel (sorted_items (reached_at [] prepared.taken)) p)
        λ p1 asked.
          let begun =
            tell (announcements prepared.walked prepared.withheld ++ holding_lines retiring asked)
              p1 in
          and_then
            (settle begun (
              preflights d (map (λ (t : Taken). (t.key, t.address)) prepared.taken)
                prepared.planned))
            λ p2 qs. and_then (preflight_all dry channel qs p2) λ p3 u.
              and_then (retire_if retiring channel asked p3) λ p4 v. deliver d channel prepared p4

  abbrev pub channel_of : Bool → Channel S → Channel S
  channel_of true channel = nobody
  channel_of false channel = channel

  -- `apply`
  unfoldable pub apply :
      World → Deployment → Request → Bool → Bool → Channel S → S → Ended S (Unit {0})
  unfolding prepare carry_out nobody options
  apply world d request dry retiring channel s =
      let start : Progress S = record { state = s; lines = [] } in
      and_then (settle start (prepare world.disk world.outside world.runs d request)) λ p prepared.
        and_then (settle p (options world.environ world.ssh_key))
          λ p1 shared. carry_out world d dry retiring (channel_of dry channel) prepared p1
