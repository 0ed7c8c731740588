-- ===== src/Report/Status.antt =====
-- cli/report.py: `status`, which asks about every entry, then about the values of every machine, and
-- then what every machine holds.
pub mod Tests
use nixplan.Prelude.{
  zero, String, str_eq, Bool, true, false, not, ◌&&◌, ◌||◌, Option, none, some, List, [], ◌∷◌, ◌++◌,
  map, if◌then◌else◌,
}
use nixplan.Prelude.Int.{ℤ, pos}
use nixplan.Text.Words.{fstring}
use nixplan.Errors.{Exception, Result, ok, raises, ◌>>=◌}
use nixplan.Sorted.{text_order, contains, sorted_set}
use nixplan.Dict.{Dict, values}
use nixplan.Paths.{FilePath}
use nixplan.Manifest.{ValueFile, Entry, Deployment}
use nixplan.Manifest.Read.{Disk}
use nixplan.Manifest.Ask.{entry_scope, machine_scope, machine_address}
use nixplan.Remote.Holdings.{Holding, is_success, holdings_of, unnamed}
use nixplan.Remote.Holdings.Sections.{Decoder}
use nixplan.Remote.Scripts.{values_script}
use nixplan.Remote.Verbs.{status_script, holdings_script}
use nixplan.Report.{ValueAnswer}
use nixplan.Report.Entries.{
  EntryAnswer, undialled, unrealised, is_unrealised, the_endpoint_answered, answered_as,
}
use nixplan.Report.Lines.{Verdict, of_entry, of_value, of_holding, lines_of}
use nixplan.Report.Values.{Delivered, selected, machines, values_on, trial, values_answered}

-- How an address answers a script: the exit status and what was printed.
abbrev pub Asker : Type 0 → Type 0
Asker S = S → String → String → S × (ℤ × String)

-- What a report reads besides the deployment.
pub record Reader : Type 0 where
  pub disk : Disk
  pub decode : Decoder

-- A report as it is made: the machines, the answers and the lines so far, the last one first, and the
-- machines that answered nothing.
pub record Told (S : Type 0) : Type 0 where
  pub state : S
  pub answers : List Verdict
  pub lines : List String
  pub unasked : List String

pub record Report : Type 0 where
  pub lines : List String
  pub unasked : List String
  pub answers : List Verdict

-- How a part of a report ends.
pub data Asked (S : Type 0) : Type 0 where
  goes_on : Told S → Asked S
  ends : Told S → Exception → Asked S

abbrev pub has_trial : Option FilePath → Bool
has_trial none = false
has_trial (some check) = true

abbrev pub reverse_onto : {A : Type 0} → List A → List A → List A
reverse_onto [] onto = onto
reverse_onto (x ∷ xs) onto = reverse_onto xs (x ∷ onto)

module _ {S : Type 0} where
  abbrev pub and_ask : Asked S → (Told S → Asked S) → Asked S
  and_ask (goes_on t) f = f t
  and_ask (ends t e) f = ends t e

  abbrev pub settle_told : {A : Type 0} → Told S → Result A → (A → Asked S) → Asked S
  settle_told t (ok a) f = f a
  settle_told t (raises e) f = ends t e

  -- `told`: a line that was said is not said again where it is to be said once.
  unfoldable pub say_lines : Bool → List String → Told S → Told S
  unfolding contains
  say_lines once [] t = t
  say_lines once (line ∷ lines) t =
      let again = say_lines once lines t in
      let next = say_lines once lines (record t { lines = line ∷ t.lines }) in
      if once && contains line t.lines then again else next

  unfoldable pub tell : Reader → Bool → Verdict → Told S → Told S
  unfolding say_lines lines_of
  tell reader once answer t =
      say_lines once (lines_of reader.disk.str answer) (record t { answers = answer ∷ t.answers })

  abbrev pub unask : String → Told S → Told S
  unask machine t = record t { unasked = machine ∷ t.unasked }

  -- `_ask`
  abbrev pub asked_of : Asker S → Told S → String → Result String → Result (Told S × (ℤ × String))
  asked_of asker t address (raises e) = raises e
  asked_of asker t address (ok script) =
      let (s, answer) = asker t.state address script in ok (record t { state = s }, answer)

  unfoldable pub ask_at :
      Reader
      → Deployment
      → Asker S
      → Entry
      → Option FilePath
      → Option String
      → Told S
      → Result (Told S × (ℤ × String))
  unfolding entry_scope status_script
  ask_at reader d asker e none address t = ok (t, (unrealised, ""))
  ask_at reader d asker e (some path) none t = ok (t, (undialled, ""))
  ask_at reader d asker e (some path) (some address) t =
      asked_of asker t address (do scope ← entry_scope d e; status_script reader.disk e scope)

  -- One entry: its record is told, and a machine whose endpoint did not answer was not asked.
  unfoldable pub report_entry : Reader → Deployment → Asker S → Entry → Told S → Asked S
  unfolding ask_at answered_as tell
  report_entry reader d asker e t =
      settle_told t (ask_at reader d asker e e.path e.address t) λ (t1, (status, said)).
        settle_told t1 (answered_as reader.disk reader.decode e status said) λ answer.
          let t2 = tell reader false (of_entry answer) t1 in
          goes_on (
            if not (is_unrealised status) && not (the_endpoint_answered status)
            then unask e.machine t2
            else t2)

  unfoldable pub report_entries : Reader → Deployment → Asker S → List Entry → Told S → Asked S
  unfolding report_entry
  report_entries reader d asker [] t = goes_on t
  report_entries reader d asker (e ∷ es) t =
      and_ask (report_entry reader d asker e t) λ t1. report_entries reader d asker es t1

  unfoldable pub tell_values : Reader → List ValueAnswer → Told S → Told S
  unfolding tell
  tell_values reader [] t = t
  tell_values reader (v ∷ vs) t = tell_values reader vs (tell reader true (of_value v) t)

  -- The values of one machine, in one question.
  unfoldable pub values_told :
      Reader → String → List Delivered → Bool → Told S → ℤ × String → Told S
  unfolding values_answered tell_values
  values_told reader machine delivered asked t (status, said) =
      if is_success status
      then tell_values reader (values_answered delivered machine said asked) t
      else unask machine t

  unfoldable pub report_values :
      Reader → Deployment → Asker S → String × List Delivered → Told S → Asked S
  unfolding machine_address trial values_script values_told
  report_values reader d asker (machine, delivered) t =
      settle_told t (machine_address d machine (fstring ("the values of " ∷ machine ∷ [])))
        λ address.
          let question =
            values_script (map (λ (f : Delivered). (f.1).path) delivered) (trial d machine) in
          let (s, answer) = asker t.state address question in
          goes_on (
            values_told reader machine delivered (has_trial (trial d machine))
              (record t { state = s }) answer)

  unfoldable pub report_all_values :
      Reader → Deployment → Asker S → Dict (List Delivered) → Told S → Asked S
  unfolding report_values
  report_all_values reader d asker [] t = goes_on t
  report_all_values reader d asker (m ∷ ms) t =
      and_ask (report_values reader d asker m t) λ t1. report_all_values reader d asker ms t1

  unfoldable pub tell_holdings : Reader → String → List Holding → Told S → Told S
  unfolding tell
  tell_holdings reader machine [] t = t
  tell_holdings reader machine (h ∷ hs) t =
      tell_holdings reader machine hs (tell reader false (of_holding machine h) t)

  -- `_holdings`, and what a report tells of them
  unfoldable pub holdings_told : Reader → Deployment → String → Told S → ℤ × String → Asked S
  unfolding holdings_of unnamed tell_holdings
  holdings_told reader d machine t (status, said) =
      if is_success status
      then settle_told t
          (do
            held ← holdings_of reader.decode machine (values d.realisers) said
            unnamed reader.disk d.entries (values d.realisers) held)
          (λ held. goes_on (tell_holdings reader machine held t))
      else goes_on (unask machine t)

  unfoldable pub ask_holdings : Reader → Deployment → Asker S → String → String → Told S → Asked S
  unfolding machine_address holdings_told
  ask_holdings reader d asker machine question t =
      settle_told t (machine_address d machine (fstring ("what " ∷ machine ∷ " holds" ∷ [])))
        λ address.
          let (s, answer) = asker t.state address question in
          holdings_told reader d machine (record t { state = s }) answer

  unfoldable pub report_holdings : Reader → Deployment → Asker S → String → Told S → Asked S
  unfolding machine_scope holdings_script ask_holdings
  report_holdings reader d asker machine t = settle_told t (machine_scope d machine) λ scope.
      let question = holdings_script (values d.realisers) scope in
      if str_eq question "" then goes_on t else ask_holdings reader d asker machine question t

  unfoldable pub report_all_holdings :
      Reader → Deployment → Asker S → List String → Told S → Asked S
  unfolding report_holdings
  report_all_holdings reader d asker [] t = goes_on t
  report_all_holdings reader d asker (machine ∷ ms) t =
      and_ask (report_holdings reader d asker machine t)
        λ t1. report_all_holdings reader d asker ms t1

  unfoldable pub status_told : Reader → Deployment → Asker S → List String → Told S → Asked S
  unfolding selected machines values_on report_entries report_all_values report_all_holdings
  status_told reader d asker only t = settle_told t (selected d only) λ es.
      and_ask (report_entries reader d asker es t) λ t1.
        and_ask (report_all_values reader d asker (values_on d (machines es)) t1)
          λ t2. report_all_holdings reader d asker (machines es) t2

  abbrev pub reported : Asked S → Result (S × Report)
  reported (ends t e) = raises e
  reported (goes_on t) = ok (
    t.state,
    record {
      lines = reverse_onto t.lines [];
      unasked = sorted_set t.unasked;
      answers = reverse_onto t.answers [];
    },
  )

  -- `status`
  unfoldable pub status : Reader → Deployment → Asker S → List String → S → Result (S × Report)
  unfolding status_told sorted_set
  status reader d asker only s = reported (
      status_told reader d asker only
        (record { state = s; answers = []; lines = []; unasked = [] }))
