-- ===== src/Report/Each.antt =====
-- cli/report.py: the entries that a `status` answers for, in order.
pub mod Adding
use nixplan.Prelude.{
  String, str_eq, Bool, true, false, not, ◌&&◌, ◌≡◌, refl, sym, ap, ap₂, ◌∙◌, List, [], ◌∷◌, ◌++◌,
  append_assoc, append-nil, map, if◌then◌else◌,
}
use nixplan.Prelude.Int.{ℤ}
use nixplan.Text.Words.{fstring}
use nixplan.Errors.{Result, ok, raises, ok-injective, ◌>>=◌}
use nixplan.Dict.{Dict, values}
use nixplan.Manifest.{Entry, Deployment}
use nixplan.Manifest.Ask.{machine_address, machine_scope}
use nixplan.Remote.Holdings.{Holding, is_success, holdings_of, unnamed}
use nixplan.Remote.Scripts.{values_script}
use nixplan.Remote.Verbs.{holdings_script}
use nixplan.Report.{ValueAnswer}
use nixplan.Report.Entries.{EntryAnswer, answered_as, is_unrealised, the_endpoint_answered}
use nixplan.Report.Lines.{Verdict, of_entry, of_value, of_holding, lines_of}
use nixplan.Report.Values.{Delivered, selected, machines, values_on, trial, values_answered}
use nixplan.Report.Status.{
  Asker, Reader, Told, Report, Asked, goes_on, ends, and_ask, settle_told, tell, unask, ask_at,
  report_entry, report_entries, tell_values, report_values, report_all_values, values_told,
  has_trial, holdings_told, tell_holdings, ask_holdings, report_holdings, report_all_holdings,
  status_told, reverse_onto, reported, status,
}
use nixplan.Report.Told.Said.{answers-say_lines, ask_at-same}
use nixplan.Report.About.{answered_as-IsAbout}
use Adding.{
  Placed, placed, entries_answered, answered_onto, entries_answered-reverse_onto, AddsTo, Adds,
  and_ask-Adds, settle_told-Adds, choice-Adds, choice-AddsTo,
}

module _ {S : Type 0} (reader : Reader) (d : Deployment) (asker : Asker S) where
  answers-tell :
      (once : Bool) (a : Verdict) (t : Told S) → (tell reader once a t).answers ≡ a ∷ t.answers
  unfolding tell
  answers-tell once a t =
      answers-say_lines once (lines_of reader.disk.str a) (record t { answers = a ∷ t.answers })

  tell_values-AddsTo : (vs : List ValueAnswer) (t : Told S) → AddsTo [] t (tell_values reader vs t)
  unfolding tell_values
  tell_values-AddsTo [] t = λ onto. refl
  tell_values-AddsTo (v ∷ vs) t = λ onto.
      tell_values-AddsTo vs (tell reader true (of_value v) t) onto
      ∙ ap (λ answers. answered_onto answers onto) (answers-tell true (of_value v) t)

  tell_holdings-AddsTo :
      (machine : String) (hs : List Holding) (t : Told S)
      → AddsTo [] t (tell_holdings reader machine hs t)
  unfolding tell_holdings
  tell_holdings-AddsTo machine [] t = λ onto. refl
  tell_holdings-AddsTo machine (h ∷ hs) t = λ onto.
      tell_holdings-AddsTo machine hs (tell reader false (of_holding machine h) t) onto
      ∙ ap (λ answers. answered_onto answers onto) (answers-tell false (of_holding machine h) t)

  report_entry-Adds :
      (e : Entry) (t : Told S) → Adds (placed e ∷ []) t (report_entry reader d asker e t)
  unfolding report_entry
  report_entry-Adds e t = on_answer (ask_at reader d asker e e.path e.address t) refl
    where
      on_answer :
          (r : Result (Told S × (ℤ × String)))
          → ask_at reader d asker e e.path e.address t ≡ r
          → Adds (placed e ∷ []) t (
              settle_told t r λ (t1, (status, said)).
                settle_told t1 (answered_as reader.disk reader.decode e status said) λ answer.
                  let t2 = tell reader false (of_entry answer) t1 in
                  goes_on (
                    if not (is_unrealised status) && not (the_endpoint_answered status)
                    then unask e.machine t2
                    else t2))
      on_answer (raises x) asked = tt
      on_answer (ok (t1, (status, said))) asked =
          on_record (answered_as reader.disk reader.decode e status said) refl
        where
          on_record :
              (r : Result EntryAnswer)
              → answered_as reader.disk reader.decode e status said ≡ r
              → Adds (placed e ∷ []) t (
                  settle_told t1 r λ answer.
                    let t2 = tell reader false (of_entry answer) t1 in
                    goes_on (
                      if not (is_unrealised status) && not (the_endpoint_answered status)
                      then unask e.machine t2
                      else t2))
          on_record (raises x) made = tt
          on_record (ok a) made =
              let same =
                (ask_at-same reader d asker e e.path e.address t t1 (status, said) asked).1 in
              let (same_key, same_machine) =
                answered_as-IsAbout reader.disk reader.decode e status said a made in
              let t2 = tell reader false (of_entry a) t1 in
              let adds : AddsTo (placed e ∷ []) t t2 = λ onto.
                ap (λ answers. answered_onto answers onto) (answers-tell false (of_entry a) t1)
                ∙ ap₂ (λ answers p. answered_onto answers (p ∷ onto)) same
                    (ap₂ (λ k m. (k, m)) same_key same_machine) in
              choice-AddsTo (placed e ∷ []) t
                (not (is_unrealised status) && not (the_endpoint_answered status))
                (unask e.machine t2) t2 adds adds

  report_entries-Adds :
      (es : List Entry) (t : Told S) → Adds (map placed es) t (report_entries reader d asker es t)
  unfolding report_entries
  report_entries-Adds [] t = λ onto. refl
  report_entries-Adds (e ∷ es) t =
      and_ask-Adds (placed e ∷ []) (map placed es) t (report_entry reader d asker e t) _
        (report_entry-Adds e t) (report_entries-Adds es)

  values_told-AddsTo :
      (machine : String) (delivered : List Delivered) (asked : Bool) (t : Told S)
      (answer : ℤ × String)
      → AddsTo [] t (values_told reader machine delivered asked t answer)
  unfolding values_told
  values_told-AddsTo machine delivered asked t (status, said) =
      choice-AddsTo [] t (is_success status)
        (tell_values reader (values_answered delivered machine said asked) t) (unask machine t)
        (tell_values-AddsTo (values_answered delivered machine said asked) t) (λ onto. refl)

  report_values-Adds :
      (m : String × List Delivered) (t : Told S) → Adds [] t (report_values reader d asker m t)
  unfolding report_values
  report_values-Adds (machine, delivered) t =
      settle_told-Adds [] t (machine_address d machine (fstring ("the values of " ∷ machine ∷ [])))
        _
        λ address.
          let (s, answer) =
            asker t.state address
              (values_script (map (λ (f : Delivered). (f.1).path) delivered) (trial d machine)) in
          values_told-AddsTo machine delivered (has_trial (trial d machine))
            (record t { state = s }) answer

  report_all_values-Adds :
      (ms : Dict (List Delivered)) (t : Told S) → Adds [] t (report_all_values reader d asker ms t)
  unfolding report_all_values
  report_all_values-Adds [] t = λ onto. refl
  report_all_values-Adds (m ∷ ms) t =
      and_ask-Adds [] [] t (report_values reader d asker m t) _ (report_values-Adds m t)
        (report_all_values-Adds ms)

  holdings_told-Adds :
      (machine : String) (t : Told S) (answer : ℤ × String)
      → Adds [] t (holdings_told reader d machine t answer)
  unfolding holdings_told
  holdings_told-Adds machine t (status, said) =
      choice-Adds [] t (is_success status) _ (goes_on (unask machine t))
        (settle_told-Adds [] t
          (holdings_of reader.decode machine (values d.realisers) said >>= λ held.
            unnamed reader.disk d.entries (values d.realisers) held)
          (λ held. goes_on (tell_holdings reader machine held t))
          (λ held. tell_holdings-AddsTo machine held t))
        (λ onto. refl)

  ask_holdings-Adds :
      (machine question : String) (t : Told S)
      → Adds [] t (ask_holdings reader d asker machine question t)
  unfolding ask_holdings
  ask_holdings-Adds machine question t =
      settle_told-Adds [] t
        (machine_address d machine (fstring ("what " ∷ machine ∷ " holds" ∷ []))) _
        λ address.
          let (s, answer) = asker t.state address question in
          holdings_told-Adds machine (record t { state = s }) answer

  report_holdings-Adds :
      (machine : String) (t : Told S) → Adds [] t (report_holdings reader d asker machine t)
  unfolding report_holdings
  report_holdings-Adds machine t = settle_told-Adds [] t (machine_scope d machine) _ λ scope.
      let question = holdings_script (values d.realisers) scope in
      choice-Adds [] t (str_eq question "") (goes_on t)
        (ask_holdings reader d asker machine question t) (λ onto. refl)
        (ask_holdings-Adds machine question t)

  report_all_holdings-Adds :
      (ms : List String) (t : Told S) → Adds [] t (report_all_holdings reader d asker ms t)
  unfolding report_all_holdings
  report_all_holdings-Adds [] t = λ onto. refl
  report_all_holdings-Adds (m ∷ ms) t =
      and_ask-Adds [] [] t (report_holdings reader d asker m t) _ (report_holdings-Adds m t)
        (report_all_holdings-Adds ms)

  -- A `status` that goes through has one answer for each selected entry, in the order of the
  -- selection, with the entry's key and machine, however the machines answer.
  pub entries_answered-status :
      (only : List String) (es : List Entry) (s s1 : S) (r : Report)
      → selected d only ≡ ok es
      → status reader d asker only s ≡ ok (s1, r)
      → entries_answered r.answers ≡ map placed es
  unfolding status status_told
  entries_answered-status only es s s1 r chosen h =
      ended (rest es) rest-Adds (sym (ap (λ c. reported (settle_told start c rest)) chosen) ∙ h)
    where
      start : Told S
      start = record { state = s; answers = []; lines = []; unasked = [] }

      rest : List Entry → Asked S
      rest = λ es. and_ask (report_entries reader d asker es start) λ t1.
          and_ask (report_all_values reader d asker (values_on d (machines es)) t1)
            λ t2. report_all_holdings reader d asker (machines es) t2

      rest-Adds : Adds (map placed es ++ []) start (rest es)
      rest-Adds =
          and_ask-Adds (map placed es) [] start (report_entries reader d asker es start) _
            (report_entries-Adds es start)
            λ t1.
              and_ask-Adds [] [] t1
                (report_all_values reader d asker (values_on d (machines es)) t1) _
                (report_all_values-Adds (values_on d (machines es)) t1)
                (report_all_holdings-Adds (machines es))

      ended :
          (m : Asked S)
          → Adds (map placed es ++ []) start m
          → reported m ≡ ok (s1, r)
          → entries_answered r.answers ≡ map placed es
      ended (ends t e) adds same = cc
      ended (goes_on t) adds same =
          ap (λ z. entries_answered (z.1).answers) (sym (ok-injective same))
          ∙ entries_answered-reverse_onto t.answers []
          ∙ adds []
          ∙ append-nil (map placed es ++ [])
          ∙ append-nil (map placed es)
