-- ===== src/Report/Told.antt =====
-- cli/report.py: the lines that a `status` prints are those of its answers.
pub mod Said
use nixplan.Prelude.{
  String, str_eq, eq_iff, Bool, true, false, not, ◌&&◌, ◌||◌, Option, Bool-cases, inl, inr,
  and_true, ◌≡◌, refl, sym, ap, ◌∙◌, none, some, List, [], ◌∷◌, arith, map, if◌then◌else◌,
}
use nixplan.Prelude.Int.{ℤ}
use nixplan.Errors.{Result, ok, raises, ok-injective, ◌>>=◌}
use nixplan.Sorted.{text_order, contains}
use nixplan.Dict.{Dict, values}
use nixplan.Json.{Json}
use nixplan.Paths.{FilePath}
use nixplan.Manifest.{Entry, Deployment}
use nixplan.Remote.Holdings.{Holding, is_success, holdings_of, unnamed}
use nixplan.Remote.Scripts.{values_script}
use nixplan.Remote.Verbs.{holdings_script}
use nixplan.Report.{ValueAnswer}
use nixplan.Manifest.Ask.{machine_address, machine_scope}
use nixplan.Text.Words.{fstring}
use nixplan.Report.Entries.{answered_as, is_unrealised, the_endpoint_answered}
use nixplan.Report.Lines.{Verdict, of_entry, of_value, of_holding, lines_of}
use nixplan.Report.Values.{Delivered, selected, machines, values_on, trial, values_answered}
use nixplan.Report.Status.{
  Asker, asked_of, Reader, Told, Report, Asked, goes_on, ends, and_ask, settle_told, say_lines,
  tell, unask, ask_at, report_entry, report_entries, tell_values, report_values, report_all_values,
  values_told, has_trial, holdings_told, tell_holdings, ask_holdings, report_holdings,
  report_all_holdings, status_told, reverse_onto, reported, status,
}
use Said.{
  is_told, swap, already, contains-reverse_onto, is_told-reverse_onto, or_false, answers-say_lines,
  ask_at-same,
}

module _ {S : Type 0} (reader : Reader) (line : String) where
  abbrev pub IsMatched : Told S → Type 0
  IsMatched t = contains line t.lines ≡ is_told reader.disk.str line t.answers

  abbrev pub Matched : Asked S → Type 0
  Matched (goes_on t) = IsMatched t
  Matched (ends t e) = IsMatched t

  contains-say_lines :
      (once : Bool) (ls : List String) (t : Told S)
      → contains line (say_lines once ls t).lines ≡ (contains line ls || contains line t.lines)
  unfolding say_lines contains
  contains-say_lines once [] t = refl
  contains-say_lines once (l ∷ ls) t = elim (Bool-cases (once && contains l t.lines)) [
    | inl y ↦ rw y (
        contains-say_lines once ls t
        ∙ already (str_eq l line) (contains line ls) (contains line t.lines) (λ e.
          ap (λ z. contains z t.lines) (sym ((eq_iff l line).0 e))
          ∙ (and_true once (contains l t.lines) y).1))
    | inr n ↦ rw n (
        contains-say_lines once ls (record t { lines = l ∷ t.lines })
        ∙ swap (contains line ls) (str_eq l line) (contains line t.lines))
  ]

  tell-IsMatched :
      (once : Bool) (a : Verdict) (t : Told S) → IsMatched t → IsMatched (tell reader once a t)
  unfolding tell
  tell-IsMatched once a t h =
      let ls = lines_of reader.disk.str a in
      let t1 : Told S = record t { answers = a ∷ t.answers } in
      contains-say_lines once ls t1
      ∙ ap (λ b. contains line ls || b) h
      ∙ ap (is_told reader.disk.str line) (sym (answers-say_lines once ls t1))

  and_ask-Matched :
      (m : Asked S) (f : Told S → Asked S)
      → Matched m
      → ((t : Told S) → IsMatched t → Matched (f t))
      → Matched (and_ask m f)
  and_ask-Matched (goes_on t) f h k = k t h
  and_ask-Matched (ends t e) f h k = h

  settle_told-Matched :
      {A : Type 0} (t : Told S) (r : Result A) (f : A → Asked S)
      → IsMatched t
      → ((a : A) → Matched (f a))
      → Matched (settle_told t r f)
  settle_told-Matched t (ok a) f h k = k a
  settle_told-Matched t (raises e) f h k = h

  choice-IsMatched :
      (c : Bool) (t u : Told S) → IsMatched t → IsMatched u → IsMatched (if c then t else u)
  choice-IsMatched true t u h k = h
  choice-IsMatched false t u h k = k

  choice-Matched : (c : Bool) (m n : Asked S) → Matched m → Matched n → Matched (if c then m else n)
  choice-Matched true m n h k = h
  choice-Matched false m n h k = k

  module _ (d : Deployment) (asker : Asker S) where
    report_entry-Matched :
        (e : Entry) (t : Told S) → IsMatched t → Matched (report_entry reader d asker e t)
    unfolding report_entry
    report_entry-Matched e t h = on_answer (ask_at reader d asker e e.path e.address t) refl
      where
        on_answer :
            (r : Result (Told S × (ℤ × String)))
            → ask_at reader d asker e e.path e.address t ≡ r
            → Matched (
                settle_told t r λ (t1, (status, said)).
                  settle_told t1 (answered_as reader.disk reader.decode e status said) λ answer.
                    let t2 = tell reader false (of_entry answer) t1 in
                    goes_on (
                      if not (is_unrealised status) && not (the_endpoint_answered status)
                      then unask e.machine t2
                      else t2))
        on_answer (raises x) asked = h
        on_answer (ok (t1, (status, said))) asked =
            let (same_lines, same_answers) =
              ask_at-same reader d asker e e.path e.address t t1 (status, said) asked in
            let same : IsMatched t1 =
              ap (contains line) same_lines
              ∙ h
              ∙ ap (is_told reader.disk.str line) (sym same_answers) in
            settle_told-Matched t1 (answered_as reader.disk reader.decode e status said) _ same
              λ answer.
                choice-IsMatched (not (is_unrealised status) && not (the_endpoint_answered status))
                  _ _ (tell-IsMatched false (of_entry answer) t1 same)
                  (tell-IsMatched false (of_entry answer) t1 same)

    report_entries-Matched :
        (es : List Entry) (t : Told S) → IsMatched t → Matched (report_entries reader d asker es t)
    unfolding report_entries
    report_entries-Matched [] t h = h
    report_entries-Matched (e ∷ es) t h =
        and_ask-Matched (report_entry reader d asker e t) _ (report_entry-Matched e t h)
          (report_entries-Matched es)

    tell_values-IsMatched :
        (vs : List ValueAnswer) (t : Told S) → IsMatched t → IsMatched (tell_values reader vs t)
    unfolding tell_values
    tell_values-IsMatched [] t h = h
    tell_values-IsMatched (v ∷ vs) t h =
        tell_values-IsMatched vs (tell reader true (of_value v) t)
          (tell-IsMatched true (of_value v) t h)

    values_told-IsMatched :
        (machine : String) (delivered : List Delivered) (asked : Bool) (t : Told S)
        (answer : ℤ × String)
        → IsMatched t
        → IsMatched (values_told reader machine delivered asked t answer)
    unfolding values_told
    values_told-IsMatched machine delivered asked t (status, said) h =
        choice-IsMatched (is_success status) _ (unask machine t)
          (tell_values-IsMatched (values_answered delivered machine said asked) t h) h

    report_values-Matched :
        (m : String × List Delivered) (t : Told S)
        → IsMatched t
        → Matched (report_values reader d asker m t)
    unfolding report_values
    report_values-Matched (machine, delivered) t h =
        settle_told-Matched t
          (machine_address d machine (fstring ("the values of " ∷ machine ∷ []))) _ h
          λ address.
            let (s, answer) =
              asker t.state address
                (values_script (map (λ (f : Delivered). (f.1).path) delivered) (trial d machine)) in
            values_told-IsMatched machine delivered (has_trial (trial d machine))
              (record t { state = s }) answer h

    report_all_values-Matched :
        (ms : Dict (List Delivered)) (t : Told S)
        → IsMatched t
        → Matched (report_all_values reader d asker ms t)
    unfolding report_all_values
    report_all_values-Matched [] t h = h
    report_all_values-Matched (m ∷ ms) t h =
        and_ask-Matched (report_values reader d asker m t) _ (report_values-Matched m t h)
          (report_all_values-Matched ms)

    tell_holdings-IsMatched :
        (machine : String) (hs : List Holding) (t : Told S)
        → IsMatched t
        → IsMatched (tell_holdings reader machine hs t)
    unfolding tell_holdings
    tell_holdings-IsMatched machine [] t h = h
    tell_holdings-IsMatched machine (x ∷ hs) t h =
        tell_holdings-IsMatched machine hs (tell reader false (of_holding machine x) t)
          (tell-IsMatched false (of_holding machine x) t h)

    holdings_told-Matched :
        (machine : String) (t : Told S) (answer : ℤ × String)
        → IsMatched t
        → Matched (holdings_told reader d machine t answer)
    unfolding holdings_told
    holdings_told-Matched machine t (status, said) h =
        choice-Matched (is_success status) _ (goes_on (unask machine t))
          (settle_told-Matched t
            (holdings_of reader.decode machine (values d.realisers) said >>= λ held.
              unnamed reader.disk d.entries (values d.realisers) held)
            (λ held. goes_on (tell_holdings reader machine held t)) h
            (λ held. tell_holdings-IsMatched machine held t h))
          h

    ask_holdings-Matched :
        (machine question : String) (t : Told S)
        → IsMatched t
        → Matched (ask_holdings reader d asker machine question t)
    unfolding ask_holdings
    ask_holdings-Matched machine question t h =
        settle_told-Matched t
          (machine_address d machine (fstring ("what " ∷ machine ∷ " holds" ∷ []))) _ h
          λ address.
            let (s, answer) = asker t.state address question in
            holdings_told-Matched machine (record t { state = s }) answer h

    report_holdings-Matched :
        (machine : String) (t : Told S)
        → IsMatched t
        → Matched (report_holdings reader d asker machine t)
    unfolding report_holdings
    report_holdings-Matched machine t h =
        settle_told-Matched t (machine_scope d machine) _ h λ scope.
          let question = holdings_script (values d.realisers) scope in
          choice-Matched (str_eq question "") (goes_on t)
            (ask_holdings reader d asker machine question t) h
            (ask_holdings-Matched machine question t h)

    report_all_holdings-Matched :
        (ms : List String) (t : Told S)
        → IsMatched t
        → Matched (report_all_holdings reader d asker ms t)
    unfolding report_all_holdings
    report_all_holdings-Matched [] t h = h
    report_all_holdings-Matched (m ∷ ms) t h =
        and_ask-Matched (report_holdings reader d asker m t) _ (report_holdings-Matched m t h)
          (report_all_holdings-Matched ms)

    status_told-Matched :
        (only : List String) (t : Told S)
        → IsMatched t
        → Matched (status_told reader d asker only t)
    unfolding status_told
    status_told-Matched only t h = settle_told-Matched t (selected d only) _ h λ es.
        and_ask-Matched (report_entries reader d asker es t) _ (report_entries-Matched es t h)
          λ t1 h1.
            and_ask-Matched (report_all_values reader d asker (values_on d (machines es)) t1) _
              (report_all_values-Matched (values_on d (machines es)) t1 h1)
              (report_all_holdings-Matched (machines es))

-- Whatever the machines answer, the lines of a `status` are exactly the lines of its answers.
pub contains-status :
    {S : Type 0} (reader : Reader) (d : Deployment) (asker : Asker S) (only : List String)
    (s s1 : S) (r : Report) (line : String)
    → status reader d asker only s ≡ ok (s1, r)
    → contains line r.lines ≡ is_told reader.disk.str line r.answers
unfolding status
contains-status {S} reader d asker only s s1 r line h =
    ended (status_told reader d asker only start)
      (status_told-Matched reader line d asker only start refl) h
  where
    start : Told S
    start = record { state = s; answers = []; lines = []; unasked = [] }

    ended :
        (m : Asked S)
        → Matched reader line m
        → reported m ≡ ok (s1, r)
        → contains line r.lines ≡ is_told reader.disk.str line r.answers
    ended (ends t e) matched h = cc
    ended (goes_on t) matched h =
        let same = ok-injective h in
        ap (λ z. contains line (z.1).lines) (sym same)
        ∙ contains-reverse_onto line t.lines []
        ∙ or_false _ _ matched
        ∙ sym (is_told-reverse_onto reader.disk.str line t.answers [])
        ∙ ap (λ z. is_told reader.disk.str line (z.1).answers) same
