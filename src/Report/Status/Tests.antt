-- ===== src/Report/Status/Tests.antt =====
-- A `status` of the sample deployment.
use nixplan.Prelude.{ℕ, suc, String, true, false, ◌≡◌, refl, none, [], ◌∷◌, map}
use nixplan.Prelude.Int.{pos}
use nixplan.Text.{str_lt}
use nixplan.Errors.{ok}
use nixplan.Sorted.{text_order, contains}
use nixplan.Json.{object, field, text, end}
use nixplan.Manifest.Read.{content, os_error}
use nixplan.Report.Entries.{reached_as, absent}
use nixplan.Report.Lines.{of_entry, of_value}
use nixplan.Report.Values.{selected}
use nixplan.Report.Status.{Asker, Reader, Report, status}
use nixplan.Report.Told.{contains-status}
use nixplan.Report.Told.Said.{is_told}
use nixplan.Report.Each.{entries_answered-status}
use nixplan.Report.Each.Adding.{entries_answered, placed}
use nixplan.Samples.{sample, web, build_root}

abbrev reader : Reader
reader = record {
  disk = record {
    links = record { cwd = build_root; resolve = λ p. p };
    is_file = λ p. true;
    text_at = λ p. os_error;
    json_at = λ p. content (object (field "name" (text "web") end));
    store_variable = none;
    str = λ j. "";
  };
  decode = λ s. none;
}

-- Machines that print nothing, and count the questions.
abbrev asker : Asker ℕ
asker n address script = (suc n, (pos 0, ""))

abbrev report : Report
report = record {
  lines = "web flakelet absent" ∷ "value vars:key missing on m1" ∷ [];
  unasked = [];
  answers =
      of_entry (reached_as web absent)
      ∷ of_value (record { key = "vars:key"; machine = "m1"; present = false; seal = none })
      ∷ [];
}

selected-web : selected sample ("web" ∷ []) ≡ ok (web ∷ [])
unfolding selected str_lt
selected-web = refl

status-sample : status reader sample asker ("web" ∷ []) 0 ≡ ok (3, report)
unfolding status str_lt
status-sample = refl

contains-status_example :
    contains {A = String} "web flakelet absent"
      ("web flakelet absent" ∷ "value vars:key missing on m1" ∷ [])
    ≡ is_told reader.disk.str "web flakelet absent" report.answers
contains-status_example =
    contains-status reader sample asker ("web" ∷ []) 0 3 report "web flakelet absent" status-sample

entries_answered-status_example : entries_answered report.answers ≡ map placed (web ∷ [])
entries_answered-status_example =
    entries_answered-status reader sample asker ("web" ∷ []) (web ∷ []) 0 3 report selected-web
      status-sample
