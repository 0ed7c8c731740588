-- ===== src/Apply/Tests.antt =====
-- A run of the sample deployment.
use nixplan.Prelude.{ℕ, suc, String, ◌≡◌, refl, true, ◌&&◌, none, some, List, [], ◌∷◌}
use nixplan.Text.{str_lt}
use nixplan.Errors.{ok}
use nixplan.Sorted.{text_order, pair_order, contains}
use nixplan.Order.{Read, Pair, reads}
use nixplan.Manifest.Read.{Disk, content, os_error}
use nixplan.Prelude.Int.{pos}
use nixplan.Json.{object, field, text, end}
use nixplan.Values.{Source}
use nixplan.Apply.{Write, Outside, entry_at}
use nixplan.Apply.Rotations.{rotations}
use nixplan.Apply.Indexed.{declared_files, names_value}
use nixplan.Apply.Run.{
  exited, stopped, failed, Channel, Line, Taken, Prepared, Progress, said, write_plain, copy_entry,
  activate, restart, announced, echoed, went, prepare, deliver,
}
use nixplan.Apply.Rotated.{is_restarted, contains-rotations}
use nixplan.Apply.Walked.{RunsThrough, deliver-RunsThrough}
use nixplan.Samples.{sample, web, web_path, key_value, key_file, build_root}

entry-web : entry_at sample "web" ≡ ok web
unfolding entry_at
entry-web = refl

abbrev web_reads : List Read
web_reads = record { providers = "vars:key" ∷ []; paths = "/v/key" ∷ [] } ∷ []

reads-web : reads sample.plan "web" ≡ ok web_reads
unfolding reads str_lt
reads-web = refl

abbrev moved : List Pair
moved = ("vars:key", "m1") ∷ []

rotations-web : rotations sample ("web" ∷ []) moved ≡ ok (("vars:key", "web") ∷ [])
unfolding rotations str_lt
rotations-web = refl

contains-rotations_example : contains {A = Pair} ("vars:key", "web") (("vars:key", "web") ∷ []) ≡ (
    contains {A = String} "web" ("web" ∷ [])
    && is_restarted web
        (names_value (declared_files (key_value ∷ [])) web_reads "vars:key")
        moved
        "vars:key")
contains-rotations_example =
    contains-rotations sample ("web" ∷ []) moved (("vars:key", "web") ∷ []) "vars:key" "web" web
      web_reads entry-web reads-web rotations-web

abbrev source : Source
source = record { root = build_root; is_directory = true; leaves = λ key. "key" ∷ [] }

-- Every file of the build is the record of a flakelet service.
abbrev disk : Disk
disk = record {
  links = record { cwd = build_root; resolve = λ p. p };
  is_file = λ p. true;
  text_at = λ p. os_error;
  json_at = λ p. content (object (field "name" (text "web") end));
  store_variable = none;
  str = λ j. "";
}

abbrev outside : Outside
outside = record {
  bytes_of = λ root value file. ok (7 ∷ []);
  seal = λ program recipient content. ok content;
}

abbrev pub key_write : Write
key_write = record {
  value = key_value;
  file = key_file;
  machine = "m1";
  address = "10.0.0.1";
  content = 7 ∷ [];
  sealed = none;
}

abbrev pub taken_web : Taken
taken_web = record {
  key = "web";
  entry = web;
  scope = "system";
  address = "10.0.0.1";
  artifact = web_path;
}

abbrev prepared : Prepared
prepared = record {
  planned = key_write ∷ [];
  walked = record { order = "web" ∷ []; broken = []; cycles = [] };
  withheld = [];
  taken = taken_web ∷ [];
}

prepare-sample :
    prepare disk outside
      (λ program. true)
      sample
      (record { source = some source; only = []; sealing = none })
    ≡ ok prepared
unfolding prepare str_lt
prepare-sample = refl

-- Machines that answer each write with `changed`, and count the steps.
abbrev channel : Channel ℕ
channel n (write_plain w) = (suc n, said "changed")
channel n step = (suc n, said "")

abbrev start : Progress ℕ
start = record { state = 0; lines = [] }

abbrev lines_of_run : List Line
lines_of_run =
    announced (restart "vars:key" taken_web)
    ∷ announced (activate taken_web)
    ∷ announced (copy_entry taken_web)
    ∷ echoed "changed"
    ∷ announced (write_plain key_write)
    ∷ []

abbrev end_of_run : Progress ℕ
end_of_run = record { state = 4; lines = lines_of_run }

goes-through : deliver sample channel prepared start ≡ went end_of_run tt
unfolding deliver str_lt
goes-through = refl

deliver-RunsThrough_example : RunsThrough sample channel prepared start end_of_run
deliver-RunsThrough_example =
    deliver-RunsThrough sample channel prepared start end_of_run goes-through

-- A machine that refuses the activation.
abbrev refusing : Channel ℕ
refusing n (activate t) = (n, exited (pos 1) "no")
refusing n step = (suc n, said "")

stops :
    deliver sample refusing prepared start
    ≡ stopped (record {
      state = 2;
      lines =
          failed (activate taken_web)
          ∷ announced (activate taken_web)
          ∷ announced (copy_entry taken_web)
          ∷ announced (write_plain key_write)
          ∷ [];
    })
unfolding deliver str_lt
stops = refl
