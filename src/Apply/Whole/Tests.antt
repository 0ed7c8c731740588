-- ===== src/Apply/Whole/Tests.antt =====
-- A whole run of `apply` on the sample deployment, whose machine holds what the build does not name.
use nixplan.Prelude.{ℕ, suc, String, ◌≡◌, refl, true, false, none, some, [], ◌∷◌}
use nixplan.Prelude.Int.{pos}
use nixplan.Text.{str_lt}
use nixplan.Errors.{ok}
use nixplan.Json.{Json, text, object, array, end, field, nil, cons}
use nixplan.Manifest.{Realiser, Deployment}
use nixplan.Manifest.Read.{content, os_error}
use nixplan.Remote.Holdings.{Holding, unnamed}
use nixplan.Remote.Holdings.Named.{Every, IsForeign, unnamed-IsForeign}
use nixplan.Apply.Run.{
  Held, Request, Channel, said, exited, ask_holdings, retire, copy_entry, restart, activate,
  write_plain, announced, echoed, told, Progress, went,
}
use nixplan.Apply.Tests.{taken_web, key_write}
use nixplan.Apply.Whole.{World, apply}
use nixplan.Remote.{account_at, destination}
use nixplan.Apply.Commands.{Login, argv_of, destination-argv_of}
use nixplan.Apply.Dry.{Untouched, apply-Untouched}
use nixplan.Apply.Failed.{apply-NamesFailure}
use nixplan.Apply.Stopped.{NamesFailure}
use nixplan.Apply.Through.{WentThrough, apply-WentThrough}
use nixplan.Samples.{sample, build_root}

abbrev flakelet : Realiser
flakelet = record {
  name = "flakelet";
  scopes = "system" ∷ [];
  holdings = ("urlPrefix", text "planner:") ∷ [];
}

abbrev deployment : Deployment
deployment = record sample { realisers = ("flakelet", flakelet) ∷ [] }

-- The registrations of an entry of the build, and of one that it does not have.
abbrev registration : String → String → Json
registration url name = object (field "locked_url" (text url) (field "name" (text name) end))

abbrev registered : Json
registered =
    array (cons (registration "planner:web" "web") (cons (registration "planner:old" "old") nil))

abbrev world : World
world = record {
  disk = record {
    links = record { cwd = build_root; resolve = λ p. p };
    is_file = λ p. true;
    text_at = λ p. os_error;
    json_at = λ p. content (object (field "name" (text "web") end));
    store_variable = none;
    str = λ j. "";
  };
  outside = record {
    bytes_of = λ root value file. ok (7 ∷ []);
    seal = λ program recipient bytes. ok bytes;
  };
  runs = λ program. true;
  decode = λ s. some registered;
  environ = [];
  ssh_key = none;
}

abbrev request : Request
request = record {
  source = some (record { root = build_root; is_directory = true; leaves = λ key. "key" ∷ [] });
  only = [];
  sealing = none;
}

-- Machines that count the steps.
abbrev channel : Channel ℕ
channel n (ask_holdings machine address scope) = (n, said "holdings flakelet 0\n[]")
channel n (write_plain w) = (suc n, said "changed")
channel n step = (suc n, said "")

abbrev refusing : Channel ℕ
refusing n (ask_holdings machine address scope) = (n, said "holdings flakelet 0\n[]")
refusing n (activate t) = (n, exited (pos 1) "no")
refusing n step = (suc n, said "")

abbrev old : Holding
old = record { realiser = "flakelet"; identity = "old"; name = "old"; state = "" }

abbrev held : Held
held = record { machine = "m1"; address = "10.0.0.1"; scope = "system"; holdings = old ∷ [] }

-- A retirement, a write, a copy, an activation and a restart.
abbrev end_of_run : Progress ℕ
end_of_run = record {
  state = 5;
  lines =
      announced (restart "vars:key" taken_web)
      ∷ announced (activate taken_web)
      ∷ announced (copy_entry taken_web)
      ∷ echoed "changed"
      ∷ announced (write_plain key_write)
      ∷ announced (retire held old)
      ∷ told "m1 holds old, which this build does not name"
      ∷ [];
}

goes-through : apply world deployment request false true channel 0 ≡ went end_of_run tt
unfolding apply str_lt
goes-through = refl

apply-WentThrough_example : WentThrough world deployment request false true channel 0 end_of_run
apply-WentThrough_example =
    apply-WentThrough world deployment request false true channel 0 end_of_run goes-through

apply-NamesFailure_example : NamesFailure (apply world deployment request false true refusing 0)
apply-NamesFailure_example = apply-NamesFailure world deployment request false true refusing 0

apply-Untouched_example : Untouched 0 (apply world deployment request true true channel 0)
apply-Untouched_example = apply-Untouched 0 world deployment request true channel

abbrev web_holding : Holding
web_holding = record { realiser = "flakelet"; identity = "web"; name = "web"; state = "" }

unnamed-web :
    unnamed world.disk deployment.entries (flakelet ∷ []) (web_holding ∷ old ∷ []) ≡ ok (old ∷ [])
unfolding unnamed str_lt
unnamed-web = refl

unnamed-IsForeign_example :
    Every (IsForeign world.disk deployment.entries (flakelet ∷ [])) (old ∷ [])
unnamed-IsForeign_example =
    unnamed-IsForeign world.disk deployment.entries (flakelet ∷ []) (web_holding ∷ old ∷ [])
      (old ∷ []) unnamed-web

abbrev login : Login
login = record { options = "-i" ∷ "key" ∷ []; user = "root" }

retirement_argv :
    argv_of login world.disk deployment (retire held old)
    ≡ ok ("ssh" ∷ "-i" ∷ "key" ∷ "root@10.0.0.1" ∷ "flakelet remove old 2>&1" ∷ [])
unfolding argv_of
retirement_argv = refl

destination-argv_of_example :
    destination ("ssh" ∷ "-i" ∷ "key" ∷ "root@10.0.0.1" ∷ "flakelet remove old 2>&1" ∷ [])
    ≡ account_at "root" "10.0.0.1"
destination-argv_of_example =
    destination-argv_of login world.disk deployment (retire held old)
      ("ssh" ∷ "-i" ∷ "key" ∷ "root@10.0.0.1" ∷ "flakelet remove old 2>&1" ∷ []) retirement_argv
