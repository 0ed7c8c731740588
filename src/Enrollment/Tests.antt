-- ===== src/Enrollment/Tests.antt =====
-- An invitation of a deployment whose entry `web` runs the coordination server.
use nixplan.Prelude.{ℕ, suc, ◌≡◌, refl, none, some, List, [], ◌∷◌, ◌++◌}
use nixplan.Text.{str_lt}
use nixplan.Errors.{ok, raises, failed_write}
use nixplan.Paths.{FilePath}
use nixplan.Apply.{Bytes}
use nixplan.Manifest.{Value, Deployment}
use nixplan.Remote.Answers.{Base64}
use nixplan.Apply.Run.{Channel, said, Progress, Ended, went, stopped, raised}
use nixplan.Enrollment.{Files, Caller, Enrolled, written, invite}
use nixplan.Samples.{sample, key_file, build_root}

abbrev credential : Value
credential = record {
  key = "vars:key";
  delivery = "m1" ∷ [];
  program = some "/nix/store/mint";
  files = key_file ∷ [];
}

abbrev coordinated : Deployment
coordinated = record sample {
  values = ("vars:key", credential) ∷ [];
  coordination = some (record {
    entry = "web";
    credential = "vars:key";
    program = "/nix/store/server";
    configuration = "/etc/server";
  });
}

-- Every text is the encoding of one byte.
abbrev decode : Base64
decode text = some (7 ∷ [])

-- A machine that minted the one file, and counts the steps.
abbrev channel : Channel ℕ
channel n step = (suc n, said "key Bw==\nkey \n")

-- A file system that is the list of the files that were written in it.
abbrev files : Files (List (FilePath × Bytes))
files = record {
  mkdir = λ f at. (f, ok tt);
  write_bytes = λ f at bytes. (f ++ (at, bytes) ∷ [], ok tt);
  chmod = λ f at mode. (f, ok tt);
}

-- One that fails to write any file.
abbrev full_disk : Files (List (FilePath × Bytes))
full_disk = record files { write_bytes = λ f at bytes. (f, raises (failed_write at)) }

abbrev caller : Caller
caller = record { environ = []; ssh_key = none }

abbrev start : Progress (Enrolled ℕ (List (FilePath × Bytes)))
start = record { state = (0, []); lines = [] }

abbrev written_of :
    Ended (Enrolled ℕ (List (FilePath × Bytes))) (Unit {0}) → List (FilePath × Bytes)
written_of (went p u) = (p.state).1
written_of (stopped p) = (p.state).1
written_of (raised p e) = (p.state).1

invites :
    written_of (invite decode (λ bytes. "") files caller coordinated channel build_root start)
    ≡ ((written build_root credential key_file (7 ∷ [])).at, 7 ∷ []) ∷ []
unfolding invite str_lt
invites = refl

writes-nothing :
    written_of (invite decode (λ bytes. "") full_disk caller coordinated channel build_root start)
    ≡ []
unfolding invite str_lt
writes-nothing = refl
