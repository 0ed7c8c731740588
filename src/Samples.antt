-- ===== src/Samples.antt =====
-- A deployment of one entry that reads one value, for the tests.
use nixplan.Prelude.{String, false, none, some, [], ◌∷◌}
use nixplan.Json.{Json, text, object, end, field}
use nixplan.Paths.{FilePath, slash}
use nixplan.Order.{Plan}
use nixplan.Manifest.{ValueFile, Value, Entry, Deployment}

abbrev one_field : String → Json → Json
one_field name value = object (field name value end)

-- The entry `web`, which is placed on `m1`, reads the value `vars:key` by the path of its file.
abbrev pub sample_plan : Plan
sample_plan =
    ("machine:m1", one_field "address" (text "10.0.0.1"))
    ∷ (
      "web",
      one_field "reads" (
          one_field "slot" (
            object (
              field "entry" (text "vars:key")
                (field "values" (one_field "secret" (one_field "path" (text "/v/key"))) end)))),
    )
    ∷ []

abbrev pub key_file : ValueFile
key_file = record {
  name = "key";
  path = "/v/key";
  sealed = "/s/key";
  secrecy = "secret";
  owner = "root";
  group = "root";
  mode = "0400";
}

abbrev pub key_value : Value
key_value = record { key = "vars:key"; delivery = "m1" ∷ []; program = none; files = key_file ∷ [] }

abbrev pub web_path : FilePath
web_path = record { anchor = slash; parts = "nix" ∷ "store" ∷ "web" ∷ [] }

abbrev pub web : Entry
web = record {
  key = "web";
  path = some web_path;
  realiser = "flakelet";
  profile = none;
  machine = "m1";
  address = some "10.0.0.1";
  units = "web.service" ∷ [];
  digest = "d";
}

abbrev pub build_root : FilePath
build_root = record { anchor = slash; parts = "build" ∷ [] }

abbrev pub sample : Deployment
sample = record {
  root = build_root;
  plan = sample_plan;
  entries = ("web", web) ∷ [];
  values = ("vars:key", key_value) ∷ [];
  machines = ("m1", record { name = "m1"; sealed = false; scope = "system"; path = none }) ∷ [];
  realisers =
      ("flakelet", record { name = "flakelet"; scopes = "system" ∷ []; holdings = [] }) ∷ [];
  diagnostics = [];
  table = "";
  coordination = none;
}
