-- ===== src/Manifest.antt =====
-- cli/manifest.py: a built deployment as the command reads it. The records of the file stand here;
-- `Fields` has the checks of one field, `Read` the reading of `manifest.json`, `Artifact` where an
-- artifact lands, and `Ask` what a step asks of a deployment.
pub mod Fields
pub mod Artifact
pub mod Contained
pub mod Read
pub mod Ask
pub mod Resolve
pub mod Tests
use nixplan.Prelude.{String, str_eq, Bool, Option, none, some, List, filter}
use nixplan.Dict.{Dict}
use nixplan.Json.{Json}
use nixplan.Paths.{FilePath}
use nixplan.Order.{Plan}

pub record ValueFile : Type 0 where
  pub name : String
  pub path : String
  pub sealed : String
  pub secrecy : String
  pub owner : String
  pub group : String
  pub mode : String

pub record Value : Type 0 where
  pub key : String
  pub delivery : List String
  pub program : Option String
  pub files : List ValueFile

pub record Entry : Type 0 where
  pub key : String
  pub path : Option FilePath
  pub realiser : String
  pub profile : Option String
  pub machine : String
  pub address : Option String
  pub units : List String
  pub digest : String

pub record Machine : Type 0 where
  pub name : String
  pub sealed : Bool
  pub scope : String
  pub path : Option FilePath

pub record Coordination : Type 0 where
  pub entry : String
  pub credential : String
  pub program : String
  pub configuration : String

pub record Diagnostic : Type 0 where
  pub id : String
  pub subject : String
  pub severity : String
  pub message : String
  pub evidence : String
  pub resolution : String

pub record Realiser : Type 0 where
  pub name : String
  pub scopes : List String
  pub holdings : Dict Json

pub record Deployment : Type 0 where
  pub root : FilePath
  pub plan : Plan
  pub entries : Dict Entry
  pub values : Dict Value
  pub machines : Dict Machine
  pub realisers : Dict Realiser
  pub diagnostics : List Diagnostic
  pub table : String
  pub coordination : Option Coordination

-- The rows that make the deployment inapplicable.
unfoldable pub errors : Deployment → List Diagnostic
errors d = filter (λ (row : Diagnostic). str_eq row.severity "error") d.diagnostics

-- MACHINE_PREFIX, SYSTEM, USER and SEAL_RECIPIENT
abbrev pub machine_prefix : String
machine_prefix = "machine:"

abbrev pub system : String
system = "system"

abbrev pub user : String
user = "user"

abbrev pub seal_recipient : String
seal_recipient = "sealRecipient"
