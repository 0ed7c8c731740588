-- ===== src/Lib.antt =====
-- nixplan plans the services of a fleet in Nix and applies a plan with a command in Python.
-- This development models the command's core, which reads a built deployment, orders its
-- entries by the reads that the plan records, and applies them to machines over ssh.
--
-- The parts, and the files that model them:
--
-- Order (cli/order.py): `reads`, `edges`, `unsatisfied` and `walk` stand in Order.antt under
-- the source's names, `_components` (Tarjan's algorithm) in Order/Components and `sequence` and
-- `_unordered` in Order/Sequence. A `dict` is an association list in the order of insertion, a
-- heap its sorted list, and an array over the components a function of the index. A text of the
-- order is compared by its code points, as Python does.
--
-- Manifest (cli/manifest.py): the records of a deployment stand in Manifest.antt, the checks of
-- one field in Manifest/Fields, `read` and one function per kind of record in Manifest/Read,
-- `_artifact` in Manifest/Artifact, what a step asks of a deployment in Manifest/Ask and
-- `resolve` in Manifest/Resolve. The file system is a record `Disk`: what a file decodes to, or
-- the exception that reading it raises.
--
-- Values (cli/values.py): which values a run answers for, the files that it requires, and
-- `check` of the value source, in Values.antt under the source's names; `sealed` in
-- Values/Sealed, of what the program comes back with, and `_leaves` in Values/Leaves, of what
-- the file system says.
--
-- Apply (cli/apply.py): what a run decides before it dials a machine in Apply.antt, `rotations`
-- in Apply/Rotations, and in Apply/Run the first and the last part of `apply`: `prepare`, which
-- ends before the first dial, and `deliver`, which has the steps from the unsealers to the
-- restarts. Apply/Whole has what stands between them, the holdings, the preflights and the
-- retirements, and `apply` as a whole. A step goes through a `Channel`, a function from the
-- state of the machines and a step to a new state and an outcome; the channel of a dry run is
-- `nobody`. Apply/Commands has the command that each step is. A sealing program and the bytes
-- of a source's files are arguments, in the record `Outside`.
--
-- Remote (cli/remote.py): the argument vectors of the steps and `destination` in Remote.antt;
-- the scripts that write files in Remote/Scripts, those that address an endpoint and the
-- questions in Remote/Verbs, what a preflight asks in Remote/Preflight, and the reading of the
-- answers in Remote/Answers and, of what a machine holds, in Remote/Holdings. `taking`, `taken`
-- and `recording`, which announce a step and end a run, stand in Apply/Run, where they are
-- used. The ssh options and the environment of a run are in Remote/Options, `shlex.quote` in
-- Text/Shell, and `shlex.split` and `shlex.join` in Text/Split.
--
-- Report (cli/report.py): how the answers of a machine about its values are halved and read,
-- the verdict on the copies of a value and the image held for an entry, in Report.antt; the
-- record of an answer about an entry in Report/Entries, those about values in Report/Values,
-- the lines of a record and `describe` in Report/Lines, `status` in Report/Status and
-- `rollback` in Report/Rollback. A status asks through an `Asker`, which answers a script at an
-- address with a status and a text.
--
-- Enrollment (cli/enrollment.py) and Diagnose (cli/diagnose.py): the verbs of the coordination
-- server in Enrollment.antt, with the calls that write a file of the value source as the record
-- `Files`, and the two readings of a diagnostics table in Diagnose.antt. `json.loads`,
-- `base64.b64decode`, the text of a file's bytes and what `nix eval` comes back with are
-- arguments.
--
-- View (view/graph.py): the reads of the placed entries slot by slot in View/Graph/Reads, and
-- the cells, the edges and their coordinates in View/Graph.antt. A column is kept one higher
-- until the cells are shifted, since the least one is -1.
--
-- Errors.antt has the refusals, one constructor for each `raise` with what its message names. A
-- key that a `dict` lacks is Python's KeyError. Text, Sorted, Dict, Json and Paths model the
-- parts of Python and its library that the command uses, and Prelude passes on the names that
-- all share. Samples.antt has the deployment of the tests.
--
-- Fuel: `components` has two rounds per node for each search, since every round enters a node
-- or leaves one; `walk_groups` has one round per component, since a component enters the heap
-- once. The walk of a value's directory has the rounds that it is given, and
-- Values/Leaves/Finite says how many are enough.
--
-- Not modelled: the texts of refusals, of which a constructor has what they name; what a shell
-- makes of the scripts; the process that runs a command; cli/planner.py, which parses arguments
-- and prints; the documents, pages and server under view/ and perf/check.py; and the planner in
-- Nix, another language.
pub mod Prelude
pub mod Text
pub mod Sorted
pub mod Errors
pub mod Dict
pub mod Json
pub mod Order
pub mod Paths
pub mod Manifest
pub mod Values
pub mod Remote
pub mod Apply
pub mod Report
pub mod Enrollment
pub mod Diagnose
pub mod View
pub mod Samples
