-- ===== src/Apply/Run.antt =====
-- cli/apply.py, `apply`: what a run decides before the first dial (`prepare`), and the steps that it
-- then takes through a channel, which is `Subprocess` in a run and `Nobody` in a dry one.
use nixplan.Prelude.{
  String, str_eq, Bool, true, false, Option, none, some, List, [], ◌∷◌, ◌++◌, map, if◌then◌else◌,
}
use nixplan.Text.Words.{split_lines, words}
use nixplan.Errors.{
  Exception, key_error, refuse, not_activated, Result, ok, raises, traverse, traverse_flat, ◌>>=◌,
  ◌>>◌,
}
use nixplan.Sorted.{text_order, contains}
use nixplan.Dict.{keys}
use nixplan.Paths.{FilePath}
use nixplan.Order.{Pair, WalkResult, walk, unsatisfied}
use nixplan.Manifest.{Entry, Deployment}
use nixplan.Manifest.Ask.{address_of, entry_scope, image_file, service_name, machine_scope}
use nixplan.Manifest.Read.{Disk}
use nixplan.Values.{Source, reaching, check, sealing, sealer}
use nixplan.Remote.Holdings.{Holding}
use nixplan.Prelude.Int.{ℤ}
use nixplan.Apply.{
  Bytes, Preflight, Write, Unsealer, Outside, entry_at, selection, refuse_inapplicable, writes,
  unsealers,
}
use nixplan.Apply.Rotations.{rotations}

-- An entry with an artifact, which a run takes a step for.
pub record Realised : Type 0 where
  pub key : String
  pub entry : Entry
  pub artifact : FilePath

-- The same, with the scope and the address that were settled for it.
pub record Taken : Type 0 where
  pub key : String
  pub entry : Entry
  pub scope : String
  pub address : String
  pub artifact : FilePath

-- What a run was asked.
pub record Request : Type 0 where
  pub source : Option Source
  pub only : List String
  pub sealing : Option String

pub record Prepared : Type 0 where
  pub planned : List Write
  pub walked : WalkResult
  pub withheld : List Pair
  pub taken : List Taken

abbrev root_of : Option Source → Option FilePath
root_of none = none
root_of (some source) = some source.root

-- An entry without a path is realised into nothing, and the run takes no step for it.
abbrev realised_at : String → Entry → Option FilePath → List Realised
realised_at key e none = []
realised_at key e (some artifact) = record { key = key; entry = e; artifact = artifact } ∷ []

unfoldable pub realised_of : Deployment → String → Result (List Realised)
unfolding entry_at
realised_of d key = do e ← entry_at d key; ok (realised_at key e e.path)

-- `remote.activation`, as far as it refuses: the two realisers that the command can activate, and
-- the name of a flakelet service, which the script carries.
unfoldable pub activation : Disk → Realised → Result String
unfolding service_name
activation disk r =
    if str_eq r.entry.realiser "flakelet"
    then service_name disk r.entry
    else if str_eq r.entry.realiser "image"
    then ok ""
    else refuse (not_activated r.key r.entry.realiser)

-- The record that an image artifact carries is read before the first dial.
unfoldable pub image_read : Disk → Realised → Result String
unfolding image_file
image_read disk r = if str_eq r.entry.realiser "image" then image_file disk r.entry else ok ""

abbrev settle_taken : List Realised → List String → List String → List Taken
settle_taken (r ∷ rs) (scope ∷ scopes) (address ∷ addresses) =
    record { key = r.key; entry = r.entry; scope = scope; address = address; artifact = r.artifact }
    ∷ settle_taken rs scopes addresses
settle_taken _ _ _ = []

-- Every scope is settled first, then every realiser, every address and every image.
unfoldable pub settle_all : Disk → Deployment → List Realised → Result (List Taken)
unfolding entry_scope activation address_of image_read traverse
settle_all disk d realised = do
  scopes ← traverse (λ (r : Realised). entry_scope d r.entry) realised
  activated ← traverse (activation disk) realised
  addresses ← traverse (λ (r : Realised). address_of r.entry) realised
  images ← traverse (image_read disk) realised
  ok (settle_taken realised scopes addresses)

unfoldable pub machine_at : Deployment → String → Result String
unfolding entry_at
machine_at d key = do e ← entry_at d key; ok e.machine

unfoldable pub prepare : Disk → Outside → (String → Bool) → Deployment → Request → Result Prepared
unfolding refuse_inapplicable selection machine_at reaching check sealing sealer writes walk
    unsatisfied realised_of settle_all traverse traverse_flat
prepare disk outside runs d request = do
  refuse_inapplicable d
  (ks, named) ← selection d request.only
  machines ← traverse (machine_at d) ks
  let reached = reaching d machines named
  check d request.source (keys reached)
  sealed ← sealing d reached
  program ← sealer runs sealed request.sealing
  planned ← writes outside d (root_of request.source) reached program
  walked ← walk d.plan ks
  withheld ← unsatisfied d.plan ks (keys d.entries)
  realised ← traverse_flat (realised_of d) walked.order
  taken ← settle_all disk d realised
  ok (record { planned = planned; walked = walked; withheld = withheld; taken = taken })

-- `Held`: what one machine answered that it holds and the build names no entry for.
pub record Held : Type 0 where
  pub machine : String
  pub address : String
  pub scope : String
  pub holdings : List Holding

-- One step against a machine. The script that a step runs there is fixed by it.
pub data Step : Type 0 where
  ask_holdings : (machine address scope : String) → Step
  preflight_of_machine : Preflight → Step
  retire : Held → Holding → Step
  copy_unsealer install_unsealer : Unsealer → Step
  write_sealed write_plain : Write → Step
  copy_entry activate : Taken → Step
  restart : (value : String) → Taken → Step
  -- `rollback` of an entry's service, and a verb of the coordination server that an entry runs
  roll_back : Entry → (address service : String) → Step
  take_verb : (verb subject : String) → Entry → (address script : String) → Step

-- What a step comes back with: what the machine printed, or how it exited and what it printed.
pub data Outcome : Type 0 where
  said : String → Outcome
  exited : ℤ → String → Outcome

-- `remote.Runner`, over the state of the machines
abbrev pub Channel : Type 0 → Type 0
Channel S = S → Step → S × Outcome

-- `Nobody`
unfoldable pub nobody : {S : Type 0} → Channel S
nobody s step = (s, said "")

-- The lines of a run: what is said before the first step, a step, what the machine printed under
-- it, and the failure that ends it.
pub data Line : Type 0 where
  told : String → Line
  announced failed : Step → Line
  echoed : String → Line

-- How a run stands: the machines, and the lines recorded so far, the last one first.
pub record Progress (S : Type 0) : Type 0 where
  pub state : S
  pub lines : List Line

-- How a part of a run ends: with a result, at a step that failed, or at a refusal without a step.
pub data Ended (S A : Type 0) : Type 0 where
  went : Progress S → A → Ended S A
  stopped : Progress S → Ended S A
  raised : Progress S → Exception → Ended S A

abbrev pub moved_by : Write → String → List Pair
moved_by w answer = if contains "changed" (words answer) then (w.value.key, w.machine) ∷ [] else []

-- `deployment.entries[key]` and `addresses[key]` of a restart
unfoldable pub taken_named : List Taken → String → Result Taken
taken_named [] key = raises (key_error key)
taken_named (t ∷ ts) key = let rest = taken_named ts key in if str_eq t.key key then ok t else rest

unfoldable pub restart_step : List Taken → Pair → Result (String × Taken)
unfolding taken_named
restart_step taken (value, key) = do t ← taken_named taken key; ok (value, t)

module _ {S : Type 0} where
  abbrev pub record_line : Line → Progress S → Progress S
  record_line line p = record p { lines = line ∷ p.lines }

  unfoldable pub record_lines : List String → Progress S → Progress S
  record_lines [] p = p
  record_lines (s ∷ ss) p = record_lines ss (record_line (echoed s) p)

  abbrev pub and_then : {A B : Type 0} → Ended S A → (Progress S → A → Ended S B) → Ended S B
  and_then (went p a) f = f p a
  and_then (stopped p) f = stopped p
  and_then (raised p e) f = raised p e

  -- A part of a run that takes no step.
  abbrev pub settle : {A : Type 0} → Progress S → Result A → Ended S A
  settle p (ok a) = went p a
  settle p (raises e) = raised p e

  -- `taking`, and `taken`, which echoes what the machine printed.
  unfoldable pub taken_with : Bool → Step → List Line → S × Outcome → Ended S String
  unfolding record_lines split_lines
  taken_with echo step lines (s, said answer) =
      let p : Progress S = record { state = s; lines = announced step ∷ lines } in
      went (if echo then record_lines (split_lines answer) p else p) answer
  taken_with echo step lines (s, exited status printed) =
      stopped (record { state = s; lines = failed step ∷ announced step ∷ lines })

  unfoldable pub take : Channel S → Bool → Step → Progress S → Ended S String
  unfolding taken_with
  take channel echo step p = taken_with echo step p.lines (channel p.state step)

  unfoldable pub install : Channel S → List Unsealer → Progress S → Ended S (Unit {0})
  unfolding take
  install channel [] p = went p tt
  install channel (u ∷ us) p = and_then (take channel false (copy_unsealer u) p) λ p1 quiet.
      and_then (take channel true (install_unsealer u) p1) λ p2 answer. install channel us p2

  -- The sealed copy first.
  unfoldable pub write_copy : Channel S → Write → Option Bytes → Progress S → Ended S (Unit {0})
  unfolding take
  write_copy channel w none p = went p tt
  write_copy channel w (some copy) p =
      and_then (take channel true (write_sealed w) p) λ p1 answer. went p1 tt

  -- The writes, with the values that moved and the machines they moved on.
  unfoldable pub write_all : Channel S → List Write → Progress S → Ended S (List Pair)
  unfolding take write_copy words contains
  write_all channel [] p = went p []
  write_all channel (w ∷ ws) p = and_then (write_copy channel w w.sealed p) λ p1 u.
      and_then (take channel true (write_plain w) p1) λ p2 answer.
        and_then (write_all channel ws p2) λ p3 moved. went p3 (moved_by w answer ++ moved)

  unfoldable pub activate_all : Channel S → List Taken → Progress S → Ended S (Unit {0})
  unfolding take
  activate_all channel [] p = went p tt
  activate_all channel (t ∷ ts) p = and_then (take channel false (copy_entry t) p) λ p1 quiet.
      and_then (take channel true (activate t) p1) λ p2 answer. activate_all channel ts p2

  unfoldable pub restart_all : Channel S → List (String × Taken) → Progress S → Ended S (Unit {0})
  unfolding take
  restart_all channel [] p = went p tt
  restart_all channel ((value, t) ∷ rest) p =
      and_then (take channel true (restart value t) p) λ p1 answer. restart_all channel rest p1

  -- The steps of a run that was prepared, after the questions that it asks the machines first.
  unfoldable pub deliver : Deployment → Channel S → Prepared → Progress S → Ended S (Unit {0})
  unfolding install write_all activate_all restart_all unsealers machine_scope rotations
      restart_step traverse
  deliver d channel prepared p = and_then (settle p (unsealers d prepared.planned)) λ p0 us.
      and_then (install channel us p0) λ p1 u.
        and_then (settle p1 (traverse (λ (w : Write). machine_scope d w.machine) prepared.planned))
          λ p2 scopes. and_then (write_all channel prepared.planned p2) λ p3 moved.
            and_then (activate_all channel prepared.taken p3) λ p4 v.
              and_then (settle p4 (rotations d (map (λ (t : Taken). t.key) prepared.taken) moved))
                λ p5 pairs.
                  and_then (settle p5 (traverse (restart_step prepared.taken) pairs))
                    λ p6 restarts. restart_all channel restarts p6
