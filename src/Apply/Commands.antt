-- ===== src/Apply/Commands.antt =====
-- cli/apply.py: the command that each step of a run is, and the bytes that it is given.
use nixplan.Prelude.{String, ◌≡◌, sym, ap, ◌∙◌, Option, none, some, List, []}
use nixplan.Errors.{Result, ok, ◌>>=◌, >>=-ok, ok-injective}
use nixplan.Dict.{values}
use nixplan.Paths.{slash}
use nixplan.Manifest.{Deployment}
use nixplan.Manifest.Read.{Disk}
use nixplan.Manifest.Ask.{machine_scope}
use nixplan.Remote.{account_at, ssh_argv, copy_argv, destination}
use nixplan.Remote.Named.{destination-argv}
use nixplan.Remote.Scripts.{write_script, seal_script, restart_script, unsealer_script}
use nixplan.Remote.Verbs.{holdings_script, retirement, activation_script, rollback_script}
use nixplan.Remote.Preflight.{preflight, preflight_script}
use nixplan.Apply.{Bytes}
use nixplan.Apply.Run.{
  Step, ask_holdings, preflight_of_machine, retire, copy_unsealer, install_unsealer, write_sealed,
  write_plain, copy_entry, activate, restart, roll_back, take_verb,
}

-- What the commands of one run share: the words of the ssh options, and the login.
pub record Login : Type 0 where
  pub options : List String
  pub user : String

-- The script of a step that a machine runs, and none for a copy.
unfoldable pub script_of : Disk → Deployment → Step → Result (Option String)
unfolding holdings_script preflight_script preflight retirement unsealer_script machine_scope
    seal_script write_script activation_script restart_script rollback_script
script_of disk d (ask_holdings machine address scope) =
    ok (some (holdings_script (values d.realisers) scope))
script_of disk d (preflight_of_machine q) = ok (some (preflight_script (preflight q.portabled)))
script_of disk d (retire held h) = do script ← retirement h held.scope; ok (some script)
script_of disk d (copy_unsealer u) = ok none
script_of disk d (install_unsealer u) = ok (some (unsealer_script u.artifact u.scope))
script_of disk d (write_sealed w) = do
  scope ← machine_scope d w.machine
  ok (some (seal_script w.file scope))
script_of disk d (write_plain w) = do
  scope ← machine_scope d w.machine
  ok (some (write_script w.file scope))
script_of disk d (copy_entry t) = ok none
script_of disk d (activate t) = do script ← activation_script disk t.entry t.scope; ok (some script)
script_of disk d (restart value t) = ok (some (restart_script t.entry.units t.scope))
script_of disk d (roll_back e address service) = ok (some (rollback_script service))
script_of disk d (take_verb verb subject e address script) = ok (some script)

-- `remote.run` of a script, or `remote.copy` of an artifact, with the address that the step states
abbrev command : Login → Step → Option String → List String
command login (ask_holdings machine address scope) (some script) =
    ssh_argv address script login.options login.user
command login (preflight_of_machine q) (some script) =
    ssh_argv q.address script login.options login.user
command login (retire held h) (some script) = ssh_argv held.address script login.options login.user
command login (install_unsealer u) (some script) =
    ssh_argv u.address script login.options login.user
command login (write_sealed w) (some script) = ssh_argv w.address script login.options login.user
command login (write_plain w) (some script) = ssh_argv w.address script login.options login.user
command login (activate t) (some script) = ssh_argv t.address script login.options login.user
command login (restart value t) (some script) = ssh_argv t.address script login.options login.user
command login (roll_back e address service) (some script) =
    ssh_argv address script login.options login.user
command login (take_verb verb subject e address text) (some script) =
    ssh_argv address script login.options login.user
command login (copy_unsealer u) none = copy_argv u.artifact u.address login.user
command login (copy_entry t) none = copy_argv t.artifact t.address login.user
command login step script = []

unfoldable pub argv_of : Login → Disk → Deployment → Step → Result (List String)
unfolding script_of ssh_argv copy_argv
argv_of login disk d step = do script ← script_of disk d step; ok (command login step script)

-- The content of a write is what its step reads, and no other step reads anything.
abbrev pub stdin_of : Step → Option Bytes
stdin_of (write_sealed w) = w.sealed
stdin_of (write_plain w) = some w.content
stdin_of _ = none

-- The address that a step states: that of the machine that it is about.
abbrev pub address_of_step : Step → String
address_of_step (ask_holdings machine address scope) = address
address_of_step (preflight_of_machine q) = q.address
address_of_step (retire held h) = held.address
address_of_step (copy_unsealer u) = u.address
address_of_step (install_unsealer u) = u.address
address_of_step (write_sealed w) = w.address
address_of_step (write_plain w) = w.address
address_of_step (copy_entry t) = t.address
address_of_step (activate t) = t.address
address_of_step (restart value t) = t.address
address_of_step (roll_back e address service) = address
address_of_step (take_verb verb subject e address script) = address

-- Whatever the step, the machine that a refusal of it names is the one that the step is addressed to.
pub destination-argv_of :
    (login : Login) (disk : Disk) (d : Deployment) (step : Step) (argv : List String)
    → argv_of login disk d step ≡ ok argv
    → destination argv ≡ account_at login.user (address_of_step step)
unfolding argv_of script_of
destination-argv_of login disk d step argv h =
    let (script, h1, h2) = >>=-ok (script_of disk d step) _ h in
    ap destination (sym (ok-injective h2)) ∙ named step script h1
  where
    reached :
        (address script : String)
        → destination (ssh_argv address script login.options login.user)
          ≡ account_at login.user address
    reached address script =
        (destination-argv (record { anchor = slash; parts = [] }) address script login.user
          login.options).0

    named :
        (step : Step) (script : Option String)
        → script_of disk d step ≡ ok script
        → destination (command login step script) ≡ account_at login.user (address_of_step step)
    named (ask_holdings machine address scope) (some script) e = reached address script
    named (preflight_of_machine q) (some script) e = reached q.address script
    named (retire held h) (some script) e = reached held.address script
    named (install_unsealer u) (some script) e = reached u.address script
    named (write_sealed w) (some script) e = reached w.address script
    named (write_plain w) (some script) e = reached w.address script
    named (activate t) (some script) e = reached t.address script
    named (restart value t) (some script) e = reached t.address script
    named (roll_back entry address service) (some script) e = reached address script
    named (take_verb verb subject entry address text) (some script) e = reached address script
    named (copy_unsealer u) (some script) e = cc
    named (copy_entry t) (some script) e = cc
    named (copy_unsealer u) none e = (destination-argv u.artifact u.address "" login.user []).1
    named (copy_entry t) none e = (destination-argv t.artifact t.address "" login.user []).1
    named (retire held h) none e = let (s, h1, h2) = >>=-ok (retirement h held.scope) _ e in cc
    named (write_sealed w) none e = let (s, h1, h2) = >>=-ok (machine_scope d w.machine) _ e in cc
    named (write_plain w) none e = let (s, h1, h2) = >>=-ok (machine_scope d w.machine) _ e in cc
    named (activate t) none e =
        let (s, h1, h2) = >>=-ok (activation_script disk t.entry t.scope) _ e in cc
    named (ask_holdings machine address scope) none e = cc
    named (preflight_of_machine q) none e = cc
    named (install_unsealer u) none e = cc
    named (restart value t) none e = cc
    named (roll_back entry address service) none e = cc
    named (take_verb verb subject entry address script) none e = cc
