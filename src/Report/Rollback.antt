-- ===== src/Report/Rollback.antt =====
-- cli/report.py: `rollback`.
use nixplan.Prelude.{String, str_eq, true, if◌then◌else◌}
use nixplan.Errors.{Result, ok, refuse, no_rollback, ◌>>=◌}
use nixplan.Manifest.{Entry, Deployment}
use nixplan.Manifest.Read.{Disk}
use nixplan.Manifest.Ask.{address_of, service_name}
use nixplan.Apply.Run.{Channel, Progress, Ended, went, roll_back, and_then, settle, take}
use nixplan.Report.Values.{entry_named}

-- What a rollback settles before it announces its step: the entry, its address and its service.
unfoldable pub rolled_back : Disk → Deployment → String → Result (Entry × String × String)
unfolding entry_named address_of service_name
rolled_back disk d key = do
  e ← entry_named d key
  if str_eq e.realiser "flakelet"
      then (do address ← address_of e; service ← service_name disk e; ok (e, address, service))
      else refuse (no_rollback e.key e.realiser)

unfoldable pub rollback :
    {S : Type 0} → Disk → Deployment → Channel S → String → Progress S → Ended S (Unit {0})
unfolding rolled_back take
rollback disk d channel key p =
    and_then (settle p (rolled_back disk d key)) λ p1 (e, address, service).
      and_then (take channel true (roll_back e address service) p1) λ p2 answer. went p2 tt
