-- ===== src/Daemon/Tests.antt =====
-- The theorems on the daemon at concrete states and events.
use p_drive.Base.{
  ℕ, ◌<◌, Text, codes, List, [], ◌∷◌, Bool, true, false, Option, none, some, ◌≡◌, refl, arith,
  text_eq,
}
use p_drive.State.Rows.{pos, second}
use p_drive.State.Activity.{Conflict}
use p_drive.Config.{Config, default_config, validate}
use p_drive.Gate.{granted, effective}
use p_drive.RateLimit.{Limiter, limited_for}
use p_drive.Mirror.World.{no_result, Event, event_transfer_progress}
use p_drive.Daemon.{
  Daemon, new_daemon, Outcome, ended, pause, trigger, trigger_local, drain_wake, begin_sync,
  is_paused, end_sync,
}
use p_drive.Daemon.Machine.{
  resting, running, Loop, automatic, wakes, triggers, checks, begins, start, next, take_wake,
}
use p_drive.Daemon.Machine.Safe.{IsSafe, Reachable-IsSafe}
use p_drive.Daemon.Machine.Quiet.{IsQuiet, step-IsQuiet, end_sync-pause}
use p_drive.Daemon.Listing.{refresh_budget}
use p_drive.Daemon.Listing.Laws.{refresh_budget-granted}
use p_drive.Daemon.Watcher.{Burst, handle}
use p_drive.Daemon.Watcher.Laws.{handle-moved, arrival, departure}

abbrev daemon : Daemon
daemon = new_daemon default_config [] []

abbrev free : Limiter
free = record { until = none }

abbrev nudged : Daemon
nudged = trigger trigger_local daemon

abbrev begun : Loop
begun = record {
  daemon = begin_sync (drain_wake nudged);
  phase = running (automatic trigger_local);
  asking = [];
}

Reachable-IsSafe_example : IsSafe (codes "~/pdrive") begun
unfolding trigger begin_sync limited_for
Reachable-IsSafe_example = Reachable-IsSafe default_config [] [] begun (
    next
      (next (next (next start (triggers trigger_local refl)) (wakes trigger_local [] refl))
        (checks 0 free (automatic trigger_local)))
      (begins (automatic trigger_local)))

abbrev quiet : Loop
quiet = record { daemon = pause nudged; phase = resting; asking = [] }

quiet-IsQuiet : IsQuiet quiet
unfolding trigger
quiet-IsQuiet = record {
  phase = tt;
  paused = refl;
  asking = refl;
  requests = refl;
  triggers = (refl, tt);
}

step-IsQuiet_example : IsQuiet (take_wake trigger_local (pause nudged) [])
unfolding trigger
step-IsQuiet_example =
    step-IsQuiet quiet (take_wake trigger_local (pause nudged) []) (wakes trigger_local [] refl)
      quiet-IsQuiet

abbrev quiet_pass : Outcome
quiet_pass = ended (some no_result) none

end_sync-pause_example : is_paused (end_sync 9 none quiet_pass (pause daemon)).state ≡ false
end_sync-pause_example = end_sync-pause 9 none quiet_pass daemon

abbrev active : Daemon
active = record daemon { last_change = some second }

abbrev late_progress : Event
late_progress = record { kind = event_transfer_progress; path = codes "a"; size = 9; up = true }

abbrev copies : List Conflict
copies =
    record { path = codes "a"; kept_local = codes "a (1)"; remote_rev = []; at = 1 }
    ∷ record { path = codes "a"; kept_local = codes "a (2)"; remote_rev = []; at = 2 }
    ∷ []

abbrev only_second : Text → Bool
only_second path = text_eq path (codes "a (2)")

abbrev short_hold : Config
short_hold = record default_config {
  freshness = record default_config.freshness { max_block_ms = pos 1000 };
}

refresh_budget-granted_example :
    refresh_budget (validate short_hold).freshness.max_block_ms
    < effective second (granted second (validate default_config).freshness.max_block_ms)
unfolding validate
refresh_budget-granted_example =
    refresh_budget-granted second default_config short_hold (omega arith)

-- After a reload from one second to three the budget outlives the hold.
late_budget : effective second (granted second (pos 1000)) < refresh_budget (pos 3000)
late_budget = omega arith

abbrev root_parts : List Text
root_parts = codes "home" ∷ codes "me" ∷ []

abbrev calm : Burst
calm = record { timer = none; last_listing = none; changes = 3; listings = 0 }

abbrev kernel : Text → Option ℕ
kernel dir = some 5

abbrev alone : Text → List Text
alone dir = dir ∷ []

handle-moved_example :
    let moved =
      (handle kernel alone 1
        (arrival kernel alone)
        (codes "new")
        ((5, codes "/r/old") ∷ (1, codes "/r") ∷ [])).0 in
    let gone = (handle kernel alone 5 (departure kernel alone) [] moved).0 in
    (handle kernel alone 5 (arrival kernel alone) (codes "sub") gone).0 ≡ gone
handle-moved_example =
    handle-moved kernel alone 5 1 (codes "new") (codes "sub")
      ((5, codes "/r/old") ∷ (1, codes "/r") ∷ [])
