-- ===== src/Daemon/Machine.antt =====
-- The sync loop as a state machine: passes start and end in it alone, while clients, timers and the
-- watcher act at any time.
pub mod Settled
pub mod Safe
pub mod Quiet
pub mod Races
use p_drive.Base.{
  ℕ, suc, ◌+◌, ◌-◌, ◌≤◌, ◌<◌, Text, List, [], ◌∷◌, ◌++◌, Bool, true, false, not, ◌&&◌, ◌||◌, Option,
  none, some, is_empty, length, length-append, All, All-append, if◌then◌else◌, if_elim, ltb, ◌≡◌,
  ◌≢◌, refl, sym, ap, ◌∙◌, subst, arith,
}
use p_drive.State.Rows.{Time}
use p_drive.RateLimit.{Limiter, limited_for}
use p_drive.Config.{Config, ConfigFile, load}
use p_drive.Mirror.World.{Result}
use p_drive.Daemon.{
  Daemon, State, state_idle, state_syncing, state_paused, state_error, Trigger, trigger_manual,
  trigger_poll, SyncRequest, SyncParams, Notice, Outcome, not_opened, ended, new_daemon, offer,
  offer_each, publish, trigger, drain_wake, is_manual, is_paused, pause, resume, reload, settle,
  rescan_after, gate_rescan, finish_sync, fetch_quota, refresh_quota, quota_after, is_skipped,
  begin_sync, end_sync, within, quota_refresh_interval, poll_turn, Requested, refused, blocked,
  queued, request_sync, manual_request, wake_size, requests_size, subscriber_size,
}
use p_drive.State.Activity.{Log, Conflict}

-- What the loop is at: it waits; it has received a request and is about to check it; it has let the
-- request through and is about to show the pass as syncing; or the pass runs. Between any two of these
-- a client may pause or resume.
pub data Phase : Type 0 where
  resting : Phase
  checking admitted running : SyncRequest → Phase

-- The daemon, the loop, and the clients of `RequestSync` that were not refused and have not yet sent.
pub record Loop : Type 0 where
  pub daemon : Daemon
  pub phase : Phase
  pub asking : List SyncParams

abbrev pub automatic : Trigger → SyncRequest
automatic t = record { trigger = t; confirm_deletions = false; full = false; down_only = false }

-- The guards at the start of `runSync`, over the daemon as it is then
abbrev pub check_pass : ℕ → Limiter → SyncRequest → Daemon → Phase
check_pass now l req d = if is_skipped now l req d then resting else admitted req

-- One turn of `syncLoop` that finds a trigger, or a request.
abbrev pub take_wake : Trigger → Daemon → List SyncParams → Loop
take_wake t d asking = record {
  daemon = drain_wake d;
  phase = checking (automatic t);
  asking = asking;
}

abbrev pub take_request : SyncRequest → List SyncRequest → Daemon → List SyncParams → Loop
take_request req rest d asking = record {
  daemon = record d { sync_req = rest };
  phase = checking req;
  asking = asking;
}

-- The send of `RequestSync`
abbrev pub send_request : SyncParams → Daemon → Daemon
send_request p d = record d { sync_req = d.sync_req ++ (manual_request p ∷ []) }

-- The steps that no `Resume` is part of. A trigger from outside is not manual: only `Resume` and
-- `RequestSync` say manual.
pub data Step : Loop → Loop → Type 0 where
  wakes :
      {d : Daemon} {q : List SyncParams} (t : Trigger) (ts : List Trigger)
      → d.wake ≡ t ∷ ts
      → Step (record { daemon = d; phase = resting; asking = q }) (take_wake t d q)
  serves :
      {d : Daemon} {q : List SyncParams} (req : SyncRequest) (rest : List SyncRequest)
      → d.sync_req ≡ req ∷ rest
      → Step (record { daemon = d; phase = resting; asking = q }) (take_request req rest d q)
  checks :
      {d : Daemon} {q : List SyncParams} (now : ℕ) (l : Limiter) (req : SyncRequest)
      → Step
          (record { daemon = d; phase = checking req; asking = q })
          (record { daemon = d; phase = check_pass now l req d; asking = q })
  begins :
      {d : Daemon} {q : List SyncParams} (req : SyncRequest)
      → Step
          (record { daemon = d; phase = admitted req; asking = q })
          (record { daemon = begin_sync d; phase = running req; asking = q })
  ends :
      {d : Daemon} {q : List SyncParams} (now : ℕ) (about : Option (ℕ × ℕ)) (out : Outcome)
      (req : SyncRequest)
      → Step
          (record { daemon = d; phase = running req; asking = q })
          (record { daemon = end_sync now about out d; phase = resting; asking = q })
  triggers :
      {d : Daemon} {r : Phase} {q : List SyncParams} (t : Trigger)
      → is_manual t ≡ false
      → Step
          (record { daemon = d; phase = r; asking = q })
          (record { daemon = trigger t d; phase = r; asking = q })
  polls :
      {d : Daemon} {r : Phase} {q : List SyncParams} (now : ℕ) (l : Limiter)
      → Step
          (record { daemon = d; phase = r; asking = q })
          (record { daemon = (poll_turn now l d).0; phase = r; asking = q })
  pauses :
      {d : Daemon} {r : Phase} {q : List SyncParams}
      → Step
          (record { daemon = d; phase = r; asking = q })
          (record { daemon = pause d; phase = r; asking = q })
  asks :
      {d : Daemon} {r : Phase} {q : List SyncParams} (p : SyncParams)
      → is_paused d.state ≡ false
      → Step
          (record { daemon = d; phase = r; asking = q })
          (record { daemon = d; phase = r; asking = p ∷ q })
  sends :
      {d : Daemon} {r : Phase} {q : List SyncParams} (before : List SyncParams) (p : SyncParams)
      (after : List SyncParams)
      → q ≡ before ++ (p ∷ after)
      → ltb (length d.sync_req) requests_size ≡ true
      → Step
          (record { daemon = d; phase = r; asking = q })
          (record { daemon = send_request p d; phase = r; asking = before ++ after })
  gives_up :
      {d : Daemon} {r : Phase} {q : List SyncParams} (before : List SyncParams) (p : SyncParams)
      (after : List SyncParams)
      → q ≡ before ++ (p ∷ after)
      → Step
          (record { daemon = d; phase = r; asking = q })
          (record { daemon = d; phase = r; asking = before ++ after })
  reloads :
      {d : Daemon} {r : Phase} {q : List SyncParams} (file : ConfigFile)
      → Step
          (record { daemon = d; phase = r; asking = q })
          (record { daemon = reload file d; phase = r; asking = q })
  notifies :
      {d : Daemon} {r : Phase} {q : List SyncParams} (n : Notice)
      → Step
          (record { daemon = d; phase = r; asking = q })
          (record { daemon = publish n d; phase = r; asking = q })

abbrev pub started : Config → Log → List Conflict → Loop
started cfg log rows = record { daemon = new_daemon cfg log rows; phase = resting; asking = [] }

pub data Reachable (cfg : Config) (log : Log) (rows : List Conflict) : Loop → Type 0 where
  start : Reachable cfg log rows (started cfg log rows)
  next : {s s' : Loop} → Reachable cfg log rows s → Step s s' → Reachable cfg log rows s'
  resumes :
      {d : Daemon} {r : Phase} {q : List SyncParams}
      → Reachable cfg log rows (record { daemon = d; phase = r; asking = q })
      → Reachable cfg log rows (record { daemon = resume d; phase = r; asking = q })

-- Any number of those steps.
pub data Steps : Loop → Loop → Type 0 where
  stop : {s : Loop} → Steps s s
  go : {s s' s'' : Loop} → Step s s' → Steps s' s'' → Steps s s''
