-- ===== src/Daemon.antt =====
-- internal/daemon/daemon.go: the long-lived process, its sync loop and its state. What a pass of the
-- engine gives is an argument; logging is not modelled. Times are nanoseconds.
pub mod Feed
pub mod Listing
pub mod Serve
pub mod Watcher
pub mod Machine
pub mod Cadence
mod Tests
use p_drive.Base.{
  ℕ, ◌+◌, ◌-◌, ◌*◌, Text, List, [], ◌∷◌, ◌++◌, Bool, true, false, not, ◌&&◌, ◌||◌, Option, none,
  some, is_empty, length, ltb, ◌==◌, if◌then◌else◌,
}
use p_drive.State.Rows.{ℤ, pos, negsuc, Time, second}
use p_drive.State.Activity.{Log, Conflict, prune_activity}
use p_drive.RateLimit.{Limiter, limited_for}
use p_drive.Config.{Config, FreshnessConfig, ConfigFile, load}
use p_drive.Mirror.World.{Result}

-- `State`
pub data State : Type 0 where
  state_idle state_syncing state_paused state_error : State

-- `Trigger`; `network-up` is never sent.
pub data Trigger : Type 0 where
  trigger_startup trigger_local trigger_poll trigger_listing trigger_resume : Trigger
  trigger_manual : Trigger

-- `syncRequest`, less the channel for its result
pub record SyncRequest : Type 0 where
  pub trigger : Trigger
  pub confirm_deletions : Bool
  pub full : Bool
  pub down_only : Bool

-- `ipc.SyncData`
pub record SyncData : Type 0 where
  pub downloaded : ℕ
  pub uploaded : ℕ
  pub moved : ℕ
  pub trashed_remote : ℕ
  pub deleted : ℕ
  pub stubbed : ℕ
  pub conflicts : ℕ
  pub warnings : ℕ
  pub bytes : ℕ
  pub uploaded_bytes : ℕ
  pub full_mirror : Bool

-- `ipc.TransferData`
pub record TransferData : Type 0 where
  pub path : Text
  pub up : Bool
  pub done : ℕ
  pub total : ℕ
  pub finished : Bool
  pub started : Option ℕ

-- `ipc.Event`, with its data
pub data Notice : Type 0 where
  sync_started : Notice
  sync_finished : SyncData → Notice
  transfer : TransferData → Notice
  activity : Text → Text → ℕ → Notice

-- `Daemon`. A subscriber is the notices that its channel holds; `rescans` counts the requests to
-- the gate.
pub record Daemon : Type 0 where
  pub cfg : Config
  pub state : State
  pub last_sync : Time
  pub last_change : Time
  pub last_error : Text
  pub gate : Bool
  pub gate_conn : Bool
  pub rescans : ℕ
  pub last_poll : Time
  pub sync_req : List SyncRequest
  pub wake : List Trigger
  pub transfers : List (Text × TransferData)
  pub listing_run : Bool
  pub quota : ℕ × ℕ
  pub quota_fetched : Time
  pub subs : List (List Notice)
  pub log : Log
  pub conflicts : List Conflict

abbrev pub wake_size : ℕ
wake_size = 64

abbrev pub requests_size : ℕ
requests_size = 16

abbrev pub subscriber_size : ℕ
subscriber_size = 64

-- The daemon that `New` makes, over its settings and its database.
abbrev pub new_daemon : Config → Log → List Conflict → Daemon
new_daemon cfg log rows = record {
  cfg = cfg;
  state = state_idle;
  last_sync = none;
  last_change = none;
  last_error = [];
  gate = false;
  gate_conn = false;
  rescans = 0;
  last_poll = none;
  sync_req = [];
  wake = [];
  transfers = [];
  listing_run = false;
  quota = (0, 0);
  quota_fetched = none;
  subs = [];
  log = log;
  conflicts = rows;
}

-- A send that gives up where the channel is full.
abbrev pub offer {ℓ} : {A : Type ℓ} → ℕ → A → List A → List A
offer size x queue = if ltb (length queue) size then queue ++ (x ∷ []) else queue

-- The loop of `publish`
abbrev pub offer_each : Notice → List (List Notice) → List (List Notice)
offer_each n [] = []
offer_each n (queue ∷ subs) = offer subscriber_size n queue ∷ offer_each n subs

-- `publish`
unfoldable pub publish : Notice → Daemon → Daemon
publish n d = record d { subs = offer_each n d.subs }

-- `Trigger`
unfoldable pub trigger : Trigger → Daemon → Daemon
trigger t d = record d { wake = offer wake_size t d.wake }

-- `drainWake`
abbrev pub drain_wake : Daemon → Daemon
drain_wake d = record d { wake = [] }

abbrev pub is_manual : Trigger → Bool
is_manual trigger_manual = true
is_manual _ = false

-- `IsPaused`
abbrev pub is_paused : State → Bool
is_paused state_paused = true
is_paused _ = false

-- `Pause`
abbrev pub pause : Daemon → Daemon
pause d = record d { state = state_paused }

-- `Resume`
unfoldable pub resume : Daemon → Daemon
unfolding trigger
resume d =
    trigger trigger_manual (record d { state = if is_paused d.state then state_idle else d.state })

-- `Reload`; the root in use stays.
unfoldable pub reload : ConfigFile → Daemon → Daemon
unfolding load
reload file d = elim (load file) [
  | none ↦ d
  | some fresh ↦ record d {
    cfg = record fresh { sync = record fresh.sync { root = d.cfg.sync.root } };
  }
]

-- `changed`
abbrev pub changed : Result → Bool
changed r =
    ltb 0 r.downloaded
    || ltb 0 r.uploaded
    || ltb 0 r.moved
    || ltb 0 r.trashed_remote
    || ltb 0 r.deleted
    || ltb 0 r.stubbed
    || ltb 0 r.conflicts

-- `resultToData`, and what `finishSync` builds
abbrev pub result_to_data : Option Result → SyncData
result_to_data none = record {
  downloaded = 0;
  uploaded = 0;
  moved = 0;
  trashed_remote = 0;
  deleted = 0;
  stubbed = 0;
  conflicts = 0;
  warnings = 0;
  bytes = 0;
  uploaded_bytes = 0;
  full_mirror = false;
}
result_to_data (some r) = record {
  downloaded = r.downloaded;
  uploaded = r.uploaded;
  moved = r.moved;
  trashed_remote = r.trashed_remote;
  deleted = r.deleted;
  stubbed = r.stubbed;
  conflicts = r.conflicts;
  warnings = r.warnings;
  bytes = r.bytes;
  uploaded_bytes = r.uploaded_bytes;
  full_mirror = r.full_mirror;
}

-- `GateRescan`
abbrev pub gate_rescan : Daemon → Daemon
gate_rescan d = if d.gate_conn then record d { rescans = d.rescans + 1 } else d

-- What a pass of the engine gives: `mirror.New` failed, or the pass ended, with its result and its
-- error.
pub data Outcome : Type 0 where
  not_opened : Text → Outcome
  ended : Option Result → Option Text → Outcome

abbrev pub result_of : Outcome → Option Result
result_of (not_opened e) = none
result_of (ended res err) = res

abbrev pub error_of : Outcome → Option Text
error_of (not_opened e) = some e
error_of (ended res err) = err

-- The first part of `finishSync`
abbrev pub settle : ℕ → Option Result → Option Text → Daemon → Daemon
settle now res (some e) d = record d { state = state_error; last_error = e }
settle now none none d = record d { state = state_idle; last_error = []; last_sync = some now }
settle now (some r) none d = record d {
  state = state_idle;
  last_error = [];
  last_sync = some now;
  last_change = if changed r then some now else d.last_change;
}

abbrev pub rescan_after : Option Result → Option Text → Daemon → Daemon
rescan_after res (some e) d = d
rescan_after none none d = d
rescan_after (some r) none d = if ltb 0 r.dirs then gate_rescan d else d

-- `finishSync`
unfoldable pub finish_sync : ℕ → Option Result → Option Text → Daemon → Daemon
unfolding publish
finish_sync now res err d =
    publish (sync_finished (result_to_data res)) (rescan_after res err (settle now res err d))

abbrev pub quota_refresh_interval : ℕ
quota_refresh_interval = 5 * 60 * second

-- What `About` gives: the space used and the space there is.
abbrev pub fetch_quota : ℕ → Option (ℕ × ℕ) → Daemon → Daemon
fetch_quota now none d = d
fetch_quota now (some quota) d = record d { quota = quota; quota_fetched = some now }

-- `time.Since` is below the bound; never for the zero time.
abbrev pub within : ℕ → Time → ℕ → Bool
within now none bound = false
within now (some t) bound = ltb (now - t) bound

-- `refreshQuota`
unfoldable pub refresh_quota : ℕ → Option (ℕ × ℕ) → Daemon → Daemon
refresh_quota now about d =
    if within now d.quota_fetched quota_refresh_interval then d else fetch_quota now about d

-- The guards of `runSync`: whether the pass is skipped.
abbrev pub is_skipped : ℕ → Limiter → SyncRequest → Daemon → Bool
is_skipped now l req d =
    (is_paused d.state && not (is_manual req.trigger))
    || (ltb 0 (limited_for now l) && not (is_manual req.trigger))

-- `runSync` up to the pass
unfoldable pub begin_sync : Daemon → Daemon
unfolding publish
begin_sync d = publish sync_started (record d { state = state_syncing })

abbrev pub quota_after : ℕ → Option (ℕ × ℕ) → Option Text → Daemon → Daemon
quota_after now about none d = refresh_quota now about d
quota_after now about (some e) d = d

-- `runSync` after the pass, with what `About` would give
unfoldable pub end_sync : ℕ → Option (ℕ × ℕ) → Outcome → Daemon → Daemon
unfolding finish_sync refresh_quota prune_activity
end_sync now about (not_opened e) d = finish_sync now none (some e) d
end_sync now about (ended res err) d =
    let polled = quota_after now about err (record d { last_poll = some now }) in
    finish_sync now res err (record polled { log = prune_activity polled.log })

abbrev pub to_ns : ℤ → ℕ
to_ns (pos n) = n
to_ns (negsuc n) = 0

-- `pollInterval`
unfoldable pub poll_interval : ℕ → Daemon → ℕ
poll_interval now d =
    if within now d.last_change (to_ns d.cfg.freshness.active_window)
    then to_ns d.cfg.freshness.active_interval
    else to_ns d.cfg.freshness.idle_interval

-- One turn of `pollLoop`: the daemon after it, and the time to the next.
unfoldable pub poll_turn : ℕ → Limiter → Daemon → Daemon × ℕ
unfolding trigger poll_interval limited_for
poll_turn now l d =
    if ltb 0 (limited_for now l)
    then (d, limited_for now l + second)
    else if is_paused d.state
    then (d, poll_interval now d)
    else (trigger trigger_poll d, poll_interval now d)

-- `Fresh`
abbrev pub fresh : ℕ → Daemon → Bool
fresh now d = within now d.last_poll (to_ns d.cfg.freshness.fresh_window)

-- `ipc.SyncParams`
pub record SyncParams : Type 0 where
  pub full : Bool
  pub down_only : Bool
  pub confirm_deletions : Bool

abbrev pub manual_request : SyncParams → SyncRequest
manual_request p = record {
  trigger = trigger_manual;
  confirm_deletions = p.confirm_deletions;
  full = p.full;
  down_only = p.down_only;
}

-- What `RequestSync` gives before it waits for the result: `refused` is an error. Where the channel is full the client waits, which
-- is `blocked`.
pub data Requested : Type 0 where
  refused blocked : Requested
  queued : Daemon → Requested

-- `RequestSync`
unfoldable pub request_sync : SyncParams → Daemon → Requested
request_sync p d =
    if is_paused d.state
    then refused
    else if ltb (length d.sync_req) requests_size
    then queued (record d { sync_req = d.sync_req ++ (manual_request p ∷ []) })
    else blocked
