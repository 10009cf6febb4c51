-- ===== src/Daemon/Serve.antt =====
-- internal/daemon/server.go: what the daemon answers to one request. Status, the decoding of
-- parameters and the engine behind `get` are arguments.
use p_drive.Base.{
  ◌++◌, ℕ, Text, List, [], ◌∷◌, Bool, true, false, Option, none, some, ◌≡◌, refl, if◌then◌else◌,
  ltb, length, arith,
}
use p_drive.State.Activity.{Entry, Conflict}
use p_drive.Config.{Config, ConfigFile, load}
use p_drive.Daemon.{
  Daemon, SyncParams, TransferData, Requested, refused, blocked, queued, request_sync,
  requests_size, manual_request, pause, resume, reload, is_paused,
}
use p_drive.Daemon.Feed.{activity_log, clear_log, present_conflicts}

-- The commands. `notify_open` is declared by the protocol as well; `other` is any other text.
pub data Command : Type 0 where
  cmd_ping cmd_subscribe cmd_status cmd_reload cmd_clear_activity cmd_pause : Command
  cmd_resume cmd_conflicts cmd_notify_open cmd_other : Command
  cmd_sync : Option SyncParams → Command
  cmd_activity : ℕ → Command
  cmd_get : Option Text → Command

-- `ipc.Response`, by its data; `waits` is a sync that is queued, or that the client waits to queue,
-- and `taken` a connection that carries events from now on.
pub data Response : Type 0 where
  done status taken waits bad_parameters syncing_is_paused reload_failed get_failed
        unknown_command :
      Response
  activity_data : List Entry × List TransferData → Response
  conflicts_data : List Conflict → Response

abbrev pub asked : Daemon → Requested → Daemon × Response
asked d refused = (d, syncing_is_paused)
asked d blocked = (d, waits)
asked d (queued d') = (d', waits)

-- `Subscribe`, with the channel as it is made
abbrev pub subscribe : Daemon → Daemon
subscribe d = record d { subs = [] ∷ d.subs }

-- `dispatch`; `file` is what config.toml holds, `exists` what is below the root, and `get` whether
-- materializing succeeds.
unfoldable pub dispatch :
    ConfigFile → (Text → Bool) → (Text → Bool) → Command → Daemon → Daemon × Response
unfolding request_sync reload resume present_conflicts
dispatch file exists get cmd_ping d = (d, done)
dispatch file exists get cmd_subscribe d = (subscribe d, taken)
dispatch file exists get cmd_status d = (d, status)
dispatch file exists get (cmd_sync none) d = (d, bad_parameters)
dispatch file exists get (cmd_sync (some p)) d = asked d (request_sync p d)
dispatch file exists get cmd_reload d = elim (load file) [
  | none ↦ (d, reload_failed)
  | some fresh ↦ (reload file d, done)
]
dispatch file exists get (cmd_activity limit) d = (d, activity_data (activity_log limit d))
dispatch file exists get cmd_clear_activity d = (clear_log d, done)
dispatch file exists get cmd_pause d = (pause d, done)
dispatch file exists get cmd_resume d = (resume d, done)
dispatch file exists get cmd_conflicts d =
    let r = present_conflicts exists d in (r.0, conflicts_data r.1)
dispatch file exists get (cmd_get none) d = (d, bad_parameters)
dispatch file exists get (cmd_get (some path)) d = (d, if get path then done else get_failed)
dispatch file exists get cmd_notify_open d = (d, unknown_command)
dispatch file exists get cmd_other d = (d, unknown_command)

abbrev pub is_error : Response → Bool
is_error bad_parameters = true
is_error syncing_is_paused = true
is_error reload_failed = true
is_error get_failed = true
is_error unknown_command = true
is_error _ = false

asked-unchanged :
    (p : SyncParams) (d : Daemon)
    → is_error (asked d (request_sync p d)).1 ≡ true
    → (asked d (request_sync p d)).0 ≡ d
unfolding request_sync
asked-unchanged p d = on (is_paused d.state) (ltb (length d.sync_req) requests_size)
  where
    on :
        (b c : Bool)
        → let r : Requested =
            if b
            then refused
            else if c
            then queued (record d { sync_req = d.sync_req ++ (manual_request p ∷ []) })
            else blocked in
          is_error (asked d r).1 ≡ true → (asked d r).0 ≡ d
    on true c h = refl
    on false true h = absurd (ground arith)
    on false false h = refl

-- A request that is answered with an error has changed nothing in the daemon.
pub dispatch-error :
    (file : ConfigFile) (exists get : Text → Bool) (c : Command) (d : Daemon)
    → is_error (dispatch file exists get c d).1 ≡ true
    → (dispatch file exists get c d).0 ≡ d
unfolding dispatch
dispatch-error file exists get cmd_ping d h = refl
dispatch-error file exists get cmd_subscribe d h = absurd (ground arith)
dispatch-error file exists get cmd_status d h = refl
dispatch-error file exists get (cmd_sync none) d h = refl
dispatch-error file exists get (cmd_sync (some p)) d h = asked-unchanged p d h
dispatch-error file exists get cmd_reload d h = on (load file) h
  where
    on :
        (o : Option Config)
        → let r : Daemon × Response = elim o [
          | none ↦ (d, reload_failed)
          | some fresh ↦ (reload file d, done)
        ] in
          is_error r.1 ≡ true → r.0 ≡ d
    on none k = refl
    on (some fresh) k = absurd (ground arith)
dispatch-error file exists get (cmd_activity limit) d h = refl
dispatch-error file exists get cmd_clear_activity d h = absurd (ground arith)
dispatch-error file exists get cmd_pause d h = absurd (ground arith)
dispatch-error file exists get cmd_resume d h = absurd (ground arith)
dispatch-error file exists get cmd_conflicts d h = absurd (ground arith)
dispatch-error file exists get (cmd_get none) d h = refl
dispatch-error file exists get (cmd_get (some path)) d h = refl
dispatch-error file exists get cmd_notify_open d h = refl
dispatch-error file exists get cmd_other d h = refl
