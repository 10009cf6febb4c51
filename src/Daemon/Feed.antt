-- ===== src/Daemon/Feed.antt =====
-- internal/daemon/daemon.go: transfers in flight, the stored history and the preserved copies.
pub mod Laws
use p_drive.Base.{
  ℕ, ◌+◌, ◌≤◌, Text, codes, List, [], ◌∷◌, ◌++◌, Bool, true, false, not, ◌&&◌, ◌||◌, Option, none,
  some, map, is_empty, length, keep, any, text_eq, text_eq_refl, text_eq_iff, text_lt, sort,
  if◌then◌else◌, if_elim, ltb, ◌≡◌, refl, sym, ap, ◌∙◌, subst, arith, All, Bool-cases, inl, inr,
}
use p_drive.State.Activity.{
  Entry, Log, Conflict, append_activity, prune_activity, recent_activity, conflicts,
  delete_conflict,
}
use p_drive.Mirror.World.{
  EventKind, Event, event_dir, event_download, event_stub, event_skip, event_delete, event_warn,
  event_upload, event_mkdir_remote, event_move, event_trash_remote, event_conflict,
  event_transfer_start, event_transfer_progress, event_transfer_done,
}
use p_drive.Daemon.{Daemon, Notice, TransferData, transfer, activity, publish}

-- `activityKind`
abbrev pub activity_kind : EventKind → Text
activity_kind event_dir = codes "dir"
activity_kind event_download = codes "download"
activity_kind event_upload = codes "upload"
activity_kind event_stub = codes "stub"
activity_kind event_skip = codes "skip"
activity_kind event_delete = codes "delete"
activity_kind event_move = codes "move"
activity_kind event_trash_remote = codes "trash-remote"
activity_kind event_mkdir_remote = codes "mkdir-remote"
activity_kind event_conflict = codes "conflict"
activity_kind event_warn = codes "warning"
activity_kind event_transfer_start = codes "unknown"
activity_kind event_transfer_progress = codes "unknown"
activity_kind event_transfer_done = codes "unknown"

-- `worthRecording`
unfoldable pub worth_recording : Text → Bool
unfolding text_eq
worth_recording kind = not (text_eq kind (codes "skip") || text_eq kind (codes "unknown"))

-- `transferKey`
abbrev pub transfer_key : Bool → Text → Text
transfer_key up path = if up then codes "up:" ++ path else codes "down:" ++ path

-- The map of transfers, by key.
abbrev pub Transfers : Type 0
Transfers = List (Text × TransferData)

unfoldable pub transfer_at : Text → Transfers → Option TransferData
unfolding text_eq
transfer_at key [] = none
transfer_at key ((k, t) ∷ ts) = if text_eq k key then some t else transfer_at key ts

unfoldable pub drop_transfer : Text → Transfers → Transfers
unfolding text_eq
drop_transfer key [] = []
drop_transfer key ((k, t) ∷ ts) =
    let rest = drop_transfer key ts in if text_eq k key then rest else (k, t) ∷ rest

abbrev pub put_transfer : Text → TransferData → Transfers → Transfers
put_transfer key t ts = (key, t) ∷ drop_transfer key ts

abbrev pub started_transfer : ℕ → Event → TransferData
started_transfer now ev = record {
  path = ev.path;
  up = ev.up;
  done = 0;
  total = ev.size;
  finished = false;
  started = some now;
}

abbrev pub finished_transfer : Event → TransferData
finished_transfer ev = record {
  path = ev.path;
  up = ev.up;
  done = 0;
  total = 0;
  finished = true;
  started = none;
}

abbrev pub start_transfer : ℕ → Event → Daemon → Daemon
start_transfer now ev d =
    let t = started_transfer now ev in
    publish (transfer t)
      (record d { transfers = put_transfer (transfer_key ev.up ev.path) t d.transfers })

abbrev pub advance : ℕ → Event → Daemon → Option TransferData → Daemon
advance done ev d none = d
advance done ev d (some t) =
    let t' : TransferData = record t { done = done; total = ev.size } in
    publish (transfer t')
      (record d { transfers = put_transfer (transfer_key ev.up ev.path) t' d.transfers })

abbrev pub end_transfer : Event → Daemon → Daemon
end_transfer ev d =
    publish (transfer (finished_transfer ev))
      (record d { transfers = drop_transfer (transfer_key ev.up ev.path) d.transfers })

abbrev pub remember : ℕ → Event → Daemon → Daemon
remember now ev d =
    let kind = activity_kind ev.kind in
    let d' = publish (activity kind ev.path ev.size) d in
    if worth_recording kind
    then record d' {
      log =
          append_activity now (record { at = now; kind = kind; path = ev.path; size = ev.size })
            d'.log;
    }
    else d'

-- `onMirrorEvent`, with the bytes that a transfer has moved so far
unfoldable pub on_mirror_event : ℕ → ℕ → Event → Daemon → Daemon
unfolding publish transfer_at drop_transfer append_activity worth_recording
on_mirror_event now done ev d = elim ev.kind [
  | event_transfer_start ↦ start_transfer now ev d
  | event_transfer_progress ↦
      advance done ev d (transfer_at (transfer_key ev.up ev.path) d.transfers)
  | event_transfer_done ↦ end_transfer ev d
  | _ ↦ remember now ev d
]

abbrev by_transfer_path : TransferData → TransferData → Bool
by_transfer_path s t = text_lt s.path t.path

abbrev pub transfer_data : Transfers → List TransferData
transfer_data [] = []
transfer_data ((k, t) ∷ ts) = t ∷ transfer_data ts

-- `Activity`: the history and what is in flight
abbrev pub activity_log : ℕ → Daemon → List Entry × List TransferData
activity_log limit d =
    (recent_activity limit d.log, sort by_transfer_path (transfer_data d.transfers))

-- `ClearActivity`
abbrev pub clear_log : Daemon → Daemon
clear_log d = record d { log = [] }

-- The loop of `Conflicts`, over what `Lstat` finds below the root.
unfoldable pub list_conflicts :
    (Text → Bool) → List Conflict → List Conflict → List Conflict × List Conflict
unfolding delete_conflict
list_conflicts exists [] rows = ([], rows)
list_conflicts exists (c ∷ cs) rows =
    let kept = list_conflicts exists cs rows in
    let gone = list_conflicts exists cs (delete_conflict c.path c.kept_local rows) in
    if exists c.kept_local then (c ∷ kept.0, kept.1) else gone

-- `Daemon.Conflicts`
unfoldable pub present_conflicts : (Text → Bool) → Daemon → Daemon × List Conflict
unfolding list_conflicts conflicts
present_conflicts exists d =
    let r = list_conflicts exists (conflicts d.conflicts) d.conflicts in
    (record d { conflicts = r.1 }, r.0)
