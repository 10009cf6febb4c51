-- ===== src/Mirror/World.antt =====
-- What a pass works on: the data types of mirror.go and scan.go, the remote side as source.go
-- declares it, and the monad of the engine's methods.
pub mod Laws
use p_drive.Base.{
  ℕ, zero, suc, ◌+◌, Text, List, [], ◌∷◌, ◌++◌, Bool, true, false, Option, none, some, ◌≡◌, text_eq,
  length, if◌then◌else◌,
}
use p_drive.State.Rows.{Time, Node, Row}
use p_drive.State.Meta.{Meta}
use p_drive.State.Activity.{Conflict}
use p_drive.Mirror.Disk.{Disk, File}

-- `EventKind`
pub data EventKind : Type 0 where
  event_dir event_download event_stub event_skip event_delete event_warn event_upload
        event_mkdir_remote event_move event_trash_remote event_conflict event_transfer_start
        event_transfer_progress event_transfer_done :
      EventKind

-- `Event`, less the error that a warning shows and the bytes moved so far
pub record Event : Type 0 where
  pub kind : EventKind
  pub path : Text
  pub size : ℕ
  pub up : Bool

-- `Result`
pub record Result : Type 0 where
  pub dirs : ℕ
  pub downloaded : ℕ
  pub stubbed : ℕ
  pub skipped : ℕ
  pub deleted : ℕ
  pub warnings : ℕ
  pub bytes : ℕ
  pub uploaded : ℕ
  pub uploaded_bytes : ℕ
  pub moved : ℕ
  pub trashed_remote : ℕ
  pub conflicts : ℕ
  pub full_mirror : Bool
  pub cursor_moved : Bool

abbrev pub no_result : Result
no_result = record {
  dirs = 0;
  downloaded = 0;
  stubbed = 0;
  skipped = 0;
  deleted = 0;
  warnings = 0;
  bytes = 0;
  uploaded = 0;
  uploaded_bytes = 0;
  moved = 0;
  trashed_remote = 0;
  conflicts = 0;
  full_mirror = false;
  cursor_moved = false;
}

-- `LocalNode`
pub record LocalNode : Type 0 where
  pub path : Text
  pub is_dir : Bool
  pub size : ℕ
  pub mtime : Time
  pub inode : ℕ
  pub hash : Text

-- `drive.Node`
pub record RemoteNode : Type 0 where
  pub link_id : Text
  pub parent_id : Text
  pub name : Text
  pub path : Text
  pub is_dir : Bool
  pub size : ℕ
  pub modified : Time
  pub digest : Text

-- `drive.ChangeKind`, `drive.Change` and `drive.Delta`
pub data ChangeKind : Type 0 where
  change_upsert change_delete : ChangeKind

pub record Change : Type 0 where
  pub kind : ChangeKind
  pub link_id : Text
  pub parent_id : Text

pub record Delta : Type 0 where
  pub cursor : Text
  pub refresh : Bool
  pub changes : List Change

-- What the settings say of a pass (`config.Config`, validated).
pub record Settings : Type 0 where
  pub deletion_guard_percent : ℕ
  pub max_auto_download_size : ℕ
  pub exclude : List Text

-- What surrounds a pass: the time that `time.Now` gives, as a number and in the three formats of the
-- source, and the host's name. A pass happens at one instant.
pub record Env : Type 0 where
  pub now : ℕ
  pub conflict_stamp : Text
  pub trash_stamp : Text
  pub scan_stamp : Text
  pub hostname : Text

-- `Source`: the remote side. `none` and `false` are errors. A walk gives the nodes that it reached,
-- and whether it reached all.
pub record Source : Type 1 where
  pub State : Type 0
  pub root_link_id : Text
  pub volume_id : Text
  pub share_id : Text
  pub latest_event_id : State → Option Text
  pub poll_events : Text → State → Option Delta
  pub walk : State → List RemoteNode × Bool
  pub list_dir : Text → Text → State → Option (List RemoteNode)
  pub link_parent : Text → State → Option Text
  pub download : Text → State → Option Text
  pub upload : Text → Text → Time → Text → State → State × Option Text
  pub mkdir : Text → Text → State → State × Option Text
  pub trash : Text → Bool → State → State × Bool
  pub move : Text → Text → Text → Bool → State → State × Bool

-- The state of a pass: the fields of `Mirror`, the folder, the trash directory, the tables and the
-- remote side.
pub record World (R : Type 0) : Type 0 where
  pub disk : Disk
  pub next_inode : ℕ
  pub local_trash : Disk
  pub rows : List Row
  pub meta : Meta
  pub conflict_log : List Conflict
  pub remote : R
  pub events : List Event
  pub result : Result
  pub local_before : List (Text × LocalNode)
  pub move_targets : List Text

-- The errors of a pass. `guard` is `ErrGuard`, with the name of the guard.
pub data Err : Type 0 where
  guard : Text → Err
  remote_failed : Err
  disk_failed : Err
  unresolved_parent : Err
  not_mirrored is_directory already_downloaded : Err
  out_of_fuel : Err

pub data Outcome (R A : Type 0) : Type 0 where
  done : A → World R → Outcome R A
  fail : Err → World R → Outcome R A

abbrev pub M : Type 0 → Type 0 → Type 0
M R A = World R → Outcome R A

infixl 5 ◌>>=◌ ◌>>◌
abbrev pub ◌>>=◌ : {R A B : Type 0} → M R A → (A → M R B) → M R B
◌>>=◌ m f w = elim (m w) [ done a w' ↦ f a w' | fail e w' ↦ fail e w' ]

abbrev pub ◌>>◌ : {R B : Type 0} → M R (Unit {0}) → M R B → M R B
◌>>◌ m k w = elim (m w) [ done a w' ↦ k w' | fail e w' ↦ fail e w' ]

-- The world that a call leaves, whether it succeeds or fails.
abbrev pub world_of : {R A : Type 0} → Outcome R A → World R
world_of (done a w) = w
world_of (fail e w) = w

abbrev pub count_warning : EventKind → Result → Result
count_warning event_warn r = record r { warnings = r.warnings + 1 }
count_warning _ r = r

module _ {R : Type 0} where
  abbrev pub pass : {A : Type 0} → A → M R A
  pass a w = done a w

  abbrev pub throw : {A : Type 0} → Err → M R A
  throw e w = fail e w

  -- `emit`
  unfoldable pub emit : EventKind → Text → ℕ → Bool → M R (Unit {0})
  emit kind path size up w = done tt (record w {
    result = count_warning kind w.result;
    events = w.events ++ (record { kind = kind; path = path; size = size; up = up } ∷ []);
  })

  -- `if err := …; err != nil { m.emit(EventWarn …) }`
  unfoldable pub or_warn : Text → M R (Unit {0}) → M R (Unit {0})
  unfolding emit
  or_warn path m w = elim (m w) [
    | done a w' ↦ done tt w'
    | fail e w' ↦ emit event_warn path 0 false w'
  ]

  abbrev pub tally : (Result → Result) → M R (Unit {0})
  tally f w = done tt (record w { result = f w.result })

  abbrev pub set_disk : Disk → M R (Unit {0})
  set_disk d w = done tt (record w { disk = d })

  abbrev pub set_rows : (List Row → List Row) → M R (Unit {0})
  set_rows f w = done tt (record w { rows = f w.rows })

  -- A loop whose body may fail, and stops the loop when it does.
  unfoldable pub for_each : {A : Type 0} → (A → M R (Unit {0})) → List A → M R (Unit {0})
  for_each body [] w = done tt w
  for_each body (x ∷ xs) w = elim (body x w) [
    | done a w' ↦ for_each body xs w'
    | fail e w' ↦ fail e w'
  ]

  -- A guard's verdict as an error.
  abbrev pub stop_if : Option Err → M R (Unit {0})
  stop_if none w = done tt w
  stop_if (some e) w = fail e w
