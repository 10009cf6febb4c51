-- ===== src/Tui/Settings.antt =====
-- internal/tui/settings.go: the settings screen, over the settings that it shares with the program and
-- those that config.toml holds; moveSyncRoot of app.go, by what it leaves of them.
use p_drive.Base.{
  ℕ, zero, suc, ◌+◌, ◌*◌, ◌^◌, Text, List, [], ◌∷◌, Bool, true, false, not, Option, none, some,
  is_empty, length, trim_left, trim_right, if◌then◌else◌, ltb, ◌==◌, ◌≡◌, arith,
}
use p_drive.State.Rows.{ℤ, pos, negsuc}
use p_drive.Config.{Config, expand_path, sync_root, validate}
use p_drive.Config.Laws.{IsSafeConfig, validate-IsSafeConfig}
use p_drive.Config.Migrate.{Found, MoveError, validate_sync_root}

abbrev pub same_int : ℤ → ℤ → Bool
same_int (pos m) (pos n) = m == n
same_int (negsuc m) (negsuc n) = m == n
same_int (pos m) (negsuc n) = false
same_int (negsuc m) (pos n) = false

-- The step behind the current one, or the first; `first` is where the steps begin.
unfoldable pub step_after : ℤ → ℤ → List ℤ → Option ℤ
step_after first current [] = none
step_after first current (s ∷ []) = if same_int s current then some first else none
step_after first current (s ∷ t ∷ steps) =
    let rest = step_after first current (t ∷ steps) in if same_int s current then some t else rest

abbrev pub or_first : ℤ → Option ℤ → ℤ
or_first first none = first
or_first first (some s) = s

-- `nextInt` and `nextInt64`, for steps that begin with the first
abbrev pub next_int : ℤ → List ℤ → ℤ → ℤ
next_int first steps current = or_first first (step_after first current (first ∷ steps))

abbrev mebibyte : ℕ
mebibyte = 2 ^ 20

-- The functions `cycle` of `settingRows`
abbrev pub cycle_size_cap : Config → Config
cycle_size_cap c = record c {
  sync = record c.sync {
    max_auto_download_size =
        next_int (pos 0)
          (pos (100 * mebibyte)
            ∷ pos (512 * mebibyte)
            ∷ pos (1024 * mebibyte)
            ∷ pos (5120 * mebibyte)
            ∷ pos (20480 * mebibyte)
            ∷ [])
          c.sync.max_auto_download_size;
  };
}

abbrev pub cycle_guard : Config → Config
cycle_guard c = record c {
  sync = record c.sync {
    deletion_guard_percent =
        next_int (pos 10) (pos 25 ∷ pos 50 ∷ pos 75 ∷ pos 100 ∷ []) c.sync.deletion_guard_percent;
  };
}

abbrev pub cycle_retention : Config → Config
cycle_retention c = record c {
  sync = record c.sync {
    trash_retention_days =
        next_int (pos 7) (pos 30 ∷ pos 90 ∷ pos 365 ∷ []) c.sync.trash_retention_days;
  };
}

abbrev pub cycle_gate : Config → Config
cycle_gate c = record c { freshness = record c.freshness { gate = not c.freshness.gate } }

abbrev pub cycle_hold : Config → Config
cycle_hold c = record c {
  freshness = record c.freshness {
    max_block_ms =
        next_int (pos 500) (pos 1000 ∷ pos 2000 ∷ pos 3000 ∷ []) c.freshness.max_block_ms;
  };
}

abbrev speeds : List ℤ
speeds = pos 256 ∷ pos 1024 ∷ pos 4096 ∷ pos 16384 ∷ []

abbrev pub cycle_upload : Config → Config
cycle_upload c = record c {
  limits = record c.limits { upload_kbps = next_int (pos 0) speeds c.limits.upload_kbps };
}

abbrev pub cycle_download : Config → Config
cycle_download c = record c {
  limits = record c.limits { download_kbps = next_int (pos 0) speeds c.limits.download_kbps };
}

abbrev pub cycle_jobs : Config → Config
cycle_jobs c = record c {
  limits = record c.limits {
    max_parallel_transfers =
        next_int (pos 1) (pos 2 ∷ pos 4 ∷ pos 8 ∷ []) c.limits.max_parallel_transfers;
  };
}

-- `settingRows`
abbrev pub setting_rows : List (Config → Config)
setting_rows =
    cycle_size_cap ∷ cycle_guard ∷ cycle_retention ∷ cycle_gate ∷ cycle_hold ∷ cycle_upload
    ∷ cycle_download ∷ cycle_jobs ∷ []

-- The selected row: the folder, `rootRow`, or one of the others.
pub data Cursor : Type 0 where
  on_root : Cursor
  on_row : ℕ → Cursor

-- `SettingsModel`, without its message and its sizes, and what config.toml holds
pub record Settings : Type 0 where
  pub cfg : Config
  pub saved : Config
  pub cursor : Cursor
  pub dirty : Bool
  pub editing_root : Bool
  pub root_input : Text
  pub confirming : Bool
  pub pending_root : Text

-- `BeginEditRoot`
abbrev pub begin_edit_root : Settings → Settings
begin_edit_root m = record m { editing_root = true; root_input = m.cfg.sync.root }

-- `CancelEditRoot`
abbrev pub cancel_edit_root : Settings → Settings
cancel_edit_root m = record m { editing_root = false; confirming = false; pending_root = [] }

-- `strings.TrimSpace`, of blanks
abbrev trimmed : Text → Text
trimmed s = trim_right 32 (trim_left 32 s)

abbrev pub judged : Text → Settings → Option MoveError → Settings
judged candidate m (some e) = m
judged candidate m none = record m {
  editing_root = false;
  confirming = true;
  pending_root = candidate;
}

-- `SubmitRoot`, over the home directory and what is at a path
unfoldable pub submit_root : Option Text → (Text → Found) → Settings → Settings
unfolding validate_sync_root expand_path
submit_root home found m =
    let candidate = trimmed m.root_input in
    let target = expand_path home candidate in
    if is_empty candidate
    then cancel_edit_root m
    else judged candidate m (validate_sync_root home (found target) (sync_root home m.cfg) target)

abbrev pub with_root : Text → Config → Config
with_root root c = if is_empty root then c else record c { sync = record c.sync { root = root } }

-- `ConfirmRoot`
unfoldable pub confirm_root : Settings → Settings
confirm_root m = record m {
  confirming = false;
  pending_root = [];
  cfg = with_root m.pending_root m.cfg;
}

-- `MoveCursor`, one up or one down
abbrev pub move_up : Cursor → Cursor
move_up on_root = on_root
move_up (on_row zero) = on_root
move_up (on_row (suc n)) = on_row n

abbrev pub move_down : Cursor → Cursor
move_down on_root = on_row 0
move_down (on_row n) = if ltb (n + 1) (length setting_rows) then on_row (n + 1) else on_row n

abbrev pub cycle_row : ℕ → List (Config → Config) → Option (Config → Config)
cycle_row n [] = none
cycle_row zero (f ∷ rows) = some f
cycle_row (suc n) (f ∷ rows) = cycle_row n rows

abbrev pub cycle_with : Option (Config → Config) → Settings → Settings
cycle_with none m = m
cycle_with (some f) m = record m { cfg = validate (f m.cfg); dirty = true }

abbrev pub cycle_at : Cursor → Settings → Settings
cycle_at on_root m = m
cycle_at (on_row n) m = cycle_with (cycle_row n setting_rows) m

-- `Cycle`
unfoldable pub cycle : Settings → Settings
unfolding validate step_after
cycle m = cycle_at m.cursor m

-- `Save`; `ok` says that writing succeeded.
unfoldable pub save : Bool → Settings → Settings
save ok m = if ok then record m { saved = m.cfg; dirty = false } else m

-- How the move ends: an error of systemctl or of `MigrateSyncRoot`, one of saving the settings, or none.
pub data MoveEnd : Type 0 where
  not_moved : MoveEnd
  moved_unsaved : MoveEnd
  moved : MoveEnd

abbrev moved_root : Text → Config → Config
moved_root root c = validate (record c { sync = record c.sync { root = root } })

-- What `moveSyncRoot` leaves of the settings
unfoldable pub move_sync_root : MoveEnd → Text → Settings → Settings
unfolding validate
move_sync_root not_moved root m = m
move_sync_root moved_unsaved root m = record m { cfg = moved_root root m.cfg }
move_sync_root moved root m = record m {
  cfg = moved_root root m.cfg;
  saved = moved_root root m.cfg;
}

-- A failed move is not undone: once the user confirmed it, the settings name the new folder although
-- nothing was moved there, and the next save of any other setting writes that to config.toml.
pub save-confirm_root :
    (m : Settings)
    → is_empty m.pending_root ≡ false
    → (save true (move_sync_root not_moved m.pending_root (confirm_root m))).saved.sync.root
      ≡ m.pending_root
unfolding save move_sync_root confirm_root
save-confirm_root m h = ground arith

-- Whatever row is cycled, the settings stay within their bounds.
pub cycle-IsSafeConfig : (m : Settings) → IsSafeConfig m.cfg → IsSafeConfig (cycle m).cfg
unfolding cycle
cycle-IsSafeConfig m h = at m.cursor
  where
    at_with : (o : Option (Config → Config)) → IsSafeConfig (cycle_with o m).cfg
    at_with none = h
    at_with (some f) = validate-IsSafeConfig (f m.cfg)

    at : (c : Cursor) → IsSafeConfig (cycle_at c m).cfg
    at on_root = h
    at (on_row n) = at_with (cycle_row n setting_rows)
