-- ===== src/Mirror/Guards.antt =====
-- internal/mirror/guards.go, and what `New` (mirror.go) does to the settings that it is given.
pub mod Laws
use p_drive.Base.{
  ℕ, ◌*◌, ◌/◌, codes, Text, Bool, true, false, Option, none, some, List, [], ◌∷◌, is_empty, ltb,
  leb, ◌==◌, ◌||◌, if◌then◌else◌,
}
use p_drive.State.Rows.{Materialization, materialized, not_materialized, Row}
use p_drive.State.Nodes.{count_nodes}
use p_drive.Mirror.Disk.{Disk}
use p_drive.Mirror.World.{Settings, Err, guard}

-- What `os.Stat` and `os.ReadDir` say of the sync folder.
pub data RootState : Type 0 where
  root_missing root_unknown root_no_dir root_unreadable root_dir : RootState

abbrev pub missing_root : Err
missing_root = guard (codes "missing-root")

abbrev pub deletion_cliff : Err
deletion_cliff = guard (codes "deletion-cliff")

-- The second half of `checkRoot`, behind the count of the baseline.
abbrev pub check_entries : RootState → ℕ → Disk → Option Err
check_entries root tracked disk = if tracked == 0 then none else elim root [
  | root_unreadable ↦ some missing_root
  | _ ↦ if is_empty disk then some missing_root else none
]

-- `checkRoot`: `none` lets the pass go on.
unfoldable pub check_root : RootState → List Row → Disk → Option Err
unfolding count_nodes
check_root root_missing rows disk = some missing_root
check_root root_unknown rows disk = some missing_root
check_root root_no_dir rows disk = some missing_root
check_root root_unreadable rows disk = check_entries root_unreadable (count_nodes rows) disk
check_root root_dir rows disk = check_entries root_dir (count_nodes rows) disk

-- `minDeletionsForGuard`
abbrev pub min_deletions_for_guard : ℕ
min_deletions_for_guard = 10

-- `checkDeletionCliff`, over the count of the baseline
unfoldable pub check_deletion_cliff : Settings → ℕ → ℕ → Option Err
check_deletion_cliff settings tracked deletions =
    let limit = settings.deletion_guard_percent in
    if ltb deletions min_deletions_for_guard
    then none
    else if leb 100 limit
    then none
    else if tracked == 0
    then none
    else let counted = if ltb tracked deletions then tracked else deletions in
      if ltb (counted * 100 / tracked) limit then none else some deletion_cliff

-- `materializedFor`; a size of 0 in the settings means no limit.
unfoldable pub materialized_for : Settings → ℕ → Materialization
materialized_for settings size =
    let max_auto = settings.max_auto_download_size in
    if max_auto == 0 || leb size max_auto then materialized else not_materialized

-- `New` is given a pointer to the settings of its caller, and writes through it.
unfoldable pub confirm_settings : Bool → Settings → Settings
confirm_settings confirm_deletions settings =
    if confirm_deletions then record settings { deletion_guard_percent = 100 } else settings

-- The settings that the daemon holds after passes with these options, none of them reloading them:
-- `runSync` hands every pass the same pointer.
unfoldable pub settings_after : List Bool → Settings → Settings
unfolding confirm_settings
settings_after [] settings = settings
settings_after (confirm ∷ passes) settings =
    settings_after passes (confirm_settings confirm settings)
