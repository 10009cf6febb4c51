-- ===== src/Mirror/Guards/Laws.antt =====
-- When the guards stop a pass.
use p_drive.Base.{
  ℕ, ◌++◌, ◌*◌, ◌/◌, ◌≤◌, ◌<◌, Bool, true, false, none, some, List, [], ◌∷◌, ◌≡◌, ◌≢◌, ◌⊎◌, ◌↔◌,
  refl, arith, ltb, if◌then◌else◌,
}
use p_drive.State.Rows.{Row}
use p_drive.Paths.{scratch_dir}
use p_drive.Mirror.Disk.{Disk, File, file_at}
use p_drive.Mirror.World.{Settings}
use p_drive.Mirror.Guards.{
  root_dir, missing_root, check_root, min_deletions_for_guard, check_deletion_cliff, settings_after,
}

div_lt : (a t l : ℕ) → 0 < t → (a / t < l) ↔ (a < l * t)
div_lt a t l h = (λ p. grind arith, λ p. grind arith)

-- The deletion guard lets a pass go on exactly when it would delete fewer than ten nodes, or the
-- limit is 100 percent or more, or nothing is tracked, or the deletions, counted up to the number
-- of tracked nodes, are less than the limit's share of them. Deletions of exactly the limit's share
-- stop the pass.
pub check_deletion_cliff-none :
    (s : Settings) (tracked deletions counted : ℕ)
    → counted ≡ (if ltb tracked deletions then tracked else deletions)
    → (check_deletion_cliff s tracked deletions ≡ none) ↔ (
        (deletions < min_deletions_for_guard)
        ⊎ (100 ≤ s.deletion_guard_percent)
        ⊎ (tracked ≡ 0)
        ⊎ (counted * 100 < s.deletion_guard_percent * tracked))
unfolding check_deletion_cliff
check_deletion_cliff-none s tracked deletions counted e = (
  λ h. ground (arith, div_lt (counted * 100) tracked s.deletion_guard_percent),
  λ h. ground (arith, div_lt (counted * 100) tracked s.deletion_guard_percent),
)

settings_after_full :
    (s : Settings) (later : List Bool)
    → s.deletion_guard_percent ≡ 100
    → (settings_after later s).deletion_guard_percent ≡ 100
unfolding settings_after
settings_after_full s [] h = h
settings_after_full s (true ∷ later) h =
    settings_after_full (record s { deletion_guard_percent = 100 }) later refl
settings_after_full s (false ∷ later) h = settings_after_full s later h

settings_after_confirm :
    (s : Settings) (before later : List Bool)
    → (settings_after (before ++ (true ∷ later)) s).deletion_guard_percent ≡ 100
unfolding settings_after
settings_after_confirm s [] later =
    settings_after_full (record s { deletion_guard_percent = 100 }) later refl
settings_after_confirm s (b ∷ before) later = settings_after_confirm _ before later

-- Once a pass was run with confirmed deletions, the guard stops no later pass of the daemon either,
-- whatever that pass would delete, until the settings are loaded again.
pub settings_after-confirm :
    (s : Settings) (before later : List Bool) (tracked deletions : ℕ)
    → check_deletion_cliff (settings_after (before ++ (true ∷ later)) s) tracked deletions ≡ none
unfolding check_deletion_cliff
settings_after-confirm s before later tracked deletions =
    ground (arith, settings_after_confirm s before later)

-- The guard of the sync folder does not stop a pass once the scratch directory is there, which the
-- first download makes and nothing removes, even if it is all that is left of a tracked folder.
pub check_root-scratch_dir :
    (rows : List Row) (disk : Disk) (f : File)
    → file_at scratch_dir disk ≡ some f
    → check_root root_dir rows disk ≡ none
unfolding check_root file_at
check_root-scratch_dir rows [] f h = cc
check_root-scratch_dir rows (e ∷ disk) f h = ground arith

-- A readable folder stops a pass exactly when it is empty and the baseline is not.
pub check_root-missing :
    (rows : List Row) (disk : Disk)
    → (check_root root_dir rows disk ≡ some missing_root) ↔ ((disk ≡ []) × (rows ≢ []))
unfolding check_root
check_root-missing [] disk = (λ h. absurd (cc), λ h. absurd (h.1 refl))
check_root-missing (r ∷ rows) [] = (λ h. (refl, λ e. cc), λ h. ground arith)
check_root-missing (r ∷ rows) (e ∷ disk) = (λ h. absurd (ground arith), λ h. absurd (cc (h.0)))
