-- ===== src/Config/Laws.antt =====
-- The bounds of the settings (internal/config/config.go, Validate).
use p_drive.Base.{ℕ, ◌*◌, ◌≤◌, false, is_empty, ◌≡◌, arith}
use p_drive.State.Rows.{ℤ, pos, negsuc}
use p_drive.Config.{
  Config, millisecond, second, SyncConfig, at_least, between, validate, validate_sync,
}

abbrev pub IsAtLeast : ℕ → ℤ → Type 0
IsAtLeast n (pos m) = n ≤ m
IsAtLeast n (negsuc m) = ⊥

abbrev pub IsBetween : ℕ → ℕ → ℤ → Type 0
IsBetween low high (pos m) = (low ≤ m) × (m ≤ high)
IsBetween low high (negsuc m) = ⊥

-- Every number is within the bounds that the code that uses it relies on.
abbrev pub IsSafeConfig : Config → Type 0
IsSafeConfig c =
    (is_empty c.sync.root ≡ false)
    × IsBetween 1 100 c.sync.deletion_guard_percent
    × IsAtLeast 0 c.sync.trash_retention_days
    × IsAtLeast 0 c.sync.max_auto_download_size
    × IsBetween 1 3000 c.freshness.max_block_ms
    × IsAtLeast 1 c.freshness.fresh_window
    × IsAtLeast 1 c.freshness.idle_interval
    × IsAtLeast 1 c.freshness.active_interval
    × IsAtLeast 1 c.freshness.active_window
    × IsAtLeast 0 c.limits.upload_kbps
    × IsAtLeast 0 c.limits.download_kbps
    × IsAtLeast 1 c.limits.max_parallel_transfers

at_least-IsAtLeast :
    (low fallback : ℕ) (x : ℤ) → low ≤ fallback → IsAtLeast low (at_least low fallback x)
at_least-IsAtLeast low fallback (pos m) h = ground arith
at_least-IsAtLeast low fallback (negsuc m) h = h

pub between-IsBetween :
    (low high fallback : ℕ) (x : ℤ)
    → low ≤ fallback
    → fallback ≤ high
    → IsBetween low high (between low high fallback x)
between-IsBetween low high fallback (pos m) h k = ground arith
between-IsBetween low high fallback (negsuc m) h k = (h, k)

at_least-same : (low fallback : ℕ) (x : ℤ) → IsAtLeast low x → at_least low fallback x ≡ x
at_least-same low fallback (pos m) h = ground arith
at_least-same low fallback (negsuc m) h = absurd h

between-same :
    (low high fallback : ℕ) (x : ℤ) → IsBetween low high x → between low high fallback x ≡ x
between-same low high fallback (pos m) h = ground arith
between-same low high fallback (negsuc m) h = absurd h

root-present : (s : SyncConfig) → is_empty (validate_sync s).root ≡ false
root-present s = ground arith

-- Validation brings every setting within its bounds, whatever the file says.
pub validate-IsSafeConfig : (c : Config) → IsSafeConfig (validate c)
unfolding validate
validate-IsSafeConfig c = (
  root-present c.sync,
  between-IsBetween 1 100 25 c.sync.deletion_guard_percent (omega arith) (omega arith),
  at_least-IsAtLeast 0 30 c.sync.trash_retention_days (omega arith),
  at_least-IsAtLeast 0 0 c.sync.max_auto_download_size (omega arith),
  between-IsBetween 1 3000 2000 c.freshness.max_block_ms (omega arith) (omega arith),
  at_least-IsAtLeast 1 _ c.freshness.fresh_window (omega arith),
  at_least-IsAtLeast 1 _ c.freshness.idle_interval (omega arith),
  at_least-IsAtLeast 1 _ c.freshness.active_interval (omega arith),
  at_least-IsAtLeast 1 _ c.freshness.active_window (omega arith),
  at_least-IsAtLeast 0 0 c.limits.upload_kbps (omega arith),
  at_least-IsAtLeast 0 0 c.limits.download_kbps (omega arith),
  at_least-IsAtLeast 1 4 c.limits.max_parallel_transfers (omega arith),
)

validate_sync-same :
    (s : SyncConfig)
    → is_empty s.root ≡ false
    → IsBetween 1 100 s.deletion_guard_percent
    → IsAtLeast 0 s.trash_retention_days
    → IsAtLeast 0 s.max_auto_download_size
    → validate_sync s ≡ s
validate_sync-same s r g t m = ground (
  arith,
  between-same 1 100 25 s.deletion_guard_percent g,
  at_least-same 0 30 s.trash_retention_days t,
  at_least-same 0 0 s.max_auto_download_size m,
)

-- Settings that are within their bounds pass validation unchanged: it only replaces what is out of
-- bounds.
pub validate-same : (c : Config) → IsSafeConfig c → validate c ≡ c
unfolding validate
validate-same c (r, g, t, m, b, w, i, a, aw, u, d, p) = cc (
  validate_sync-same c.sync r g t m,
  between-same 1 3000 2000 c.freshness.max_block_ms b,
  at_least-same 1 (400 * millisecond) c.freshness.fresh_window w,
  at_least-same 1 (60 * second) c.freshness.idle_interval i,
  at_least-same 1 (5 * second) c.freshness.active_interval a,
  at_least-same 1 (5 * 60 * second) c.freshness.active_window aw,
  at_least-same 0 0 c.limits.upload_kbps u,
  at_least-same 0 0 c.limits.download_kbps d,
  at_least-same 1 4 c.limits.max_parallel_transfers p,
)
