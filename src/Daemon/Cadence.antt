-- ===== src/Daemon/Cadence.antt =====
-- How often the daemon polls.
use p_drive.Base.{ℕ, List, [], ◌∷◌, false, none, some, ◌≡◌}
use p_drive.Config.{Config}
use p_drive.Daemon.{Daemon, Outcome, not_opened, ended, changed, end_sync}

-- A pass that moved nothing.
abbrev pub IsIdlePass : Outcome → Type 0
IsIdlePass (not_opened e) = Unit
IsIdlePass (ended none err) = Unit
IsIdlePass (ended (some r) err) = changed r ≡ false

-- Passes one after the other, each at its time.
unfoldable pub end_syncs : List (ℕ × Outcome) → Daemon → Daemon
unfolding end_sync
end_syncs [] d = d
end_syncs ((now, out) ∷ passes) d = end_syncs passes (end_sync now none out d)

abbrev SameActivity : Daemon → Daemon → Type 0
SameActivity d d' = (d'.last_change ≡ d.last_change) × (d'.cfg ≡ d.cfg)
