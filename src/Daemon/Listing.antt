-- ===== src/Daemon/Listing.antt =====
-- internal/daemon/gate.go: the daemon's side of the gate.
pub mod Laws
use p_drive.Base.{
  ℕ, ◌+◌, ◌-◌, ◌*◌, ◌/◌, ◌≤◌, ◌<◌, Text, codes, List, [], ◌∷◌, ◌++◌, Bool, true, false, not, ◌&&◌,
  ◌||◌, Option, none, some, is_empty, text_eq, has_prefix, rel_path, if◌then◌else◌, ltb,
}
use p_drive.State.Rows.{ℤ, pos, negsuc, second}
use p_drive.RateLimit.{Limiter, limited_for}
use p_drive.Config.{Config, sync_root}
use p_drive.Daemon.{Daemon, is_paused, fresh}

-- The delays of `ConnectGate` between sessions, of each of which it is said whether it was
-- established. The first delay is a second.
abbrev pub next_backoff : ℕ → ℕ
next_backoff backoff = if ltb backoff (30 * second) then backoff * 2 else backoff

unfoldable pub delays : ℕ → List Bool → List ℕ
delays backoff [] = []
delays backoff (connected ∷ sessions) =
    let wait = if connected then second else backoff in wait ∷ delays (next_backoff wait) sessions

-- `runGateSession`: the session begins, and ends.
abbrev pub connect_gate : Daemon → Daemon
connect_gate d = record d { gate_conn = true; gate = true }

abbrev pub disconnect_gate : Daemon → Daemon
disconnect_gate d = record d { gate_conn = false; gate = false }

-- `relativeTo`, below the expanded root
unfoldable pub relative_to : Text → Text → Option Text
unfolding rel_path text_eq has_prefix
relative_to root abs =
    if is_empty abs then none else if text_eq abs root then some [] else below (rel_path root abs)
  where
    below : Option Text → Option Text
    below none = none
    below (some rel) = if has_prefix rel (codes "..") then none else some rel

-- The budget of a refresh, in nanoseconds
abbrev pub refresh_budget : ℤ → ℕ
refresh_budget (negsuc ms) = 0
refresh_budget (pos ms) = ms * 1000000 - ms * 1000000 / 10

-- What a held listing asks for.
pub data Refresh : Type 0 where
  not_needed wait_for_other : Refresh
  refresh_dir : Text → ℕ → Refresh
  sync_all : ℕ → Refresh

-- The part of `refreshForListing` up to the pass of the engine
unfoldable pub begin_refresh : ℕ → Limiter → Text → Text → Daemon → Daemon × Refresh
unfolding relative_to limited_for
begin_refresh now l root opened d =
    if is_paused d.state
    then (d, not_needed)
    else if ltb 0 (limited_for now l)
    then (d, not_needed)
    else if fresh now d
    then (d, not_needed)
    else if d.listing_run
    then (d, wait_for_other)
    else (
      record d { listing_run = true },
      elim (relative_to root opened) [
        | none ↦ sync_all (refresh_budget d.cfg.freshness.max_block_ms)
        | some rel ↦ refresh_dir rel (refresh_budget d.cfg.freshness.max_block_ms)
      ],
    )

-- The part after it; `ok` says that the refresh had no error.
abbrev pub end_refresh : ℕ → Bool → Daemon → Daemon
end_refresh now ok d =
    if ok
    then record d { listing_run = false; last_poll = some now }
    else record d { listing_run = false }
