-- ===== src/Daemon/Machine/Races.antt =====
-- Passes that start while the daemon is paused (internal/daemon/daemon.go, Pause, Resume and runSync).
use p_drive.Base.{ℕ, List, true, false, ◌≡◌, refl, subst, if_elim, arith}
use p_drive.RateLimit.{Limiter}
use p_drive.Daemon.{
  Daemon, SyncRequest, SyncParams, is_paused, is_skipped, pause, begin_sync, publish,
}
use p_drive.Daemon.Machine.{
  checking, admitted, running, check_pass, Step, checks, begins, pauses, Steps, stop, go,
}

admitted-check :
    (now : ℕ) (l : Limiter) (req : SyncRequest) (d : Daemon)
    → is_skipped now l req d ≡ false
    → check_pass now l req d ≡ admitted req
admitted-check now l req d h =
    if_elim (λ r. r ≡ admitted req) (is_skipped now l req d) _ _ (λ t. absurd (ground arith))
      (λ _. refl)

-- A request that the guards let through is checked.
checked :
    (now : ℕ) (l : Limiter) (req : SyncRequest) (d : Daemon) (q : List SyncParams)
    → is_skipped now l req d ≡ false
    → Step
        (record { daemon = d; phase = checking req; asking = q })
        (record { daemon = d; phase = admitted req; asking = q })
checked now l req d q h =
    subst
      (λ r.
        Step (record { daemon = d; phase = checking req; asking = q })
          (record { daemon = d; phase = r; asking = q }))
      (admitted-check now l req d h) (checks now l req)

-- A pause that comes after the guards of a pass have let it through, and before the pass shows, is
-- lost: the loop gets, without a resume, from the check of the request to its pass, and the daemon that
-- was paused in between is not paused any more.
pub pause-is_lost :
    (now : ℕ) (l : Limiter) (req : SyncRequest) (d : Daemon) (q : List SyncParams)
    → is_skipped now l req d ≡ false
    → Steps
        (record { daemon = d; phase = checking req; asking = q })
        (record { daemon = begin_sync (pause d); phase = running req; asking = q })
      × (is_paused (pause d).state ≡ true)
      × (is_paused (begin_sync (pause d)).state ≡ false)
unfolding begin_sync publish
pause-is_lost now l req d q h =
    (go (checked now l req d q h) (go pauses (go (begins req) stop)), refl, refl)
