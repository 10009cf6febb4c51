-- ===== src/Daemon/Machine/Quiet.antt =====
-- Pauses and the sync loop (internal/daemon/daemon.go, Pause, runSync and finishSync).
use p_drive.Base.{
  ℕ, List, [], ◌∷◌, ◌++◌, length-append, ◌∙◌, false, Option, none, some, length, All, All-append,
  if_elim, ltb, ◌≡◌, refl, sym, ap, subst, arith,
}
use p_drive.RateLimit.{Limiter, limited_for}
use p_drive.Config.{ConfigFile, load}
use p_drive.Daemon.{
  Daemon, state_paused, Trigger, SyncRequest, SyncParams, Outcome, offer, publish, trigger,
  is_manual, is_paused, pause, reload, is_skipped, end_sync, poll_turn, wake_size,
}
use p_drive.Daemon.Machine.{
  Phase, resting, checking, admitted, running, Loop, check_pass, Step, wakes, serves, checks,
  begins, ends, triggers, polls, pauses, asks, sends, gives_up, reloads, notifies,
}
use p_drive.Daemon.Machine.Settled.{end_sync-IsSettled}

-- The loop waits, or is about to check an automatic request.
abbrev pub IsWithoutPass : Phase → Type 0
IsWithoutPass resting = Unit
IsWithoutPass (checking req) = is_manual req.trigger ≡ false
IsWithoutPass (admitted req) = ⊥
IsWithoutPass (running req) = ⊥

-- Paused, with no pass running or let through, no client that was let through before the pause, no
-- request waiting, and nothing but automatic triggers.
pub record IsQuiet (s : Loop) : Type 0 where
  pub phase : IsWithoutPass s.phase
  pub paused : s.daemon.state ≡ state_paused
  pub asking : s.asking ≡ []
  pub requests : s.daemon.sync_req ≡ []
  pub triggers : All (λ t. is_manual t ≡ false) s.daemon.wake

offer-automatic :
    (t : Trigger) (queue : List Trigger)
    → is_manual t ≡ false
    → All (λ u. is_manual u ≡ false) queue
    → All (λ u. is_manual u ≡ false) (offer wake_size t queue)
offer-automatic t queue n h =
    if_elim (All (λ u. is_manual u ≡ false)) (ltb (length queue) wake_size) _ _
      (λ _. All-append _ queue (t ∷ []) h (n, tt)) (λ _. h)

-- A request that is not manual does not get through while the daemon is paused.
check_pass-IsWithoutPass :
    (now : ℕ) (l : Limiter) (req : SyncRequest) (d : Daemon)
    → is_manual req.trigger ≡ false
    → d.state ≡ state_paused
    → IsWithoutPass (check_pass now l req d)
check_pass-IsWithoutPass now l req d n p =
    if_elim IsWithoutPass (is_skipped now l req d) _ _ (λ _. tt)
      (λ f. absurd (ground (arith, ap is_paused p)))

-- What every operation that keeps the state and the requests, and adds no manual trigger, keeps.
keeps-IsQuiet :
    (d d' : Daemon) (r : Phase) (q : List SyncParams)
    → d'.state ≡ d.state
    → d'.sync_req ≡ d.sync_req
    → All (λ t. is_manual t ≡ false) d'.wake
    → IsQuiet (record { daemon = d; phase = r; asking = q })
    → IsQuiet (record { daemon = d'; phase = r; asking = q })
keeps-IsQuiet d d' r q s w t i = record {
  phase = i.phase;
  paused = s ∙ i.paused;
  asking = i.asking;
  requests = w ∙ i.requests;
  triggers = t;
}

poll_turn-IsQuiet :
    (now : ℕ) (l : Limiter) (d : Daemon) (r : Phase) (q : List SyncParams)
    → IsQuiet (record { daemon = d; phase = r; asking = q })
    → IsQuiet (record { daemon = (poll_turn now l d).0; phase = r; asking = q })
unfolding poll_turn
poll_turn-IsQuiet now l d r q i =
    if_elim (λ (x : Daemon × ℕ). IsQuiet (record { daemon = x.0; phase = r; asking = q }))
      (ltb 0 (limited_for now l)) _ _ (λ _. i)
      (λ _.
        if_elim (λ (x : Daemon × ℕ). IsQuiet (record { daemon = x.0; phase = r; asking = q }))
          (is_paused d.state) _ _ (λ _. i) (λ f. absurd (ground (arith, ap is_paused i.paused))))

-- Nothing is in an empty list.
none-in-nil :
    (before : List SyncParams) (p : SyncParams) (after q : List SyncParams)
    → q ≡ before ++ (p ∷ after)
    → q ≡ []
    → ⊥
none-in-nil before p after q e n =
    omega (arith, ap length e, ap length n, length-append before (p ∷ after))

reload-IsQuiet :
    (file : ConfigFile) (d : Daemon) (r : Phase) (q : List SyncParams)
    → IsQuiet (record { daemon = d; phase = r; asking = q })
    → IsQuiet (record { daemon = reload file d; phase = r; asking = q })
unfolding reload
reload-IsQuiet file d r q i =
    elim (load file)
      as (λ o. IsQuiet (record {
        daemon = elim o [
          | none ↦ d
          | some fresh ↦ record d {
            cfg = record fresh { sync = record fresh.sync { root = d.cfg.sync.root } };
          }
        ];
        phase = r;
        asking = q;
      })) [ none ↦ i | some fresh ↦ keeps-IsQuiet d _ r q refl refl i.triggers i ]

-- From a pause in which no pass runs or was let through, no client was let through before the pause,
-- no request waits and only automatic triggers are queued, whatever comes but a resume leaves the
-- daemon in such a pause, so that no pass starts.
pub step-IsQuiet : (s s' : Loop) → Step s s' → IsQuiet s → IsQuiet s'
unfolding trigger publish
step-IsQuiet _ _ (wakes {d} {q} t ts e) i = record {
  phase = (subst (All (λ u. is_manual u ≡ false)) e i.triggers).0;
  paused = i.paused;
  asking = i.asking;
  requests = i.requests;
  triggers = tt;
}
step-IsQuiet _ _ (serves {d} {q} req rest e) i = absurd (ground (arith, i.requests))
step-IsQuiet _ _ (checks {d} {q} now l req) i = record {
  phase = check_pass-IsWithoutPass now l req d i.phase i.paused;
  paused = i.paused;
  asking = i.asking;
  requests = i.requests;
  triggers = i.triggers;
}
step-IsQuiet _ _ (begins {d} {q} req) i = absurd (i.phase)
step-IsQuiet _ _ (ends {d} {q} now about out req) i = absurd (i.phase)
step-IsQuiet _ _ (triggers {d} {r} {q} t n) i =
    keeps-IsQuiet d _ r q refl refl (offer-automatic t d.wake n i.triggers) i
step-IsQuiet _ _ (polls {d} {r} {q} now l) i = poll_turn-IsQuiet now l d r q i
step-IsQuiet _ _ (pauses {d} {r} {q}) i = keeps-IsQuiet d _ r q (sym i.paused) refl i.triggers i
step-IsQuiet _ _ (asks {d} {r} {q} p n) i = absurd (ground (arith, ap is_paused i.paused))
step-IsQuiet _ _ (sends {d} {r} {q} before p after e f) i =
    absurd (none-in-nil before p after q e i.asking)
step-IsQuiet _ _ (gives_up {d} {r} {q} before p after e) i =
    absurd (none-in-nil before p after q e i.asking)
step-IsQuiet _ _ (reloads {d} {r} {q} file) i = reload-IsQuiet file d r q i
step-IsQuiet _ _ (notifies {d} {r} {q} n) i = keeps-IsQuiet d _ r q refl refl i.triggers i

-- A pause asked for while a pass runs does not outlast it: whatever the pass gives, the daemon is not
-- paused when it ends.
pub end_sync-pause :
    (now : ℕ) (about : Option (ℕ × ℕ)) (out : Outcome) (d : Daemon)
    → is_paused (end_sync now about out (pause d)).state ≡ false
end_sync-pause now about out d = (end_sync-IsSettled now about out (pause d)).not_paused
