-- ===== src/Daemon/Machine/Safe.antt =====
-- The invariant of the sync loop.
use p_drive.Base.{
  ℕ, ◌≤◌, Text, List, [], ◌∷◌, ◌++◌, Bool, true, false, none, some, length, length-append,
  if◌then◌else◌, if_elim, ltb, ◌≡◌, ◌≢◌, refl, sym, ap, ◌∙◌, subst, arith,
}
use p_drive.RateLimit.{Limiter, limited_for}
use p_drive.Config.{Config, ConfigFile, load}
use p_drive.Daemon.{
  Daemon, State, state_idle, state_syncing, state_paused, Trigger, trigger_manual, trigger_poll,
  SyncRequest, SyncParams, offer, publish, trigger, is_paused, pause, resume, reload, begin_sync,
  poll_turn, manual_request, wake_size, requests_size,
}
use p_drive.State.Activity.{Log, Conflict}
use p_drive.Daemon.Machine.{
  Phase, checking, admitted, running, Loop, check_pass, send_request, Step, wakes, serves, checks,
  begins, ends, triggers, polls, pauses, asks, sends, gives_up, reloads, notifies, Reachable, start,
  next, resumes,
}
use p_drive.Daemon.Machine.Settled.{not_syncing, end_sync-IsSettled}

abbrev pub is_running : Phase → Bool
is_running (running req) = true
is_running _ = false

-- The channels hold no more than they can, the root is the one that the daemon started with, and
-- only a pass that runs shows as syncing.
pub record IsSafe (root : Text) (s : Loop) : Type 0 where
  pub wake : length s.daemon.wake ≤ wake_size
  pub sync_req : length s.daemon.sync_req ≤ requests_size
  pub same_root : s.daemon.cfg.sync.root ≡ root
  pub syncing : is_running s.phase ≡ false → s.daemon.state ≢ state_syncing

offer-bound :
    {A : Type 0} (size : ℕ) (x : A) (queue : List A)
    → length queue ≤ size
    → length (offer size x queue) ≤ size
offer-bound size x queue h = ground (arith, length-append queue (x ∷ []))

module _ (root : Text) where
  -- What every operation that keeps the channels, the root and the state keeps.
  keeps-IsSafe :
      (d d' : Daemon) (r : Phase) (q : List SyncParams)
      → d'.wake ≡ d.wake
      → d'.sync_req ≡ d.sync_req
      → d'.cfg.sync.root ≡ d.cfg.sync.root
      → (d'.state ≡ state_syncing → d.state ≡ state_syncing)
      → IsSafe root (record { daemon = d; phase = r; asking = q })
      → IsSafe root (record { daemon = d'; phase = r; asking = q })
  keeps-IsSafe d d' r q w sr c k i = record {
    wake = subst (λ x. length x ≤ wake_size) (sym w) i.wake;
    sync_req = subst (λ x. length x ≤ requests_size) (sym sr) i.sync_req;
    same_root = c ∙ i.same_root;
    syncing = λ n e. i.syncing n (k e);
  }

  trigger-IsSafe :
      (t : Trigger) (d : Daemon) (r : Phase) (q : List SyncParams)
      → IsSafe root (record { daemon = d; phase = r; asking = q })
      → IsSafe root (record { daemon = trigger t d; phase = r; asking = q })
  unfolding trigger
  trigger-IsSafe t d r q i = record {
    wake = offer-bound wake_size t d.wake i.wake;
    sync_req = i.sync_req;
    same_root = i.same_root;
    syncing = i.syncing;
  }

  poll_turn-IsSafe :
      (now : ℕ) (l : Limiter) (d : Daemon) (r : Phase) (q : List SyncParams)
      → IsSafe root (record { daemon = d; phase = r; asking = q })
      → IsSafe root (record { daemon = (poll_turn now l d).0; phase = r; asking = q })
  unfolding poll_turn
  poll_turn-IsSafe now l d r q i =
      if_elim (λ (x : Daemon × ℕ). IsSafe root (record { daemon = x.0; phase = r; asking = q }))
        (ltb 0 (limited_for now l)) _ _ (λ _. i)
        (λ _.
          if_elim (λ (x : Daemon × ℕ). IsSafe root (record { daemon = x.0; phase = r; asking = q }))
            (is_paused d.state) _ _ (λ _. i) (λ _. trigger-IsSafe trigger_poll d r q i))

  begin_sync-IsSafe :
      (d : Daemon) (req : SyncRequest) (r : Phase) (q : List SyncParams)
      → IsSafe root (record { daemon = d; phase = r; asking = q })
      → IsSafe root (record { daemon = begin_sync d; phase = running req; asking = q })
  unfolding begin_sync publish
  begin_sync-IsSafe d req r q i = record {
    wake = i.wake;
    sync_req = i.sync_req;
    same_root = i.same_root;
    syncing = λ n. absurd (ground arith);
  }

  -- The state stays as it is where no pass begins or ends.
  moves-IsSafe :
      (d : Daemon) (r r' : Phase) (q q' : List SyncParams)
      → is_running r ≡ false
      → IsSafe root (record { daemon = d; phase = r; asking = q })
      → IsSafe root (record { daemon = d; phase = r'; asking = q' })
  moves-IsSafe d r r' q q' n i = record {
    wake = i.wake;
    sync_req = i.sync_req;
    same_root = i.same_root;
    syncing = λ _. i.syncing n;
  }

  send_request-IsSafe :
      (p : SyncParams) (d : Daemon) (r : Phase) (q q' : List SyncParams)
      → ltb (length d.sync_req) requests_size ≡ true
      → IsSafe root (record { daemon = d; phase = r; asking = q })
      → IsSafe root (record { daemon = send_request p d; phase = r; asking = q' })
  send_request-IsSafe p d r q q' f i = record {
    wake = i.wake;
    sync_req = ground (arith, length-append d.sync_req (manual_request p ∷ []));
    same_root = i.same_root;
    syncing = i.syncing;
  }

  reload-IsSafe :
      (file : ConfigFile) (d : Daemon) (r : Phase) (q : List SyncParams)
      → IsSafe root (record { daemon = d; phase = r; asking = q })
      → IsSafe root (record { daemon = reload file d; phase = r; asking = q })
  unfolding reload
  reload-IsSafe file d r q i =
      elim (load file)
        as (λ o. IsSafe root (record {
          daemon = elim o [
            | none ↦ d
            | some fresh ↦ record d {
              cfg = record fresh { sync = record fresh.sync { root = d.cfg.sync.root } };
            }
          ];
          phase = r;
          asking = q;
        })) [ none ↦ i | some fresh ↦ keeps-IsSafe d _ r q refl refl refl (λ e. e) i ]

step-IsSafe : (root : Text) (s s' : Loop) → Step s s' → IsSafe root s → IsSafe root s'
unfolding publish
step-IsSafe root _ _ (wakes {d} {q} t ts e) i = record {
  wake = omega arith;
  sync_req = i.sync_req;
  same_root = i.same_root;
  syncing = λ _. i.syncing refl;
}
step-IsSafe root _ _ (serves {d} {q} req rest e) i =
    let bound = i.sync_req in
    record {
      wake = i.wake;
      sync_req = ground (arith, ap length e);
      same_root = i.same_root;
      syncing = λ _. i.syncing refl;
    }
step-IsSafe root _ _ (checks {d} {q} now l req) i =
    moves-IsSafe root d (checking req) (check_pass now l req d) q q refl i
step-IsSafe root _ _ (begins {d} {q} req) i = begin_sync-IsSafe root d req (admitted req) q i
step-IsSafe root _ _ (ends {d} {q} now about out req) i =
    let k = end_sync-IsSettled now about out d in
    record {
      wake = subst (λ x. length x ≤ wake_size) (sym k.wake) i.wake;
      sync_req = subst (λ x. length x ≤ requests_size) (sym k.sync_req) i.sync_req;
      same_root = ap (λ (c : Config). c.sync.root) k.cfg ∙ i.same_root;
      syncing = λ _. k.not_syncing;
    }
step-IsSafe root _ _ (triggers {d} {r} {q} t n) i = trigger-IsSafe root t d r q i
step-IsSafe root _ _ (polls {d} {r} {q} now l) i = poll_turn-IsSafe root now l d r q i
step-IsSafe root _ _ (pauses {d} {r} {q}) i =
    keeps-IsSafe root d (pause d) r q refl refl refl (λ e. absurd (not_syncing state_paused refl e))
      i
step-IsSafe root _ _ (asks {d} {r} {q} p n) i = record {
  wake = i.wake;
  sync_req = i.sync_req;
  same_root = i.same_root;
  syncing = i.syncing;
}
step-IsSafe root _ _ (sends {d} {r} {q} before p after e f) i =
    send_request-IsSafe root p d r q (before ++ after) f i
step-IsSafe root _ _ (gives_up {d} {r} {q} before p after e) i = record {
  wake = i.wake;
  sync_req = i.sync_req;
  same_root = i.same_root;
  syncing = i.syncing;
}
step-IsSafe root _ _ (reloads {d} {r} {q} file) i = reload-IsSafe root file d r q i
step-IsSafe root _ _ (notifies {d} {r} {q} n) i =
    keeps-IsSafe root d (publish n d) r q refl refl refl (λ e. e) i

resume-IsSafe :
    (root : Text) (d : Daemon) (r : Phase) (q : List SyncParams)
    → IsSafe root (record { daemon = d; phase = r; asking = q })
    → IsSafe root (record { daemon = resume d; phase = r; asking = q })
unfolding resume
resume-IsSafe root d r q i = trigger-IsSafe root trigger_manual _ r q (
    keeps-IsSafe root d (record d { state = if is_paused d.state then state_idle else d.state }) r q
      refl refl refl
      (if_elim (λ (x : State). x ≡ state_syncing → d.state ≡ state_syncing) (is_paused d.state) _ _
        (λ _ e. absurd (not_syncing state_idle refl e)) (λ _ e. e))
      i)

-- In every state that the daemon reaches the triggers and the requests that wait are within the sizes
-- of their channels, the sync root is the one that it started with, whatever configuration was
-- reloaded, and it shows as syncing only while a pass runs.
pub Reachable-IsSafe :
    (cfg : Config) (log : Log) (rows : List Conflict) (s : Loop)
    → Reachable cfg log rows s
    → IsSafe cfg.sync.root s
Reachable-IsSafe cfg log rows _ start = record {
  wake = omega arith;
  sync_req = omega arith;
  same_root = refl;
  syncing = λ _. not_syncing state_idle refl;
}
Reachable-IsSafe cfg log rows s' (next {s = s} r t) =
    step-IsSafe cfg.sync.root s s' t (Reachable-IsSafe cfg log rows s r)
Reachable-IsSafe cfg log rows _ (resumes {d} {r} {q} h) =
    resume-IsSafe cfg.sync.root d r q (Reachable-IsSafe cfg log rows _ h)
