-- ===== src/Daemon/Machine/Settled.antt =====
-- What the end of a pass leaves of the daemon.
use p_drive.Base.{
  ℕ, Text, Bool, true, false, Option, none, some, if_elim, ltb, ◌≡◌, ◌≢◌, refl, ap, ◌∙◌, arith,
}
use p_drive.Mirror.World.{Result}
use p_drive.Daemon.{
  Daemon, State, state_idle, state_syncing, state_error, Outcome, not_opened, ended, publish,
  is_paused, settle, rescan_after, finish_sync, refresh_quota, quota_after, end_sync, within,
  quota_refresh_interval,
}
use p_drive.State.Activity.{Log, Conflict}

abbrev syncing_flag : State → Bool
syncing_flag state_syncing = true
syncing_flag _ = false

pub not_syncing : (s : State) → syncing_flag s ≡ false → s ≢ state_syncing
not_syncing s h e = ground (arith, ap syncing_flag e)

-- What a pass that ends leaves: a state that is idle or in error, and the rest of what matters here.
pub record IsSettled (d d' : Daemon) : Type 0 where
  pub wake : d'.wake ≡ d.wake
  pub sync_req : d'.sync_req ≡ d.sync_req
  pub cfg : d'.cfg ≡ d.cfg
  pub not_syncing : d'.state ≢ state_syncing
  pub not_paused : is_paused d'.state ≡ false

rescan_after-IsSettled :
    (res : Option Result) (err : Option Text) (d d' : Daemon)
    → IsSettled d d'
    → IsSettled d (rescan_after res err d')
rescan_after-IsSettled res (some e) d d' i = i
rescan_after-IsSettled none none d d' i = i
rescan_after-IsSettled (some r) none d d' i =
    if_elim (IsSettled d) (ltb 0 r.dirs) _ _
      (λ _.
        if_elim (IsSettled d) d'.gate_conn _ _
          (λ _. record {
            wake = i.wake;
            sync_req = i.sync_req;
            cfg = i.cfg;
            not_syncing = i.not_syncing;
            not_paused = i.not_paused;
          })
          (λ _. i))
      (λ _. i)

settle-IsSettled :
    (now : ℕ) (res : Option Result) (err : Option Text) (d : Daemon)
    → IsSettled d (settle now res err d)
settle-IsSettled now res (some e) d = record {
  wake = refl;
  sync_req = refl;
  cfg = refl;
  not_syncing = not_syncing state_error refl;
  not_paused = refl;
}
settle-IsSettled now none none d = record {
  wake = refl;
  sync_req = refl;
  cfg = refl;
  not_syncing = not_syncing state_idle refl;
  not_paused = refl;
}
settle-IsSettled now (some r) none d = record {
  wake = refl;
  sync_req = refl;
  cfg = refl;
  not_syncing = not_syncing state_idle refl;
  not_paused = refl;
}

finish_sync-IsSettled :
    (now : ℕ) (res : Option Result) (err : Option Text) (d : Daemon)
    → IsSettled d (finish_sync now res err d)
unfolding finish_sync publish
finish_sync-IsSettled now res err d =
    let i =
      rescan_after-IsSettled res err d (settle now res err d) (settle-IsSettled now res err d) in
    record {
      wake = i.wake;
      sync_req = i.sync_req;
      cfg = i.cfg;
      not_syncing = i.not_syncing;
      not_paused = i.not_paused;
    }

abbrev SameChannels : Daemon → Daemon → Type 0
SameChannels d d' = (d'.wake ≡ d.wake) × (d'.sync_req ≡ d.sync_req) × (d'.cfg ≡ d.cfg)

quota_after-SameChannels :
    (now : ℕ) (about : Option (ℕ × ℕ)) (err : Option Text) (d : Daemon)
    → SameChannels d (quota_after now about err d)
unfolding refresh_quota
quota_after-SameChannels now about (some e) d = (refl, refl, refl)
quota_after-SameChannels now none none d =
    if_elim (SameChannels d) (within now d.quota_fetched quota_refresh_interval) _ _
      (λ _. (refl, refl, refl)) (λ _. (refl, refl, refl))
quota_after-SameChannels now (some q) none d =
    if_elim (SameChannels d) (within now d.quota_fetched quota_refresh_interval) _ _
      (λ _. (refl, refl, refl)) (λ _. (refl, refl, refl))

pub end_sync-IsSettled :
    (now : ℕ) (about : Option (ℕ × ℕ)) (out : Outcome) (d : Daemon)
    → IsSettled d (end_sync now about out d)
unfolding end_sync
end_sync-IsSettled now about (not_opened e) d = finish_sync-IsSettled now none (some e) d
end_sync-IsSettled now about (ended res err) d =
    let polled = quota_after now about err (record d { last_poll = some now }) in
    let (w, q, c) = quota_after-SameChannels now about err (record d { last_poll = some now }) in
    let i =
      finish_sync-IsSettled now res err
        (record polled { log = p_drive.State.Activity.prune_activity polled.log }) in
    record {
      wake = i.wake ∙ w;
      sync_req = i.sync_req ∙ q;
      cfg = i.cfg ∙ c;
      not_syncing = i.not_syncing;
      not_paused = i.not_paused;
    }
