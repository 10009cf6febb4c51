-- ===== src/Daemon/Feed/Laws.antt =====
-- What the feed shows of transfers, and of preserved copies.
use p_drive.Base.{
  ℕ, Text, List, [], ◌∷◌, Bool, true, false, Option, none, some, keep, text_eq, text_eq_refl,
  text_eq_iff, if_elim, ◌≡◌, refl, sym, ap, ◌∙◌, subst, arith, All, Bool-cases, inl, inr,
}
use p_drive.State.Activity.{Conflict, conflicts, delete_conflict}
use p_drive.Mirror.World.{
  EventKind, Event, event_dir, event_download, event_stub, event_skip, event_delete, event_warn,
  event_upload, event_mkdir_remote, event_move, event_trash_remote, event_conflict,
  event_transfer_start, event_transfer_progress, event_transfer_done,
}
use p_drive.Daemon.{Daemon, TransferData, publish}
use p_drive.Daemon.Feed.{
  activity_kind, worth_recording, transfer_key, Transfers, transfer_at, drop_transfer, put_transfer,
  advance, remember, on_mirror_event, list_conflicts, present_conflicts,
}

transfer_at-drop_transfer :
    (key other : Text) (ts : Transfers)
    → text_eq key other ≡ false
    → transfer_at other (drop_transfer key ts) ≡ transfer_at other ts
unfolding transfer_at drop_transfer
transfer_at-drop_transfer key other [] n = refl
transfer_at-drop_transfer key other ((k, t) ∷ ts) n = ground (
  arith,
  transfer_at-drop_transfer key other ts n,
  text_eq_iff k key,
  text_eq_iff k other,
  text_eq_refl other,
  text_eq_iff key other,
)

drop_transfer-gone : (key : Text) (ts : Transfers) → transfer_at key (drop_transfer key ts) ≡ none
unfolding transfer_at drop_transfer
drop_transfer-gone key [] = refl
drop_transfer-gone key ((k, t) ∷ ts) = ground (arith, drop_transfer-gone key ts)

-- One event after the other.
unfoldable pub on_mirror_events : ℕ → List (ℕ × Event) → Daemon → Daemon
unfolding on_mirror_event
on_mirror_events now [] d = d
on_mirror_events now ((done, ev) ∷ evs) d = on_mirror_events now evs (on_mirror_event now done ev d)

-- An event that starts the transfer of the key.
abbrev pub starts : Text → Event → Bool
starts key ev = elim ev.kind [
  | event_transfer_start ↦ text_eq (transfer_key ev.up ev.path) key
  | _ ↦ false
]

put-stays :
    (k key : Text) (t : TransferData) (ts : Transfers)
    → text_eq k key ≡ false
    → transfer_at key ts ≡ none
    → transfer_at key (put_transfer k t ts) ≡ none
unfolding transfer_at
put-stays k key t ts n h = ground (arith, transfer_at-drop_transfer k key ts n)

drop-stays :
    (k key : Text) (ts : Transfers)
    → transfer_at key ts ≡ none
    → transfer_at key (drop_transfer k ts) ≡ none
drop-stays k key ts h =
    elim (Bool-cases (text_eq k key)) as (λ _. transfer_at key (drop_transfer k ts) ≡ none) [
      | inl e ↦
          subst (λ x. transfer_at x (drop_transfer k ts) ≡ none) ((text_eq_iff k key).0 e)
            (drop_transfer-gone k ts)
      | inr n ↦ transfer_at-drop_transfer k key ts n ∙ h
    ]

advance-stays :
    (key : Text) (done : ℕ) (ev : Event) (d : Daemon) (o : Option TransferData)
    → transfer_at (transfer_key ev.up ev.path) d.transfers ≡ o
    → transfer_at key d.transfers ≡ none
    → transfer_at key (advance done ev d o).transfers ≡ none
unfolding publish
advance-stays key done ev d none e h = h
advance-stays key done ev d (some t) e h =
    put-stays (transfer_key ev.up ev.path) key _ d.transfers
      (elim (Bool-cases (text_eq (transfer_key ev.up ev.path) key))
        as (λ _. text_eq (transfer_key ev.up ev.path) key ≡ false) [
          | inl same ↦ absurd (
              ground (
                arith,
                sym e ∙ ap (λ k. transfer_at k d.transfers) ((text_eq_iff _ key).0 same) ∙ h,
              ))
          | inr n ↦ n
        ])
      h

remember-stays : (now : ℕ) (ev : Event) (d : Daemon) → (remember now ev d).transfers ≡ d.transfers
unfolding publish
remember-stays now ev d =
    if_elim (λ (x : Daemon). x.transfers ≡ d.transfers) (worth_recording (activity_kind ev.kind)) _
      _ (λ _. refl) (λ _. refl)

event-stays :
    (key : Text) (now done : ℕ) (ev : Event) (d : Daemon)
    → starts key ev ≡ false
    → transfer_at key d.transfers ≡ none
    → transfer_at key (on_mirror_event now done ev d).transfers ≡ none
unfolding on_mirror_event publish
event-stays key now done ev d n h = on ev.kind n
  where
    on :
        (kind : EventKind)
        → starts key (record ev { kind = kind }) ≡ false
        → transfer_at key (on_mirror_event now done (record ev { kind = kind }) d).transfers ≡ none
    on event_transfer_start k = put-stays (transfer_key ev.up ev.path) key _ d.transfers k h
    on event_transfer_progress k = advance-stays key done ev d _ refl h
    on event_transfer_done k = drop-stays (transfer_key ev.up ev.path) key d.transfers h
    on event_dir _ =
        ap (transfer_at key) (remember-stays now (record ev { kind = event_dir }) d) ∙ h
    on event_download _ =
        ap (transfer_at key) (remember-stays now (record ev { kind = event_download }) d) ∙ h
    on event_stub _ =
        ap (transfer_at key) (remember-stays now (record ev { kind = event_stub }) d) ∙ h
    on event_skip _ =
        ap (transfer_at key) (remember-stays now (record ev { kind = event_skip }) d) ∙ h
    on event_delete _ =
        ap (transfer_at key) (remember-stays now (record ev { kind = event_delete }) d) ∙ h
    on event_warn _ =
        ap (transfer_at key) (remember-stays now (record ev { kind = event_warn }) d) ∙ h
    on event_upload _ =
        ap (transfer_at key) (remember-stays now (record ev { kind = event_upload }) d) ∙ h
    on event_mkdir_remote _ =
        ap (transfer_at key) (remember-stays now (record ev { kind = event_mkdir_remote }) d) ∙ h
    on event_move _ =
        ap (transfer_at key) (remember-stays now (record ev { kind = event_move }) d) ∙ h
    on event_trash_remote _ =
        ap (transfer_at key) (remember-stays now (record ev { kind = event_trash_remote }) d) ∙ h
    on event_conflict _ =
        ap (transfer_at key) (remember-stays now (record ev { kind = event_conflict }) d) ∙ h

stays-gone :
    (key : Text) (now : ℕ) (evs : List (ℕ × Event)) (d : Daemon)
    → All (λ (e : ℕ × Event). starts key e.1 ≡ false) evs
    → transfer_at key d.transfers ≡ none
    → transfer_at key (on_mirror_events now evs d).transfers ≡ none
unfolding on_mirror_events
stays-gone key now [] d n h = h
stays-gone key now ((done, ev) ∷ evs) d n h =
    stays-gone key now evs (on_mirror_event now done ev d) n.1 (event-stays key now done ev d n.0 h)

-- A transfer that has ended is no longer shown as in flight, whatever events follow, until it is
-- started again: late progress does not bring it back.
pub ended_transfer-gone :
    (up : Bool) (path : Text) (size now done : ℕ) (evs : List (ℕ × Event)) (d : Daemon)
    → All (λ (e : ℕ × Event). starts (transfer_key up path) e.1 ≡ false) evs
    → let ev : Event = record { kind = event_transfer_done; path = path; size = size; up = up } in
      transfer_at
        (transfer_key up path)
        (on_mirror_events now evs (on_mirror_event now done ev d)).transfers
      ≡ none
unfolding on_mirror_event publish
ended_transfer-gone up path size now done evs d n =
    stays-gone (transfer_key up path) now evs _ n
      (drop_transfer-gone (transfer_key up path) d.transfers)

keys-apart : (p q : Text) → text_eq (transfer_key true p) (transfer_key false q) ≡ false
unfolding text_eq
keys-apart p q = refl

abbrev still_there : (Text → Bool) → Conflict → Bool
still_there exists c = exists c.kept_local

keep-delete_conflict :
    (exists : Text → Bool) (c : Conflict) (rows : List Conflict)
    → exists c.kept_local ≡ false
    → keep (still_there exists) (delete_conflict c.path c.kept_local rows)
      ≡ keep (still_there exists) rows
unfolding delete_conflict
keep-delete_conflict exists c [] h = refl
keep-delete_conflict exists c (x ∷ rows) h =
    ground (
      arith,
      keep-delete_conflict exists c rows h,
      text_eq_iff x.kept_local c.kept_local,
      ap exists,
    )

list_conflicts-listed :
    (exists : Text → Bool) (cs rows : List Conflict)
    → (list_conflicts exists cs rows).0 ≡ keep (still_there exists) cs
unfolding list_conflicts
list_conflicts-listed exists [] rows = refl
list_conflicts-listed exists (c ∷ cs) rows = ground (
  arith,
  list_conflicts-listed exists cs rows,
  list_conflicts-listed exists cs (delete_conflict c.path c.kept_local rows),
)

list_conflicts-rows :
    (exists : Text → Bool) (cs rows : List Conflict)
    → keep (still_there exists) (list_conflicts exists cs rows).1 ≡ keep (still_there exists) rows
unfolding list_conflicts
list_conflicts-rows exists [] rows = refl
list_conflicts-rows exists (c ∷ cs) rows = ground (
  arith,
  list_conflicts-rows exists cs rows,
  list_conflicts-rows exists cs (delete_conflict c.path c.kept_local rows),
  keep-delete_conflict exists c rows,
)

-- Listing the preserved copies gives the records whose copy still exists, newest first, and no record
-- of such a copy is dropped from the database.
pub present_conflicts-listed :
    (exists : Text → Bool) (d : Daemon)
    → ((present_conflicts exists d).1 ≡ keep (λ c. exists c.kept_local) (conflicts d.conflicts))
      × (keep (λ c. exists c.kept_local) (present_conflicts exists d).0.conflicts
          ≡ keep (λ c. exists c.kept_local) d.conflicts)
unfolding present_conflicts
present_conflicts-listed exists d = (
  list_conflicts-listed exists (conflicts d.conflicts) d.conflicts,
  list_conflicts-rows exists (conflicts d.conflicts) d.conflicts,
)
