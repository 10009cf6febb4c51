-- ===== src/Drive/Events.antt =====
-- The event cursor.
use p_drive.Base.{
  Text, false, ◌||◌, Option, none, some, is_empty, if◌then◌else◌, if_elim, ◌≡◌, ◌≢◌, refl, subst,
  arith,
}
use p_drive.Mirror.World.{change_delete, Delta}
use p_drive.Drive.{
  LinkEvent, event_delete, event_create, event_update, event_update_metadata, event_unknown,
  LinkState, other_state, VolumeEvent, VolumeEvents, classify_event, poll_events,
}

abbrev HasCursor : Option Delta → Type 0
HasCursor none = Unit
HasCursor (some d) = is_empty d.cursor ≡ false

cursor-kept :
    (cursor next : Text)
    → is_empty cursor ≡ false
    → is_empty (if is_empty next then cursor else next) ≡ false
cursor-kept cursor next h = ground arith

poll_events-HasCursor :
    (volume_id cursor : Text) (reply : Option VolumeEvents)
    → HasCursor (poll_events volume_id cursor reply)
unfolding poll_events
poll_events-HasCursor volume_id cursor none =
    if_elim HasCursor (is_empty volume_id || is_empty cursor) _ _ (λ _. tt) (λ _. tt)
poll_events-HasCursor volume_id cursor (some ev) =
    if_elim HasCursor (is_empty volume_id || is_empty cursor) _ _ (λ _. tt)
      (λ e. cursor-kept cursor ev.event_id (ground arith))

-- A poll never loses the place in the event stream: what it gives has a cursor to poll from next.
pub poll_events-cursor :
    (volume_id cursor : Text) (reply : Option VolumeEvents) (d : Delta)
    → poll_events volume_id cursor reply ≡ some d
    → is_empty d.cursor ≡ false
poll_events-cursor volume_id cursor reply d h =
    subst HasCursor h (poll_events-HasCursor volume_id cursor reply)

-- An event without an explicit state never deletes: whatever it says besides, it is an upsert or is
-- skipped, unless it is a deletion itself.
pub classify_event-explicit :
    (e : VolumeEvent)
    → e.kind ≢ event_delete
    → e.state ≡ other_state
    → classify_event e ≢ some change_delete
classify_event-explicit e n s = on e.kind e.state n s
  where
    on :
        (kind : LinkEvent) (state : LinkState)
        → kind ≢ event_delete
        → state ≡ other_state
        → classify_event (record e { kind = kind; state = state }) ≢ some change_delete
    on event_delete state n s k = n refl
    on event_create state n s k = ground (arith, s)
    on event_update state n s k = ground (arith, s)
    on event_update_metadata state n s k = ground (arith, s)
    on event_unknown state n s k = ground arith
