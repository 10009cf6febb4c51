-- ===== src/Mirror/Pull/Passes/Laws.antt =====
-- The deletion guard over the event stream.
use p_drive.Base.{
  ℕ, ◌+◌, Text, List, [], ◌∷◌, Bool, true, false, not, ◌&&◌, Option, none, some, ◌≡◌, refl, sym,
  arith, subst, is_empty, if_elim,
}
use p_drive.State.Rows.{Row}
use p_drive.State.Nodes.{get_node_by_id, count_nodes}
use p_drive.Mirror.World.{
  no_result, RemoteNode, Settings, Env, Source, World, Outcome, done, fail, Err, pass, ◌>>=◌, ◌>>◌,
  emit, Change, ChangeKind, change_upsert, change_delete, Delta,
}
use p_drive.Mirror.World.Laws.{
  SameTables, SameTables-refl, SameTables-reset, SameTables-trans, StoppedBy, stopped_if,
}
use p_drive.Mirror.Guards.{check_deletion_cliff}
use p_drive.Mirror.Pull.Passes.{
  Gathered, join_gathered, tracked_one, named_parent, resolved, gather_upsert, gather_delete,
  gather_one, gather, apply_gathered, apply_events, apply_delta, polled,
}

abbrev tracked_kind : ChangeKind → Text → List Row → ℕ
tracked_kind change_upsert link rows = 0
tracked_kind change_delete link rows = tracked_one (get_node_by_id link rows)

-- How many of the changes delete a node that the baseline holds.
unfoldable pub tracked_deletions : List Change → List Row → ℕ
tracked_deletions [] rows = 0
tracked_deletions (c ∷ changes) rows =
    tracked_kind c.kind c.link_id rows + tracked_deletions changes rows

module _ (sha1 : Text → Text) (stub_text : RemoteNode → Text) (like : Text → Text → Bool)
    (settings : Settings) (env : Env) (S : Source) where
  -- A call that only collects, with the tracked deletions that it collects.
  abbrev Collects : World S.State → ℕ → Outcome S.State Gathered → Type 0
  Collects w tracked (done g w') = SameTables w w' × (g.tracked ≡ tracked)
  Collects w tracked (fail e w') = ⊥

  resolved-Collects :
      (o : Option Text) (w : World S.State)
      → Collects w 0 (resolved sha1 stub_text like settings env S o w)
  unfolding emit
  resolved-Collects none w = (
    record {
      same_disk = refl;
      same_trash = refl;
      same_rows = refl;
      same_meta = refl;
      same_remote = refl;
    },
    refl,
  )
  resolved-Collects (some []) w = (SameTables-refl w, refl)
  resolved-Collects (some (c ∷ parent)) w = (SameTables-refl w, refl)

  named_parent-tracked :
      (parent : Text) → (named_parent sha1 stub_text like settings env S parent).tracked ≡ 0
  named_parent-tracked [] = refl
  named_parent-tracked (c ∷ parent) = refl

  gather_upsert-Collects :
      (c : Change) (w : World S.State)
      → Collects w 0 (gather_upsert sha1 stub_text like settings env S c w)
  gather_upsert-Collects c w =
      if_elim (Collects w 0) (is_empty c.parent_id && not (is_empty c.link_id)) _ _
        (λ _. resolved-Collects (S.link_parent c.link_id w.remote) w)
        (λ _. (SameTables-refl w, named_parent-tracked c.parent_id))

  gather_kind-Collects :
      (kind : ChangeKind) (c : Change) (w : World S.State)
      → Collects w (tracked_kind kind c.link_id w.rows) (elim kind [
        | change_upsert ↦ gather_upsert sha1 stub_text like settings env S c w
        | change_delete ↦ gather_delete sha1 stub_text like settings env S c w
      ])
  gather_kind-Collects change_upsert c w = gather_upsert-Collects c w
  gather_kind-Collects change_delete c w = (SameTables-refl w, refl)

  joined-Collects :
      (w w' : World S.State) (a : Gathered) (m n : ℕ)
      → SameTables w w'
      → a.tracked ≡ m
      → (o : Outcome S.State Gathered) → Collects w' n o
      → Collects w
          (m + n)
          (elim o [ done b w'' ↦ done (join_gathered a b) w'' | fail e w'' ↦ fail e w'' ])
  joined-Collects w w' a m n same count (fail e w'') bad = bad
  joined-Collects w w' a m n same count (done b w'') (same', count') =
      (SameTables-trans same same', omega arith)

  join-Collects :
      (w : World S.State) (changes : List Change) (m : ℕ) (o : Outcome S.State Gathered)
      → Collects w m o
      → ((w' : World S.State)
          → Collects w'
              (tracked_deletions changes w'.rows)
              (gather sha1 stub_text like settings env S changes w'))
      → Collects w (m + tracked_deletions changes w.rows) (elim o [
        | done a w' ↦ elim (gather sha1 stub_text like settings env S changes w') [
          | done b w'' ↦ done (join_gathered a b) w''
          | fail e w'' ↦ fail e w''
        ]
        | fail e w' ↦ fail e w'
      ])
  join-Collects w changes m (fail e w') bad rest = bad
  join-Collects w changes m (done a w') (same, count) rest =
      joined-Collects w w' a m _ same count (gather sha1 stub_text like settings env S changes w') (
        subst
          (λ rows.
            Collects w' (tracked_deletions changes rows)
              (gather sha1 stub_text like settings env S changes w'))
          same.same_rows (rest w'))

  gather-Collects :
      (changes : List Change) (w : World S.State)
      → Collects w
          (tracked_deletions changes w.rows)
          (gather sha1 stub_text like settings env S changes w)
  unfolding gather tracked_deletions
  gather-Collects [] w = (SameTables-refl w, refl)
  gather-Collects (c ∷ changes) w =
      join-Collects w changes _ (gather_one sha1 stub_text like settings env S c w)
        (gather_kind-Collects c.kind c w) (gather-Collects changes)

  gathered-StoppedBy :
      (cursor next : Text) (w w' : World S.State) (tracked : ℕ) (e : Err)
      → SameTables w w'
      → check_deletion_cliff settings (count_nodes w'.rows) tracked ≡ some e
      → (o : Outcome S.State Gathered) → Collects w' tracked o
      → StoppedBy w e (elim o [
        | done g v ↦
            (apply_gathered sha1 stub_text like settings env S cursor next g >> pass true) v
        | fail e' v ↦ fail e' v
      ])
  unfolding apply_gathered
  gathered-StoppedBy cursor next w w' tracked e same h (fail e' v) bad = elim bad [ ]
  gathered-StoppedBy cursor next w w' tracked e same h (done g v) (same', count) =
      stopped_if w v e _ _ true (SameTables-trans same same') (cliff (same'.same_rows) count)
    where
      cliff :
          v.rows ≡ w'.rows
          → g.tracked ≡ tracked
          → check_deletion_cliff settings (count_nodes v.rows) g.tracked ≡ some e
      cliff p q = cc

  -- Where the events that the remote side reports delete so many tracked nodes that the deletion
  -- guard objects, and it does not ask for a full walk, `apply_events` fails with the guard's error
  -- and leaves the folder, the trash directory, the tables and the remote side as they are.
  pub apply_events-guarded :
      (cursor : Text) (w : World S.State) (delta : Delta) (e : Err)
      → S.poll_events cursor w.remote ≡ some delta
      → delta.refresh ≡ false
      → check_deletion_cliff settings (count_nodes w.rows) (tracked_deletions delta.changes w.rows)
        ≡ some e
      → StoppedBy w e (apply_events sha1 stub_text like settings env S cursor w)
  unfolding apply_events
  apply_events-guarded cursor w delta e poll calm h =
      subst
        (λ o. StoppedBy w e (
          (polled sha1 stub_text like settings env S o
              >>= apply_delta sha1 stub_text like settings env S cursor)
            (record w { result = no_result })))
        (sym poll)
        (if_elim (StoppedBy w e) delta.refresh _ _ (λ r. absurd (cc))
          (λ _.
            gathered-StoppedBy cursor delta.cursor w (record w { result = no_result }) _ e
              (SameTables-reset w) h
              (gather sha1 stub_text like settings env S delta.changes
                (record w { result = no_result }))
              (gather-Collects delta.changes (record w { result = no_result }))))
