-- ===== src/Mirror/Push/Moved.antt =====
-- What `apply_move` leaves for the next pass.
use p_drive.Base.{
  ℕ, suc, ◌+◌, ◌/◌, ◌<◌, ==_refl, Text, codes, List, [], ◌∷◌, ◌++◌, Bool, true, false, some, ◌≡◌,
  arith, ap, ◌∙◌, is_empty, text_eq_refl, equal_fold_refl,
}
use p_drive.State.Rows.{Node, Row, word, second, stored}
use p_drive.State.Nodes.{get_node, put_node, delete_node, get_node-put_node}
use p_drive.Mirror.Disk.{Disk}
use p_drive.Mirror.World.{
  LocalNode, RemoteNode, Settings, Env, Source, World, done, ◌>>◌, set_rows, tally, emit,
  event_move,
}
use p_drive.Mirror.World.Laws.{bind-done}
use p_drive.Mirror.Scan.{hash_if_needed, same_second, local_at}
use p_drive.Mirror.Keep.{preserve_local_if_conflicting}
use p_drive.Mirror.Push.Parents.{name_of, remote_parent_id}
use p_drive.Mirror.Push.{apply_move, moved_row, move_to, request, count_move}

module _ (sha1 : Text → Text) (stub_text : RemoteNode → Text) (like : Text → Text → Bool)
    (settings : Settings) (env : Env) (S : Source) where
  -- The world after a move that the remote side carried out.
  abbrev pub after_move : Node → Text → LocalNode → Text → S.State → World S.State → World S.State
  after_move old path n parent remote w = record w {
    remote = remote;
    rows = put_node env.now (moved_row old path parent n env.now) (delete_node old.path w.rows);
    result = record w.result { moved = w.result.moved + 1 };
    events =
        w.events
        ++ (record {
          kind = event_move;
          path = old.path ++ codes " -> " ++ path;
          size = 0;
          up = false;
        }
            ∷ []);
  }

  apply_move-done :
      (old : Node) (path parent : Text) (n : LocalNode) (w : World S.State) (remote : S.State)
      → remote_parent_id env S path w ≡ done parent w
      → S.move old.node_id parent (name_of path) old.is_dir w.remote ≡ (remote, true)
      → apply_move sha1 stub_text like settings env S old path n w
        ≡ done tt (after_move old path n parent remote w)
  unfolding apply_move emit
  apply_move-done old path parent n w remote h m =
      bind-done (remote_parent_id env S path w) parent w
        (move_to sha1 stub_text like settings env S old path n) h
      ∙ ap
          (λ answer.
            (request sha1 stub_text like settings env S answer
                >> (set_rows (delete_node old.path)
                    >> (tally count_move
                        >> (emit event_move (old.path ++ codes " -> " ++ path) 0 false
                            >> set_rows (put_node env.now (moved_row old path parent n env.now))))))
              w)
          m

  -- After a move, the baseline knows the new path with the size and the modification time that the
  -- scan found there, but where the scan left the hash open it keeps the hash of the old path.
  moved_row-found :
      (old : Node) (path parent : Text) (n : LocalNode) (rows : List Row)
      → n.hash ≡ []
      → n.inode < word
      → get_node path (put_node env.now (moved_row old path parent n env.now) rows)
        ≡ some (stored env.now (moved_row old path parent n env.now))
  unfolding moved_row
  moved_row-found old path parent n rows e i = ground (
    arith,
    get_node-put_node env.now (moved_row old path parent n env.now) path rows i,
    text_eq_refl path,
  )

  stale_hash :
      (old : Node) (path parent : Text) (n : LocalNode) (t : ℕ) (disk : Disk)
      → n.is_dir ≡ false
      → n.hash ≡ []
      → n.mtime ≡ some (suc t)
      → is_empty old.content_hash ≡ false
      → hash_if_needed sha1 disk (some (stored env.now (moved_row old path parent n env.now))) n
        ≡ some (record n { hash = old.content_hash })
  unfolding hash_if_needed moved_row same_second
  stale_hash old path parent n t disk d e m h =
      ground (arith, ==_refl n.size, ==_refl (suc t / second))

  kept_as_known :
      (path incoming : Text) (n : LocalNode) (base : Node) (w : World S.State)
      → n.is_dir ≡ false
      → is_empty n.hash ≡ false
      → base.content_hash ≡ n.hash
      → get_node path w.rows ≡ some base
      → local_at path w.local_before ≡ some n
      → preserve_local_if_conflicting env sha1 path incoming w ≡ done tt w
  unfolding preserve_local_if_conflicting
  kept_as_known path incoming n base w d e c g l = ground (arith, equal_fold_refl n.hash)

  -- A file that was renamed and edited before the pass is moved on the remote side and not sent,
  -- and its row says that the file as it is now has the content of the old path. Let a later pass
  -- start from these rows with the file as that scan saw it: whatever the folder holds there,
  -- `preserve_local_if_conflicting` puts nothing aside before a download replaces the file.
  pub apply_move-forgets_edit :
      (old : Node) (path parent incoming : Text) (n : LocalNode) (t : ℕ) (remote : S.State)
      (w later : World S.State)
      → n.is_dir ≡ false
      → n.hash ≡ []
      → n.mtime ≡ some (suc t)
      → n.inode < word
      → is_empty old.content_hash ≡ false
      → remote_parent_id env S path w ≡ done parent w
      → S.move old.node_id parent (name_of path) old.is_dir w.remote ≡ (remote, true)
      → later.rows ≡ (after_move old path n parent remote w).rows
      → local_at path later.local_before
        ≡ hash_if_needed sha1 later.disk (get_node path later.rows) n
      → (apply_move sha1 stub_text like settings env S old path n w
          ≡ done tt (after_move old path n parent remote w))
        × (preserve_local_if_conflicting env sha1 path incoming later ≡ done tt later)
  unfolding moved_row
  apply_move-forgets_edit old path parent incoming n t remote w later d e m i h p q rows scan = (
    apply_move-done old path parent n w remote p q,
    kept_as_known path incoming (record n { hash = old.content_hash })
        (stored env.now (moved_row old path parent n env.now)) later d h (rw e) found
        (scan
          ∙ (ap (λ b. hash_if_needed sha1 later.disk b n) found
              ∙ stale_hash old path parent n t later.disk d e m h)),
  )
    where
      found : get_node path later.rows ≡ some (stored env.now (moved_row old path parent n env.now))
      found =
          ap (get_node path) rows
          ∙ moved_row-found old path parent n (delete_node old.path w.rows) e i
