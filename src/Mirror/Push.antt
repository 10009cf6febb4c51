-- ===== src/Mirror/Push.antt =====
-- internal/mirror/push.go: local changes go up. A pass is not cancelled.
pub mod Moves
pub mod Parents
pub mod Laws
pub mod Sent
pub mod Moved
use p_drive.Base.{
  ℕ, ◌+◌, Text, codes, List, [], ◌∷◌, ◌++◌, Bool, true, false, not, ◌&&◌, ◌||◌, Option, none, some,
  any, text_eq, length, ltb, is_empty, text_lt, count_byte, slash, sort, equal_fold, ◌==◌,
  if◌then◌else◌,
}
use p_drive.State.Rows.{Node, Row, materialized, not_materialized}
use p_drive.State.Nodes.{get_node, put_node, delete_node, count_nodes}
use p_drive.State.Subtree.{delete_subtree}
use p_drive.Mirror.Disk.{File, file_at}
use p_drive.Mirror.World.{
  LocalNode, RemoteNode, Settings, Env, Source, World, M, Outcome, done, fail, Err, guard,
  remote_failed, disk_failed, ◌>>=◌, ◌>>◌, pass, emit, tally, set_rows, or_warn, for_each, stop_if,
  Result, event_warn, event_move, event_trash_remote, event_upload, event_transfer_start,
  event_transfer_done,
}
use p_drive.Mirror.Guards.{RootState, check_root, check_deletion_cliff}
use p_drive.Mirror.Scan.{Local, scan, hash_all, hash_if_needed, local_at}
use p_drive.Mirror.Pull.Passes.{pull, scan_before}
use p_drive.Mirror.Push.Moves.{Search, find_local_deletions, detect_moves, unmoved}
use p_drive.Mirror.Push.Parents.{name_of, remote_parent_id, create_remote_dir}

abbrev count_move : Result → Result
count_move r = record r { moved = r.moved + 1 }

abbrev count_trash : Result → Result
count_trash r = record r { trashed_remote = r.trashed_remote + 1 }

abbrev count_upload : ℕ → Result → Result
count_upload size r = record r {
  uploaded = r.uploaded + 1;
  uploaded_bytes = r.uploaded_bytes + size;
}

-- The row of a moved node.
unfoldable pub moved_row : Node → Text → Text → LocalNode → ℕ → Node
moved_row old path parent n now = record old {
  path = path;
  parent_id = parent;
  synced_at = some now;
  local_inode = n.inode;
  local_mtime = n.mtime;
  size = n.size;
  content_hash = if is_empty n.hash then old.content_hash else n.hash;
}

-- The row of an uploaded file.
unfoldable pub uploaded_row : LocalNode → Text → Text → Text → ℕ → Node
uploaded_row n path link parent now = record {
  path = path;
  node_id = link;
  parent_id = parent;
  is_dir = false;
  revision_id = [];
  content_hash = n.hash;
  size = n.size;
  local_mtime = n.mtime;
  local_inode = n.inode;
  mat = materialized;
  synced_at = some now;
}

-- `tracked && base.Materialized == state.NotMaterialized`
abbrev is_stub : Option Node → Bool
is_stub none = false
is_stub (some base) = base.mat == not_materialized

abbrev same_content : Option Node → Text → Bool
same_content none hash = false
same_content (some base) hash = equal_fold hash base.content_hash

abbrev by_depth : Text × LocalNode → Text × LocalNode → Bool
by_depth a b =
    let x = count_byte slash (a.0) in
    let y = count_byte slash (b.0) in if x == y then text_lt (a.0) (b.0) else ltb x y

-- The errors of the upload loop: `isGuard` stops it, anything else is a warning.
unfoldable pub or_warn_unless_guard : Text → {R : Type 0} → M R (Unit {0}) → M R (Unit {0})
unfolding emit
or_warn_unless_guard path m w = elim (m w) [
  | done a w' ↦ done tt w'
  | fail e w' ↦ elim e [ guard name ↦ fail (guard name) w' | _ ↦ emit event_warn path 0 false w' ]
]

module _ (sha1 : Text → Text) (stub_text : RemoteNode → Text) (like : Text → Text → Bool)
    (settings : Settings) (env : Env) (S : Source) where
  abbrev Step : Type 0
  Step = M S.State (Unit {0})

  -- A request of the remote side that succeeds or fails.
  abbrev request : S.State × Bool → Step
  request (remote, ok) w = elim ok [
    | true ↦ done tt (record w { remote = remote })
    | false ↦ fail remote_failed (record w { remote = remote })
  ]

  abbrev move_to : Node → Text → LocalNode → Text → Step
  move_to old path n parent = do
    λ w. request (S.move old.node_id parent (name_of path) old.is_dir w.remote) w
    set_rows (delete_node old.path)
    tally count_move
    emit event_move (old.path ++ codes " -> " ++ path) 0 false
    set_rows (put_node env.now (moved_row old path parent n env.now))

  -- `applyMove`
  unfoldable pub apply_move : Node → Text → LocalNode → Step
  unfolding moved_row
  apply_move old path n = remote_parent_id env S path >>= move_to old path n

  -- `trashRemote`
  unfoldable pub trash_remote : Node → Step
  trash_remote n = do
    λ w. request (S.trash n.node_id n.is_dir w.remote) w
    set_rows (if n.is_dir then delete_subtree like n.path else delete_node n.path)
    tally count_trash
    emit event_trash_remote n.path 0 false

  abbrev record_upload : Text → LocalNode → Text → Option Text → Step
  record_upload path n parent none w = fail remote_failed w
  record_upload path n parent (some link) w =
      (do
        tally (count_upload n.size)
        emit event_upload path n.size false
        set_rows (put_node env.now (uploaded_row n path link parent env.now)))
        w

  -- The transfer of an opened file.
  abbrev send : Text → LocalNode → Text → Text → Step
  send path n parent content = do
    emit event_transfer_start path n.size true
    λ w.
        let (remote, answer) = S.upload parent (name_of path) n.mtime content w.remote in
        (emit event_transfer_done path 0 true >> record_upload path n parent answer)
          (record w { remote = remote })

  abbrev open_and_send : Text → LocalNode → Text → Option File → Step
  open_and_send path n parent none w = fail disk_failed w
  open_and_send path n parent (some f) w = send path n parent f.content w

  abbrev upload_file : Text → LocalNode → Step
  upload_file path n = do
    parent ← remote_parent_id env S path
    λ w. open_and_send path n parent (file_at path w.disk) w

  -- Behind the hash that `pushNode` computes itself.
  abbrev push_hashed : Text → Option Node → Option LocalNode → Step
  push_hashed path base none w = fail disk_failed w
  push_hashed path base (some n) w = elim (same_content base n.hash) [
    | true ↦ done tt w
    | false ↦ upload_file path n w
  ]

  abbrev push_dir : Text → Option Node → Step
  push_dir path (some base) w = done tt w
  push_dir path none w = create_remote_dir env S (length path + 1) path w

  abbrev push_file : Text → LocalNode → Option Node → Step
  push_file path n base w =
      if is_stub base
      then done tt w
      else if is_empty n.hash
      then push_hashed path base (hash_if_needed sha1 w.disk none n) w
      else push_hashed path base (some n) w

  -- `pushNode`, with the row of the path in the baseline.
  unfoldable pub push_node : Text → LocalNode → Option Node → Step
  unfolding uploaded_row
  push_node path n base w = if n.is_dir then push_dir path base w else push_file path n base w

  abbrev move_one : Local → Node × Text → Step
  move_one local (old, path) = elim (local_at path local) [
    | none ↦ pass tt
    | some n ↦ or_warn old.path (apply_move old path n)
  ]

  abbrev push_one : List Row → List Text → Text × LocalNode → Step
  push_one rows targets (path, n) =
      if any (λ t. text_eq t path) targets
      then pass tt
      else or_warn_unless_guard path (push_node path n (get_node path rows))

  -- `push` behind its guard, with the baseline that it starts from.
  abbrev pub push_found : List Row → List Node → Search → Step
  push_found rows deleted found = do
    for_each (move_one found.local) found.moves
    for_each (λ n. or_warn n.path (trash_remote n)) (unmoved deleted found.moves)
    for_each (push_one rows found.claimed) (sort by_depth found.local)

  abbrev pub guarded_push : List Row → List Node → Search → Step
  guarded_push rows deleted found = do
    λ w.
        stop_if
          (check_deletion_cliff settings (count_nodes w.rows)
            (length (unmoved deleted found.moves)))
          w
    push_found rows deleted found

  -- `push`
  unfoldable pub push : Local → Step
  unfolding find_local_deletions detect_moves unmoved sort
  push local w =
      let deleted = find_local_deletions w.rows local w.disk in
      let found = detect_moves sha1 w.disk w.rows local deleted in
      guarded_push w.rows deleted found (record w { move_targets = found.claimed })

  -- `SyncBoth`
  unfoldable pub sync_both : RootState → Step
  sync_both root = do
    λ w. stop_if (check_root root w.rows w.disk) w
    scan_before sha1 stub_text like settings env S
    pull sha1 stub_text like settings env S
    λ w. push (scan settings.exclude w.disk) w
