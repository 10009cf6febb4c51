-- ===== src/Mirror/Pull/Passes.antt =====
-- internal/mirror/mirror.go: the passes that bring remote changes down. A pass is not cancelled.
pub mod Laws
use p_drive.Base.{
  ℕ, ◌+◌, Text, List, [], ◌∷◌, ◌++◌, Bool, true, false, not, ◌&&◌, ◌||◌, Option, none, some,
  text_eq, any, keep, length, is_empty, if◌then◌else◌,
}
use p_drive.State.Rows.{Node, Row, materialized, Time}
use p_drive.State.Nodes.{get_node, get_node_by_id, all_nodes, count_nodes, put_node}
use p_drive.State.Meta.{
  get_meta, set_meta, key_event_cursor, key_volume_id, key_share_id, key_root_link_id,
  key_last_full_scan,
}
use p_drive.Paths.{valid_path, stub_suffix}
use p_drive.Mirror.Disk.{File, remove_at}
use p_drive.Mirror.World.{
  RemoteNode, Settings, Env, Source, World, M, Outcome, done, fail, Err, remote_failed,
  not_mirrored, is_directory, already_downloaded, ◌>>=◌, ◌>>◌, pass, throw, emit, tally, set_rows,
  or_warn, for_each, stop_if, Result, no_result, event_warn, event_download, event_transfer_start,
  event_transfer_done, Change, change_upsert, change_delete, Delta, LocalNode,
}
use p_drive.Mirror.Guards.{RootState, check_root, check_deletion_cliff}
use p_drive.Mirror.Scan.{scan, hash_all}
use p_drive.Mirror.Pull.{apply_node, stage, fetch, commit_staged, drop_stub, count_download}
use p_drive.Mirror.Pull.Remove.{delete_local, delete_by_node_id, reap_unseen}

-- What the first loop of `applyEvents` collects.
pub record Gathered : Type 0 where
  pub dirs : List Text
  pub deletions : List Text
  pub tracked : ℕ

abbrev pub nothing_gathered : Gathered
nothing_gathered = record { dirs = []; deletions = []; tracked = 0 }

abbrev pub tracked_one : Option Node → ℕ
tracked_one none = 0
tracked_one (some n) = 1

abbrev add_new : Text → List Text → List Text
add_new x xs = if any (λ y. text_eq y x) xs then xs else x ∷ xs

abbrev join_dirs : List Text → List Text → List Text
join_dirs [] ys = ys
join_dirs (x ∷ xs) ys = add_new x (join_dirs xs ys)

abbrev pub join_gathered : Gathered → Gathered → Gathered
join_gathered a b = record {
  dirs = join_dirs a.dirs b.dirs;
  deletions = a.deletions ++ b.deletions;
  tracked = a.tracked + b.tracked;
}

abbrev pub mark_cursor : Result → Result
mark_cursor r = record r { cursor_moved = true }

module _ (sha1 : Text → Text) (stub_text : RemoteNode → Text) (like : Text → Text → Bool)
    (settings : Settings) (env : Env) (S : Source) where
  abbrev pub Step : Type 0
  Step = M S.State (Unit {0})

  abbrev put_meta : Text → Text → Step
  put_meta key value w = done tt (record w { meta = set_meta key value w.meta })

  -- The body of the loops over the nodes that the remote side lists.
  abbrev visit_node : RemoteNode → Step
  visit_node n w =
      if valid_path n.path
      then or_warn n.path (apply_node sha1 stub_text settings env S n) w
      else emit event_warn n.path 0 false w

  abbrev seen_paths : List RemoteNode → List Text
  seen_paths [] = []
  seen_paths (n ∷ nodes) =
      let rest = seen_paths nodes in if valid_path n.path then n.path ∷ rest else rest

  abbrev stale_under : Text → List Text → List Row → List Node
  stale_under link seen rows =
      keep (λ n. text_eq n.parent_id link && not (any (λ p. text_eq p n.path) seen))
        (all_nodes rows)

  abbrev listed : Option (List RemoteNode) → M S.State (List RemoteNode)
  listed none w = fail remote_failed w
  listed (some nodes) w = done nodes w

  abbrev drop_stale : Text → List Text → Step
  drop_stale link seen w =
      let stale = stale_under link seen w.rows in
      (do
        stop_if (check_deletion_cliff settings (count_nodes w.rows) (length stale))
        for_each (λ n. or_warn n.path (delete_local like settings env n)) stale)
        w

  abbrev relist_at : Text → Text → Step
  relist_at link prefix = do
    nodes ← λ w. listed (S.list_dir link prefix w.remote) w
    for_each visit_node nodes
    drop_stale link (seen_paths nodes)

  abbrev relist_known : Text → Option Node → Step
  relist_known link none w = done tt w
  relist_known link (some n) w = relist_at link n.path w

  -- `relistDir`
  unfoldable pub relist_dir : Text → Step
  relist_dir link w =
      if text_eq link S.root_link_id
      then relist_at link [] w
      else relist_known link (get_node_by_id link w.rows) w

  abbrev pub named_parent : Text → Gathered
  named_parent parent =
      if is_empty parent then nothing_gathered else record nothing_gathered { dirs = parent ∷ [] }

  abbrev pub resolved : Option Text → M S.State Gathered
  resolved none w = (emit event_warn [] 0 false >> pass nothing_gathered) w
  resolved (some parent) w = done (named_parent parent) w

  abbrev pub gather_upsert : Change → M S.State Gathered
  gather_upsert c w =
      if is_empty c.parent_id && not (is_empty c.link_id)
      then resolved (S.link_parent c.link_id w.remote) w
      else done (named_parent c.parent_id) w

  abbrev pub gather_delete : Change → M S.State Gathered
  gather_delete c w =
      done
        (record nothing_gathered {
          deletions = c.link_id ∷ [];
          tracked = tracked_one (get_node_by_id c.link_id w.rows);
        })
        w

  abbrev pub gather_one : Change → M S.State Gathered
  gather_one c w = elim c.kind [
    | change_upsert ↦ gather_upsert c w
    | change_delete ↦ gather_delete c w
  ]

  -- The first loop of `applyEvents`.
  unfoldable pub gather : List Change → M S.State Gathered
  gather [] w = done nothing_gathered w
  gather (c ∷ changes) w = elim (gather_one c w) [
    | done a w' ↦ elim (gather changes w') [
      | done b w'' ↦ done (join_gathered a b) w''
      | fail e w'' ↦ fail e w''
    ]
    | fail e w' ↦ fail e w'
  ]

  abbrev move_cursor : Text → Text → Step
  move_cursor cursor next w =
      if is_empty next || text_eq next cursor
      then done tt w
      else (put_meta key_event_cursor next >> tally mark_cursor) w

  -- What `applyEvents` does behind its first loop.
  unfoldable pub apply_gathered : Text → Text → Gathered → Step
  apply_gathered cursor next g = do
    λ w. stop_if (check_deletion_cliff settings (count_nodes w.rows) g.tracked) w
    for_each (λ id. or_warn [] (delete_by_node_id like settings env id)) g.deletions
    for_each (λ dir. or_warn [] (relist_dir dir)) g.dirs
    move_cursor cursor next

  abbrev pub polled : Option Delta → M S.State Delta
  polled none w = fail remote_failed w
  polled (some delta) w = done delta w

  abbrev pub reset : Result → Step
  reset r w = done tt (record w { result = r })

  -- What `applyEvents` does with the events that it is given.
  abbrev pub apply_delta : Text → Delta → M S.State Bool
  apply_delta cursor delta w =
      if delta.refresh
      then done false w
      else (do g ← gather delta.changes; apply_gathered cursor delta.cursor g; pass true) w

  -- `applyEvents`; the result is false where the remote side asks for a full walk.
  unfoldable pub apply_events : Text → M S.State Bool
  unfolding gather apply_gathered
  apply_events cursor = do
    reset no_result
    delta ← λ w. polled (S.poll_events cursor w.remote) w
    apply_delta cursor delta

  abbrev latest : Option Text → M S.State Text
  latest none w = fail remote_failed w
  latest (some cursor) w = done cursor w

  abbrev all_walked : Bool → Step
  all_walked true w = done tt w
  all_walked false w = fail remote_failed w

  abbrev walk_all : List RemoteNode × Bool → Step
  walk_all (nodes, complete) = do
    for_each visit_node nodes
    all_walked complete
    reap_unseen like settings env (seen_paths nodes)

  -- `FullMirror`
  unfoldable pub full_mirror : Step
  full_mirror = do
    reset (record no_result { full_mirror = true })
    cursor ← λ w. latest (S.latest_event_id w.remote) w
    put_meta key_volume_id S.volume_id
    put_meta key_share_id S.share_id
    put_meta key_root_link_id S.root_link_id
    λ w. walk_all (S.walk w.remote) w
    put_meta key_event_cursor cursor
    put_meta key_last_full_scan env.scan_stamp
    tally mark_cursor

  -- `pull` of push.go, which is `Sync` behind its guard
  abbrev or_full : Bool → Step
  or_full true w = done tt w
  or_full false w = full_mirror w

  unfoldable pub pull : Step
  pull w =
      let cursor = get_meta key_event_cursor w.meta in
      if is_empty cursor then full_mirror w else (apply_events cursor >>= or_full) w

  -- `Sync`
  unfoldable pub sync : RootState → Step
  sync root w = (stop_if (check_root root w.rows w.disk) >> pull) w

  -- The scan before a pull, with its hashes.
  abbrev pub scan_before : Step
  scan_before w =
      done tt
        (record w { local_before = hash_all sha1 w.rows w.disk (scan settings.exclude w.disk) })

  abbrev refresh_known : Option Node → Step
  refresh_known none w = done tt w
  refresh_known (some n) w =
      if n.is_dir then (reset no_result >> (scan_before >> relist_dir n.node_id)) w else done tt w

  -- `RefreshDir`
  unfoldable pub refresh_dir : RootState → Text → Step
  refresh_dir root path w =
      (stop_if (check_root root w.rows w.disk) >> (λ w'.
          if is_empty path || text_eq path (b'.' ∷ [])
          then (reset no_result >> (scan_before >> relist_dir S.root_link_id)) w'
          else refresh_known (get_node path w'.rows) w'))
        w
