-- ===== src/Mirror/Pull.antt =====
-- internal/mirror/mirror.go, the download half: one remote node made true locally.
pub mod Materialize
pub mod Remove
pub mod Passes
pub mod Download
use p_drive.Base.{
  ℕ, zero, suc, ◌+◌, ◌/◌, Text, codes, List, [], ◌∷◌, ◌++◌, Bool, true, false, not, ◌&&◌, ◌||◌,
  Option, none, some, is_empty, equal_fold, length, ltb, ◌==◌, if◌then◌else◌,
}
use p_drive.State.Rows.{Time, Node, Row, materialized, not_materialized, second}
use p_drive.State.Nodes.{get_node, put_node}
use p_drive.Paths.{stub_suffix}
use p_drive.Mirror.Disk.{
  File, Disk, file_at, write_at, remove_at, mkdir_all, mkdir_parent, stage_dirs,
}
use p_drive.Mirror.World.{
  RemoteNode, Settings, Env, Source, World, M, Outcome, done, fail, Err, remote_failed, disk_failed,
  not_mirrored, is_directory, already_downloaded, ◌>>=◌, ◌>>◌, pass, throw, world_of, emit, tally,
  set_rows, Result, event_dir, event_download, event_stub, event_skip, event_warn,
  event_transfer_start, event_transfer_done,
}
use p_drive.Mirror.Guards.{materialized_for}
use p_drive.Mirror.Keep.{preserve_local_if_conflicting}
use p_drive.Mirror.Scan.{same_second, hash_file}

abbrev pub count_dir : Result → Result
count_dir r = record r { dirs = r.dirs + 1 }

abbrev count_skip : Result → Result
count_skip r = record r { skipped = r.skipped + 1 }

abbrev count_stub : Result → Result
count_stub r = record r { stubbed = r.stubbed + 1 }

abbrev count_download : ℕ → Result → Result
count_download written r = record r { downloaded = r.downloaded + 1; bytes = r.bytes + written }

-- The rows that are stored for a directory, a stub and a downloaded file.
abbrev pub dir_row : Text → Text → Text → ℕ → Node
dir_row path link parent now = record {
  path = path;
  node_id = link;
  parent_id = parent;
  is_dir = true;
  revision_id = [];
  content_hash = [];
  size = 0;
  local_mtime = none;
  local_inode = 0;
  mat = materialized;
  synced_at = some now;
}

abbrev pub stub_row : RemoteNode → ℕ → Node
stub_row n now = record {
  path = n.path;
  node_id = n.link_id;
  parent_id = n.parent_id;
  is_dir = false;
  revision_id = [];
  content_hash = [];
  size = n.size;
  local_mtime = n.modified;
  local_inode = 0;
  mat = not_materialized;
  synced_at = some now;
}

abbrev pub file_row : RemoteNode → Text → File → ℕ → Node
file_row n sum f now = record {
  path = n.path;
  node_id = n.link_id;
  parent_id = n.parent_id;
  is_dir = false;
  revision_id = [];
  content_hash = sum;
  size = length f.content;
  local_mtime = f.mtime;
  local_inode = f.inode;
  mat = materialized;
  synced_at = some now;
}

-- The modification time that a file gets: the given one, or else the present.
abbrev pub stamped : Time → ℕ → Time
stamped none now = some now
stamped (some t) now = some t

abbrev pub is_directory_there : Option File → Bool
is_directory_there none = false
is_directory_there (some g) = g.is_dir

abbrev pub place : Bool → Text → File → {R : Type 0} → M R File
place true path f w = fail disk_failed w
place false path f w =
    done f (record w { disk = write_at path f w.disk; next_inode = w.next_inode + 1 })

-- `commitStaged`: the staged content at the path. A directory there blocks the rename.
unfoldable pub commit_staged : Text → Text → Time → ℕ → {R : Type 0} → M R File
commit_staged path content mtime now w =
    place (is_directory_there (file_at path w.disk)) path
      (record {
        is_dir = false;
        content = content;
        mtime = stamped mtime now;
        inode = w.next_inode;
      })
      w

abbrev pub drop_stub : Text → {R : Type 0} → M R (Unit {0})
drop_stub path w = done tt (record w { disk = remove_at (path ++ stub_suffix) w.disk })

abbrev pub or_disk_failed : Option Disk → {R : Type 0} → M R (Unit {0})
or_disk_failed none w = fail disk_failed w
or_disk_failed (some disk) w = done tt (record w { disk = disk })

-- What is done about a remote file.
pub data FileStep : Type 0 where
  leave_stub bring_down : FileStep
  skip_file : ℕ → FileStep

-- `sha1` is the hexadecimal SHA-1 of a content, `stub_text` the text that `writeStub` formats.
module _ (sha1 : Text → Text) (stub_text : RemoteNode → Text) (settings : Settings) (env : Env)
    (S : Source) where
  -- The directory case of `applyNode`.
  unfoldable pub apply_dir : RemoteNode → M S.State (Unit {0})
  apply_dir n = do
    λ w. or_disk_failed (mkdir_all n.path w.disk) w
    tally count_dir
    emit event_dir n.path 0 false
    set_rows (put_node env.now (dir_row n.path n.link_id n.parent_id env.now))

  abbrev skip : Text → ℕ → M S.State (Unit {0})
  skip path size = do tally count_skip; emit event_skip path size false

  -- `writeStubFor`
  abbrev new_stub : RemoteNode → M S.State (Unit {0})
  new_stub n = do
    λ w. or_disk_failed (mkdir_parent n.path w.disk) w
    _ ← commit_staged (n.path ++ stub_suffix) (stub_text n) none env.now
    tally count_stub
    emit event_stub n.path n.size false
    set_rows (put_node env.now (stub_row n env.now))

  abbrev stub_or_skip : Option File → RemoteNode → M S.State (Unit {0})
  stub_or_skip none n w = new_stub n w
  stub_or_skip (some f) n w = if f.is_dir then new_stub n w else skip n.path (length f.content) w

  unfoldable pub write_stub_for : RemoteNode → M S.State (Unit {0})
  write_stub_for n w = stub_or_skip (file_at n.path w.disk) n w

  -- The remote side is as it was when both sides last agreed.
  abbrev remote_unchanged : Option Node → RemoteNode → Bool
  remote_unchanged none n = false
  remote_unchanged (some base) n =
      not (is_empty base.content_hash)
      && not (is_empty n.digest)
      && equal_fold base.content_hash n.digest

  abbrev same_time : Time → Time → Bool
  same_time none mtime = true
  same_time (some t) mtime = same_second mtime (some t)

  -- `upToDate`
  unfoldable pub up_to_date : Node → RemoteNode → File → Bool
  up_to_date base n f =
      if ltb 0 n.size && not (length f.content == n.size)
      then false
      else if not (same_time n.modified f.mtime)
      then false
      else if not (is_empty n.digest)
      then equal_fold (sha1 f.content) n.digest
      else not (is_empty base.content_hash) && length f.content == base.size

  abbrev current_file : Option Node → RemoteNode → Option File → Bool
  current_file none n f = false
  current_file (some base) n none = false
  current_file (some base) n (some f) =
      base.mat == materialized && not f.is_dir && up_to_date base n f

  abbrev file_size : Option File → ℕ
  file_size none = 0
  file_size (some f) = length f.content

  -- The content that arrived, put at its path: the rest of `applyNode` behind `stageDownload`.
  abbrev warn_if : Bool → Text → M S.State (Unit {0})
  warn_if true path w = emit event_warn path 0 false w
  warn_if false path w = done tt w

  abbrev warn_digest : RemoteNode → Text → M S.State (Unit {0})
  warn_digest n sum = warn_if (not (is_empty n.digest) && not (equal_fold sum n.digest)) n.path

  abbrev record_download : RemoteNode → Text → File → M S.State (Unit {0})
  record_download n sum f = do
    tally (count_download (length f.content))
    emit event_download n.path (length f.content) false
    set_rows (put_node env.now (file_row n sum f env.now))

  unfoldable pub settle_download : RemoteNode → Text → M S.State (Unit {0})
  settle_download n content = do
    warn_digest n (sha1 content)
    preserve_local_if_conflicting env sha1 n.path (sha1 content)
    drop_stub n.path
    f ← commit_staged n.path content n.modified env.now
    record_download n (sha1 content) f

  abbrev pub stage : Text → M S.State (Unit {0})
  stage path w = or_disk_failed (stage_dirs path w.disk) w

  abbrev fetched : Option Text → M S.State Text
  fetched none w = fail remote_failed w
  fetched (some content) w = done content w

  abbrev pub fetch : Text → M S.State Text
  fetch link w = fetched (S.download link w.remote) w

  -- The deferred `endTransfer`, on every way out.
  abbrev pub ending : Text → Outcome S.State (Unit {0}) → Outcome S.State (Unit {0})
  ending path (done a w) = emit event_transfer_done path 0 false w
  ending path (fail e w) = fail e (world_of (emit event_transfer_done path 0 false w))

  unfoldable pub download_node : RemoteNode → M S.State (Unit {0})
  unfolding settle_download
  download_node n = do
    content ← fetch n.link_id
    emit event_transfer_start n.path n.size false
    λ w. ending n.path ((stage n.path >> settle_download n content) w)

  -- The tests of `applyNode` for a file, over the baseline and the entry at its path.
  unfoldable pub file_step : RemoteNode → Option Node → Option File → FileStep
  file_step n base there =
      if materialized_for settings n.size == not_materialized
      then leave_stub
      else if remote_unchanged base n
      then skip_file 0
      else if current_file base n there
      then skip_file (file_size there)
      else bring_down

  abbrev run_step : FileStep → RemoteNode → M S.State (Unit {0})
  run_step leave_stub n = write_stub_for n
  run_step (skip_file size) n = skip n.path size
  run_step bring_down n = download_node n

  -- The file case of `applyNode`
  unfoldable pub apply_file : RemoteNode → M S.State (Unit {0})
  apply_file n w = run_step (file_step n (get_node n.path w.rows) (file_at n.path w.disk)) n w

  -- `applyNode`
  unfoldable pub apply_node : RemoteNode → M S.State (Unit {0})
  unfolding apply_dir apply_file
  apply_node n w = if n.is_dir then apply_dir n w else apply_file n w
