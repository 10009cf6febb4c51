-- ===== src/Mirror/Pull/Materialize.antt =====
-- internal/mirror/mirror.go, Materialize: a stub's content is fetched.
pub mod Laws
use p_drive.Base.{ℕ, Text, List, Bool, true, false, Option, none, some, length, ◌==◌, if◌then◌else◌}
use p_drive.State.Rows.{Node, Row, materialized}
use p_drive.State.Nodes.{get_node, put_node}
use p_drive.Mirror.Disk.{File}
use p_drive.Mirror.World.{
  RemoteNode, Settings, Env, Source, World, M, Outcome, done, fail, not_mirrored, is_directory,
  already_downloaded, ◌>>=◌, ◌>>◌, emit, tally, set_rows, event_download, event_transfer_start,
}
use p_drive.Mirror.Pull.{fetch, stage, ending, commit_staged, drop_stub, count_download}

-- The row of a stub whose content was fetched.
unfoldable pub materialized_row : Node → Text → File → ℕ → Node
materialized_row n sum f now = record n {
  content_hash = sum;
  size = length f.content;
  local_mtime = f.mtime;
  local_inode = f.inode;
  mat = materialized;
  synced_at = some now;
}

module _ (sha1 : Text → Text) (stub_text : RemoteNode → Text) (settings : Settings) (env : Env)
    (S : Source) where
  abbrev pub record_content : Node → Text → File → M S.State (Unit {0})
  record_content n content f = do
    drop_stub n.path
    tally (count_download (length content))
    emit event_download n.path (length content) false
    set_rows (put_node env.now (materialized_row n (sha1 content) f env.now))

  abbrev pub settle_content : Node → Text → M S.State (Unit {0})
  settle_content n content = do
    λ w. ending sha1 stub_text settings env S n.path (stage sha1 stub_text settings env S n.path w)
    f ← commit_staged n.path content n.local_mtime env.now
    record_content n content f

  abbrev pub fetch_content : Node → M S.State (Unit {0})
  fetch_content n = do
    content ← fetch sha1 stub_text settings env S n.node_id
    emit event_transfer_start n.path n.size false
    settle_content n content

  abbrev pub materialize_known : Option Node → M S.State (Unit {0})
  materialize_known none w = fail not_mirrored w
  materialize_known (some n) w =
      if n.is_dir
      then fail is_directory w
      else if n.mat == materialized
      then fail already_downloaded w
      else fetch_content n w

  -- `Materialize`
  unfoldable pub materialize : Text → M S.State (Unit {0})
  unfolding materialized_row
  materialize path w = materialize_known (get_node path w.rows) w
