-- ===== src/Mirror/Push/Parents.antt =====
-- internal/mirror/push.go: the remote folders on the way to a path.
pub mod Laws
use p_drive.Base.{
  ℕ, zero, suc, ◌+◌, Text, List, [], ◌∷◌, Bool, true, false, Option, none, some, cut_last, slash,
  length, if◌then◌else◌,
}
use p_drive.State.Rows.{Node, Row}
use p_drive.State.Nodes.{get_node, put_node}
use p_drive.Mirror.World.{
  Source, Env, World, M, Outcome, done, fail, Err, out_of_fuel, remote_failed, unresolved_parent,
  ◌>>=◌, ◌>>◌, emit, tally, set_rows, event_mkdir_remote,
}
use p_drive.Mirror.Scan.{base_name}
use p_drive.Mirror.Pull.{count_dir, dir_row}

-- `path[strings.LastIndex(path, "/")+1:]`, or the whole path
abbrev pub name_of : Text → Text
name_of path = base_name (cut_last slash path) path

module _ (env : Env) (S : Source) where
  -- What `createRemoteDir` does once the request is answered.
  abbrev pub record_dir : Text → Text → Option Text → M S.State (Unit {0})
  record_dir path parent none w = fail remote_failed w
  record_dir path parent (some link) w =
      (do
        tally count_dir
        emit event_mkdir_remote path 0 false
        set_rows (put_node env.now (dir_row path link parent env.now)))
        w

  abbrev pub make_remote_dir : Text → Text → M S.State (Unit {0})
  make_remote_dir path parent w =
      let (remote, answer) = S.mkdir parent (name_of path) w.remote in
      record_dir path parent answer (record w { remote = remote })

  -- The last lines of `remoteParentID`.
  abbrev pub resolved_parent : Option Node → M S.State Text
  resolved_parent none w = fail unresolved_parent w
  resolved_parent (some n) w = done n.node_id w

  abbrev pub create_parent : (Text → M S.State (Unit {0})) → Text → M S.State Text
  create_parent create parent w = elim (create parent w) [
    | done u w' ↦ resolved_parent (get_node parent w'.rows) w'
    | fail e w' ↦ fail e w'
  ]

  abbrev pub known_parent : (Text → M S.State (Unit {0})) → Text → Option Node → M S.State Text
  known_parent create parent none w = create_parent create parent w
  known_parent create parent (some n) w = elim n.is_dir [
    | true ↦ done n.node_id w
    | false ↦ create_parent create parent w
  ]

  abbrev pub parent_of : (Text → M S.State (Unit {0})) → Option (Text × Text) → M S.State Text
  parent_of create none w = done S.root_link_id w
  parent_of create (some (parent, name)) w = known_parent create parent (get_node parent w.rows) w

  -- `createRemoteDir`, which `remoteParentID` calls for a folder that is not known. The fuel is
  -- above the length of the path, which each call shortens.
  unfoldable pub create_remote_dir : ℕ → Text → M S.State (Unit {0})
  create_remote_dir zero path w = fail out_of_fuel w
  create_remote_dir (suc fuel) path w =
      (parent_of (create_remote_dir fuel) (cut_last slash path) >>= make_remote_dir path) w

  -- `remoteParentID`
  unfoldable pub remote_parent_id : Text → M S.State Text
  unfolding create_remote_dir
  remote_parent_id path w = parent_of (create_remote_dir (length path)) (cut_last slash path) w
