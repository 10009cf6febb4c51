-- ===== src/Mirror/Pull/Remove.antt =====
-- The removal of a node that is gone remotely: `trashLocal` (local.go), `deleteNode`,
-- `deleteByNodeID` and `reapUnseen` (mirror.go).
pub mod Laws
use p_drive.Base.{
  ℕ, ◌+◌, Text, List, [], ◌∷◌, ◌++◌, Bool, true, false, not, Option, none, some, text_eq, any, keep,
  length, ltb, sort, slash, if◌then◌else◌,
}
use p_drive.State.Rows.{Node, Row}
use p_drive.State.Nodes.{get_node_by_id, delete_node, all_nodes, count_nodes}
use p_drive.State.Subtree.{delete_subtree}
use p_drive.Paths.{stub_suffix}
use p_drive.Mirror.Disk.{File, Disk, file_at, write_at, is_under, remove_empty_parents}
use p_drive.Mirror.World.{
  Settings, Env, Source, World, M, done, fail, ◌>>=◌, ◌>>◌, emit, tally, set_rows, or_warn,
  for_each, stop_if, Result, event_delete,
}
use p_drive.Mirror.Guards.{check_deletion_cliff}

abbrev count_deleted : Result → Result
count_deleted r = record r { deleted = r.deleted + 1 }

-- `filepath.Join(trashDir, stamp, rel)`, below the trash directory
abbrev pub trash_path : Text → Text → Text
trash_path stamp rel = stamp ++ (slash ∷ rel)

-- The entries of a path and of all beneath it, under their new names.
unfoldable pub move_out : Text → Text → Disk → Disk → Disk
move_out stamp dir [] trash = trash
move_out stamp dir ((p, f) ∷ disk) trash =
    let rest = move_out stamp dir disk trash in
    if is_under dir p then write_at (trash_path stamp p) f rest else rest

-- `trashLocal`
unfoldable pub trash_local_path : Env → Text → {R : Type 0} → World R → World R
unfolding move_out
trash_local_path env path w = record w {
  disk = keep (λ e. not (is_under path (e.0))) w.disk;
  local_trash = move_out env.trash_stamp path w.disk w.local_trash;
}

abbrev pub trash_if_there : Option File → Env → Text → {R : Type 0} → World R → World R
trash_if_there none env path w = w
trash_if_there (some f) env path w = trash_local_path env path w

-- One round of the loop of `deleteNode` over the real path and the stub's.
abbrev pub trash_candidate : Env → Text → {R : Type 0} → World R → World R
trash_candidate env path w = trash_if_there (file_at path w.disk) env path w

abbrev pub drop_rows : (Text → Text → Bool) → Node → List Row → List Row
drop_rows like n rows =
    if n.is_dir then delete_subtree like n.path rows else delete_node n.path rows

abbrev deepest_first : List Node → List Node
deepest_first nodes = sort (λ (a : Node) (b : Node). ltb (length b.path) (length a.path)) nodes

abbrev unseen : List Text → List Row → List Node
unseen seen rows = keep (λ n. not (any (λ p. text_eq p n.path) seen)) (all_nodes rows)

module _ (like : Text → Text → Bool) (settings : Settings) (env : Env) {R : Type 0} where
  -- `deleteNode`
  unfoldable pub delete_local : Node → M R (Unit {0})
  delete_local n = do
    λ w. done tt (trash_candidate env (n.path ++ stub_suffix) (trash_candidate env n.path w))
    set_rows (drop_rows like n)
    λ w. done tt (record w { disk = remove_empty_parents n.path w.disk })
    tally count_deleted
    emit event_delete n.path 0 false

  abbrev delete_found : Option Node → M R (Unit {0})
  delete_found none w = done tt w
  delete_found (some n) w = delete_local n w

  -- `deleteByNodeID`
  unfoldable pub delete_by_node_id : Text → M R (Unit {0})
  unfolding delete_local
  delete_by_node_id id w = delete_found (get_node_by_id id w.rows) w

  abbrev delete_all : List Node → M R (Unit {0})
  delete_all nodes = for_each (λ n. or_warn n.path (delete_local n)) nodes

  -- `reapUnseen`
  unfoldable pub reap_unseen : List Text → M R (Unit {0})
  unfolding delete_local
  reap_unseen seen w =
      let gone = unseen seen w.rows in
      (do
        stop_if (check_deletion_cliff settings (count_nodes w.rows) (length gone))
        delete_all (deepest_first gone))
        w
