-- ===== src/Mirror/Tests.antt =====
-- The theorems of the engine at concrete folders, rows and remote sides.
use p_drive.Base.{
  ℕ, suc, ◌*◌, ◌<◌, ◌≤◌, Text, codes, List, [], ◌∷◌, Bool, true, false, none, some, ◌≡◌, ◌↔◌, ◌⊎◌,
  inl, inr, refl, arith, text_eq, any, cut_last, has_suffix, sort, text_lt,
}
use p_drive.State.Rows.{Node, Row, materialized, not_materialized, row_of, scan_node, word, stored}
use p_drive.State.Nodes.{
  get_node, get_node_by_id, put_node, delete_node, find_row, count_nodes, all_nodes, find_by_id,
}
use p_drive.Paths.{ignored, scratch_dir, conflict_name}
use p_drive.Mirror.Disk.{File, Disk, file_at, directory, stage_dirs, write_at, make_dirs, dirs_to}
use p_drive.Mirror.World.{
  LocalNode, RemoteNode, Settings, Env, Source, World, done, Change, change_delete, no_result,
  world_of,
}
use p_drive.Mirror.World.Laws.{StoppedBy}
use p_drive.Mirror.Guards.{check_deletion_cliff, deletion_cliff, min_deletions_for_guard}
use p_drive.Mirror.Guards.Laws.{check_deletion_cliff-none}
use p_drive.Mirror.Scan.{scan, local_at, hash_if_needed, same_second}
use p_drive.Mirror.Keep.{preserve_local_if_conflicting}
use p_drive.Mirror.Keep.Laws.{IsKept, preserve_local_if_conflicting-keeps}
use p_drive.Mirror.Pull.{apply_node}
use p_drive.Mirror.Pull.Materialize.{materialize}
use p_drive.Mirror.Pull.Materialize.Laws.{IsMaterialized, materialize-IsMaterialized}
use p_drive.Mirror.Pull.Download.{IsSafe, apply_node-IsSafe}
use p_drive.Mirror.Pull.Remove.{delete_local, trash_path}
use p_drive.Mirror.Pull.Remove.Laws.{delete_local-trashes}
use p_drive.Mirror.Pull.Passes.{apply_events}
use p_drive.Mirror.Pull.Passes.Laws.{tracked_deletions, apply_events-guarded}
use p_drive.Mirror.Push.Moves.{try_candidates, find_local_deletions, detect_moves, unmoved}
use p_drive.Mirror.Push.Moves.Laws.{find_local_deletions-hidden, detect_moves-IsSearch, IsSearch}
use p_drive.Mirror.Push.Parents.{create_remote_dir, remote_parent_id}
use p_drive.Mirror.Push.Parents.Laws.{EndsInTime, remote_parent_id-EndsInTime}
use p_drive.Mirror.Push.{push, push_node, apply_move, moved_row}
use p_drive.Mirror.Push.Laws.{push-guarded}
use p_drive.Mirror.Push.Sent.{after_upload, push_node-sends_once}
use p_drive.Mirror.Push.Moved.{after_move, apply_move-forgets_edit}

abbrev sha1 : Text → Text
sha1 content = b'h' ∷ content

abbrev stub_text : RemoteNode → Text
stub_text n = n.link_id

abbrev like : Text → Text → Bool
like pattern text = text_eq pattern text

abbrev settings : Settings
settings = record {
  deletion_guard_percent = 50;
  max_auto_download_size = 0;
  exclude = codes "Private" ∷ [];
}

abbrev env : Env
env = record {
  now = 9000000000;
  conflict_stamp = codes "2026-07-20";
  trash_stamp = codes "1";
  scan_stamp = codes "2";
  hostname = codes "pc";
}

abbrev path : Text
path = codes "a.txt"

abbrev file : File
file = record { is_dir = false; content = codes "new"; mtime = some 5000000000; inode = 7 }

abbrev base : Text → Text → Node
base p link = record {
  path = p;
  node_id = link;
  parent_id = codes "root";
  is_dir = false;
  revision_id = [];
  content_hash = codes "hold";
  size = 3;
  local_mtime = some 4000000000;
  local_inode = 7;
  mat = materialized;
  synced_at = some 0;
}

abbrev row : Text → Text → Row
row p link = record {
  path = p;
  node_id = link;
  parent_id = codes "root";
  is_dir = 0;
  revision_id = [];
  content_hash = codes "hold";
  size = 3;
  local_mtime_ns = 4000000000;
  local_inode = p_drive.State.Rows.ℤ.pos 7;
  mat = 1;
  synced_at = 8;
}

abbrev rows_of : Text → List Row
rows_of [] = []
rows_of (c ∷ s) = row (c ∷ []) (c ∷ []) ∷ rows_of s

abbrev changes_of : Text → List Change
changes_of [] = []
changes_of (c ∷ s) =
    record { kind = change_delete; link_id = c ∷ []; parent_id = [] } ∷ changes_of s

-- A remote side that reports the deletion of twelve nodes, and takes every request.
abbrev cloud : Source
cloud = record {
  State = ℕ;
  root_link_id = codes "root";
  volume_id = codes "v";
  share_id = codes "s";
  latest_event_id = λ n. some (codes "e");
  poll_events = λ cursor n. some (record {
    cursor = codes "e2";
    refresh = false;
    changes = changes_of (codes "abcdefghijkl");
  });
  walk = λ n. ([], true);
  list_dir = λ link prefix n. some [];
  link_parent = λ link n. some (codes "root");
  download = λ link n. some (codes "remote");
  upload = λ parent name time content n. (suc n, some (codes "up"));
  mkdir = λ parent name n. (suc n, some (codes "dir"));
  trash = λ link is_dir n. (suc n, true);
  move = λ link parent name is_dir n. (suc n, true);
}

abbrev scanned : Text → LocalNode
scanned hash = record {
  path = path;
  is_dir = false;
  size = 3;
  mtime = some 5000000000;
  inode = 7;
  hash = hash;
}

abbrev world : Disk → List Row → List (Text × LocalNode) → World ℕ
world disk rows before = record {
  disk = disk;
  next_inode = 100;
  local_trash = [];
  rows = rows;
  meta = [];
  conflict_log = [];
  remote = 0;
  events = [];
  result = no_result;
  local_before = before;
  move_targets = [];
}

-- The edited file, its row, and the scan of it.
abbrev edited : World ℕ
edited =
    world ((path, file) ∷ []) (row path (codes "n1") ∷ []) ((path, scanned (codes "hnew")) ∷ [])

abbrev remote_node : RemoteNode
remote_node = record {
  link_id = codes "n1";
  parent_id = codes "root";
  name = path;
  path = path;
  is_dir = false;
  size = 6;
  modified = some 6000000000;
  digest = [];
}

apply_node-IsSafe_example :
    IsSafe sha1
      (get_node path edited.rows)
      (some (codes "remote"))
      path
      (conflict_name path (codes "2026-07-20") (codes "pc"))
      file
      (world_of (apply_node sha1 stub_text settings env cloud remote_node edited)).disk
unfolding file_at text_eq local_at
apply_node-IsSafe_example =
    apply_node-IsSafe sha1 stub_text settings env cloud remote_node file (scanned (codes "hnew"))
      edited refl refl refl refl (inr refl)

preserve_local_if_conflicting-keeps_example :
    IsKept sha1 path
      (conflict_name path (codes "2026-07-20") (codes "pc"))
      (codes "hremote")
      file
      (get_node path edited.rows)
      (preserve_local_if_conflicting env sha1 path (codes "hremote") edited)
unfolding file_at text_eq local_at
preserve_local_if_conflicting-keeps_example =
    preserve_local_if_conflicting-keeps sha1 env path (codes "hremote") file edited
      (scanned (codes "hnew")) refl refl refl refl (inr refl)

delete_local-trashes_example :
    let w' = world_of (delete_local like settings env (base path (codes "n1")) edited) in
    (file_at (trash_path env.trash_stamp path) w'.local_trash ≡ some file)
    × (file_at path w'.disk ≡ none)
    × (get_node path w'.rows ≡ none)
unfolding file_at text_eq
delete_local-trashes_example =
    delete_local-trashes like settings env (base path (codes "n1")) file edited refl refl

check_deletion_cliff-none_example :
    let tracked : ℕ = 20 in
    (check_deletion_cliff settings tracked 12 ≡ none) ↔ (
      (12 < min_deletions_for_guard)
      ⊎ (100 ≤ settings.deletion_guard_percent)
      ⊎ (tracked ≡ 0)
      ⊎ (12 * 100 < settings.deletion_guard_percent * tracked))
check_deletion_cliff-none_example = check_deletion_cliff-none settings 20 12 12 refl

abbrev nothing : Disk
nothing = []

-- Twelve tracked files, all of them deleted remotely.
abbrev twelve : World ℕ
twelve = world [] (rows_of (codes "abcdefghijkl")) []

apply_events-guarded_example :
    StoppedBy twelve deletion_cliff
      (apply_events sha1 stub_text like settings env cloud (codes "e1") twelve)
unfolding tracked_deletions get_node_by_id find_by_id count_nodes check_deletion_cliff text_eq
    scan_node
apply_events-guarded_example =
    apply_events-guarded sha1 stub_text like settings env cloud (codes "e1") twelve
      (record { cursor = codes "e2"; refresh = false; changes = changes_of (codes "abcdefghijkl") })
      deletion_cliff refl refl refl

-- The folder was emptied.
push-guarded_example :
    StoppedBy twelve deletion_cliff (push sha1 stub_text like settings env cloud [] twelve)
unfolding find_local_deletions detect_moves unmoved all_nodes count_nodes check_deletion_cliff
    text_eq scan_node sort local_at text_lt file_at try_candidates
push-guarded_example =
    push-guarded sha1 stub_text like settings env cloud [] twelve deletion_cliff refl

push_node-sends_once_example :
    let w' =
      after_upload sha1 stub_text like settings env cloud path
        (scanned (codes "hnew"))
        (codes "root")
        (codes "up")
        1
        edited in
    (push_node sha1 stub_text like settings env cloud path (scanned []) none edited ≡ done tt w')
    × (push_node sha1 stub_text like settings env cloud path (scanned []) (get_node path w'.rows) w'
        ≡ done tt w')
unfolding file_at text_eq remote_parent_id cut_last
push_node-sends_once_example =
    push_node-sends_once sha1 stub_text like settings env cloud (scanned []) file none
      (codes "root") (codes "up") 1 edited refl refl (omega arith) refl refl refl refl refl refl

-- The file as it is, at the path that it was renamed to.
abbrev renamed_path : Text
renamed_path = codes "b.txt"

abbrev renamed_scan : LocalNode
renamed_scan = record (scanned []) { path = renamed_path }

abbrev renamed_world : World ℕ
renamed_world = world ((renamed_path, file) ∷ []) (row path (codes "n1") ∷ []) []

abbrev next_pass : World ℕ
next_pass =
    record (after_move sha1 stub_text like settings env cloud (base path (codes "n1")) renamed_path
      renamed_scan (codes "root") 1 renamed_world) {
        local_before = (renamed_path, record renamed_scan { hash = codes "hold" }) ∷ [];
      }

apply_move-forgets_edit_example :
    (apply_move sha1 stub_text like settings env cloud
        (base path (codes "n1"))
        renamed_path
        renamed_scan
        renamed_world
      ≡ done tt (
          after_move sha1 stub_text like settings env cloud
            (base path (codes "n1"))
            renamed_path
            renamed_scan
            (codes "root")
            1
            renamed_world))
    × (preserve_local_if_conflicting env sha1 renamed_path (codes "hremote") next_pass
        ≡ done tt next_pass)
unfolding file_at text_eq remote_parent_id cut_last hash_if_needed get_node put_node local_at
    delete_node moved_row same_second
apply_move-forgets_edit_example =
    apply_move-forgets_edit sha1 stub_text like settings env cloud (base path (codes "n1"))
      renamed_path (codes "root") (codes "hremote") renamed_scan 4999999999 1 renamed_world
      next_pass refl refl refl (omega arith) refl refl refl refl refl

abbrev swap_file : Text
swap_file = codes "notes.swp"

find_local_deletions-hidden_example :
    any
      (λ m. text_eq m.path swap_file)
      (find_local_deletions
        (row swap_file (codes "n1") ∷ [])
        (scan settings.exclude ((swap_file, file) ∷ []))
        ((swap_file, file) ∷ []))
    ≡ true
unfolding get_node find_row scan_node text_eq ignored cut_last has_suffix
find_local_deletions-hidden_example =
    find_local_deletions-hidden settings.exclude (row swap_file (codes "n1") ∷ [])
      ((swap_file, file) ∷ []) swap_file (scan_node (row swap_file (codes "n1"))) refl refl
      (inl refl)

detect_moves-IsSearch_example : IsSearch (row path (codes "n1") ∷ []) (
    detect_moves sha1 renamed_world.disk
      (row path (codes "n1") ∷ [])
      ((renamed_path, renamed_scan) ∷ [])
      (base path (codes "n1") ∷ []))
detect_moves-IsSearch_example =
    detect_moves-IsSearch sha1 renamed_world.disk (row path (codes "n1") ∷ [])
      ((renamed_path, renamed_scan) ∷ []) (base path (codes "n1") ∷ [])

remote_parent_id-EndsInTime_example :
    EndsInTime (create_remote_dir env cloud 6 (codes "a/b/c") edited)
    × EndsInTime (remote_parent_id env cloud (codes "a/b/c") edited)
remote_parent_id-EndsInTime_example =
    remote_parent_id-EndsInTime env cloud 6 (codes "a/b/c") edited (omega arith)

-- A file of the user's own at the path of a stub.
abbrev stubbed : Node
stubbed = record {
  path = path;
  node_id = codes "n1";
  parent_id = codes "root";
  is_dir = false;
  revision_id = [];
  content_hash = [];
  size = 6;
  local_mtime = some 6000000000;
  local_inode = 0;
  mat = not_materialized;
  synced_at = some 8000000000;
}

abbrev own_file : World ℕ
own_file = world ((path, file) ∷ []) (row_of 0 stubbed ∷ []) []

materialize-IsMaterialized_example :
    IsMaterialized sha1 stub_text settings env cloud stubbed
      (codes "remote")
      ((path, file) ∷ (scratch_dir, directory) ∷ [])
      own_file
      (materialize sha1 stub_text settings env cloud path own_file)
unfolding get_node find_row scan_node row_of text_eq file_at stage_dirs write_at make_dirs dirs_to
    cut_last
materialize-IsMaterialized_example =
    materialize-IsMaterialized sha1 stub_text settings env cloud stubbed (codes "remote")
      ((path, file) ∷ (scratch_dir, directory) ∷ []) own_file refl refl refl refl refl refl
      (omega arith)
