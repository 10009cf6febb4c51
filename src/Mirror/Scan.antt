-- ===== src/Mirror/Scan.antt =====
-- internal/mirror/scan.go: the walk over the sync folder. It is the walk over the entries of the
-- folder, parents before what is below them; a directory that is passed over hides all that is
-- below it. Unreadable directories, symbolic links and devices are no entries of the modelled disk.
pub mod Laws
use p_drive.Base.{
  ℕ, ◌/◌, Text, List, [], ◌∷◌, ◌++◌, Bool, true, false, not, ◌&&◌, ◌||◌, Option, none, some, any,
  is_empty, length, text_eq, has_prefix, split_on, slash, ◌==◌, if◌then◌else◌, equal_fold, cut_last,
}
use p_drive.State.Rows.{Time, Node, Row, second}
use p_drive.State.Nodes.{get_node}
use p_drive.Paths.{ignored, valid_path, excluded}
use p_drive.Mirror.Disk.{File, Disk, file_at, is_under}
use p_drive.Mirror.World.{
  LocalNode, Settings, Source, World, M, Outcome, done, fail, Err, disk_failed, ◌>>=◌, ◌>>◌,
  or_warn,
}

abbrev pub base_name : Option (Text × Text) → Text → Text
base_name none path = path
base_name (some (dir, name)) path = name

-- What the function given to `WalkDir` does with one entry: it lists it, or leaves it out, or
-- leaves it out with all that is below it (`SkipDir`).
pub data Visit : Type 0 where
  listed left_out skip_dir : Visit

unfoldable pub visit : List Text → Text → File → Visit
visit exclude path f =
    let skipped = if f.is_dir then skip_dir else left_out in
    if ignored (base_name (cut_last slash path) path)
    then skipped
    else if not (valid_path path)
    then left_out
    else if excluded exclude path
    then skipped
    else listed

abbrev pub local_node : Text → File → LocalNode
local_node path f = record {
  path = path;
  is_dir = f.is_dir;
  size = length f.content;
  mtime = f.mtime;
  inode = f.inode;
  hash = [];
}

abbrev pub Local : Type 0
Local = List (Text × LocalNode)

-- The walk, with the directories that it has skipped so far.
unfoldable pub walk_dir : List Text → List Text → Disk → Local
walk_dir exclude skipped [] = []
walk_dir exclude skipped ((path, f) ∷ disk) =
    let below = walk_dir exclude skipped disk in
    let pruned = walk_dir exclude (path ∷ skipped) disk in
    if any (λ dir. is_under dir path) skipped then below else elim (visit exclude path f) [
      | listed ↦ (path, local_node path f) ∷ below
      | left_out ↦ below
      | skip_dir ↦ pruned
    ]

-- `Scan`
unfoldable pub scan : List Text → Disk → Local
unfolding walk_dir
scan exclude disk = walk_dir exclude [] disk

unfoldable pub local_at : Text → Local → Option LocalNode
local_at path [] = none
local_at path ((p, n) ∷ local) = if text_eq p path then some n else local_at path local

-- `sameSecond`
unfoldable pub same_second : Time → Time → Bool
same_second none b = false
same_second (some a) none = false
same_second (some a) (some b) = a / second == b / second

module _ (sha1 : Text → Text) where
  -- `hashFile`: `none` where there is no readable file.
  unfoldable pub hash_file : Text → Disk → Option Text
  hash_file path disk = elim (file_at path disk) [
    | none ↦ none
    | some f ↦ if f.is_dir then none else some (sha1 f.content)
  ]

  abbrev proves_unchanged : Option Node → LocalNode → Bool
  proves_unchanged none n = false
  proves_unchanged (some base) n =
      not (is_empty base.content_hash)
      && base.size == n.size
      && same_second base.local_mtime n.mtime

  abbrev hash_of_base : Option Node → Text
  hash_of_base none = []
  hash_of_base (some base) = base.content_hash

  abbrev with_hash : LocalNode → Option Text → Option LocalNode
  with_hash n none = none
  with_hash n (some sum) = some (record n { hash = sum })

  -- `hashIfNeeded`: the node with its hash filled in, `none` where the file cannot be read.
  unfoldable pub hash_if_needed : Disk → Option Node → LocalNode → Option LocalNode
  hash_if_needed disk base n =
      if n.is_dir
      then some n
      else if proves_unchanged base n
      then some (record n { hash = hash_of_base base })
      else with_hash n (hash_file n.path disk)

  abbrev pub hashed_or : LocalNode → Option LocalNode → LocalNode
  hashed_or n none = n
  hashed_or n (some m) = m

  -- The loop of `SyncBoth` over the scan; a file that cannot be read keeps its empty hash.
  unfoldable pub hash_all : List Row → Disk → Local → Local
  hash_all rows disk [] = []
  hash_all rows disk ((path, n) ∷ local) =
      (path, hashed_or n (hash_if_needed disk (get_node path rows) n)) ∷ hash_all rows disk local
