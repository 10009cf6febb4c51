-- ===== src/Mirror/Push/Moves.antt =====
-- internal/mirror/push.go: what has left the folder, and what has only moved within it.
pub mod Laws
use p_drive.Base.{
  ℕ, Text, List, [], ◌∷◌, ◌++◌, Bool, true, false, not, ◌&&◌, ◌||◌, Option, none, some, any, keep,
  sort, length, ltb, is_empty, text_eq, equal_fold, ◌==◌, if◌then◌else◌,
}
use p_drive.State.Rows.{Node, Row, not_materialized}
use p_drive.State.Nodes.{all_nodes, get_node}
use p_drive.Paths.{stub_suffix}
use p_drive.Mirror.Disk.{Disk, file_at}
use p_drive.Mirror.World.{LocalNode}
use p_drive.Mirror.Scan.{Local, local_at, hash_if_needed, hashed_or}

abbrev pub present {ℓ} : {A : Type ℓ} → Option A → Bool
present none = false
present (some a) = true

-- The condition of the loop of `findLocalDeletions`.
unfoldable pub gone : Local → Disk → Node → Bool
gone local disk n =
    if present (local_at n.path local)
    then false
    else if n.mat == not_materialized
    then not (
        present (local_at (n.path ++ stub_suffix) local)
        || present (file_at (n.path ++ stub_suffix) disk))
    else true

-- `findLocalDeletions`, the longest paths first
unfoldable pub find_local_deletions : List Row → Local → Disk → List Node
unfolding gone sort
find_local_deletions rows local disk =
    sort (λ a b. ltb (length b.path) (length a.path)) (keep (gone local disk) (all_nodes rows))

-- What the loops of `detectMoves` have found: the moves, the destinations that are taken
-- (`claimed`, which `m.moveTargets` copies), and the scan with the hashes filled in on the way.
pub record Search : Type 0 where
  pub moves : List (Node × Text)
  pub claimed : List Text
  pub local : Local

-- A local file that the baseline does not know.
abbrev is_candidate : List Row → Text × LocalNode → Bool
is_candidate rows (path, n) = not (present (get_node path rows)) && not n.is_dir

unfoldable pub candidates : List Row → Local → Local
candidates rows local = keep (is_candidate rows) local

unfoldable pub set_local : Text → LocalNode → Local → Local
set_local path n [] = []
set_local path n ((p, m) ∷ local) =
    if text_eq p path then (p, n) ∷ local else (p, m) ∷ set_local path n local

abbrev has_move : Node → List (Node × Text) → Bool
has_move n moves = any (λ m. text_eq (m.0).path n.path) moves

module _ (sha1 : Text → Text) (disk : Disk) where
  abbrev with_known_hash : LocalNode → LocalNode
  with_known_hash n =
      if is_empty n.hash then hashed_or sha1 n (hash_if_needed sha1 disk none n) else n

  -- The two cases of the `switch`, with the candidate as they leave it.
  unfoldable pub match_candidate : Node → LocalNode → Bool × LocalNode
  match_candidate old n =
      let hashed = with_known_hash n in
      if not (old.local_inode == 0) && n.inode == old.local_inode
      then (true, n)
      else if not (is_empty old.content_hash) && n.size == old.size
      then (equal_fold hashed.hash old.content_hash, hashed)
      else (false, n)

  abbrev take_match : Node → Text → Search → Bool × LocalNode → (Search → Search) → Search
  take_match old path s (true, n) rest = record {
    moves = s.moves ++ ((old, path) ∷ []);
    claimed = path ∷ s.claimed;
    local = set_local path n s.local;
  }
  take_match old path s (false, n) rest = rest (record s { local = set_local path n s.local })

  abbrev current : LocalNode → Option LocalNode → LocalNode
  current n none = n
  current n (some m) = m

  -- The inner loop, over the destinations.
  unfoldable pub try_candidates : Node → Local → Search → Search
  try_candidates old [] s = s
  try_candidates old ((path, n) ∷ others) s =
      let skipped = try_candidates old others s in
      if any (λ c. text_eq c path) s.claimed
      then skipped
      else take_match old path s (match_candidate old (current n (local_at path s.local)))
          (try_candidates old others)

  -- The outer loop, over what has disappeared.
  unfoldable pub match_all : Local → List Node → Search → Search
  match_all cands [] s = s
  match_all cands (old ∷ deleted) s =
      match_all cands deleted (if old.is_dir then s else try_candidates old cands s)

  -- `detectMoves`
  unfoldable pub detect_moves : List Row → Local → List Node → Search
  unfolding match_all candidates
  detect_moves rows local deleted =
      match_all (candidates rows local) deleted (record { moves = []; claimed = []; local = local })

-- What `push` counts for the guard, and sends to the trash.
unfoldable pub unmoved : List Node → List (Node × Text) → List Node
unmoved deleted moves = keep (λ n. not (has_move n moves)) deleted
