-- ===== src/State/Nodes.antt =====
-- The table `nodes`: rows in any order, one for each path.
use p_drive.Base.{
  ℕ, ◌+◌, ◌<◌, Text, List, [], ◌∷◌, map, Bool, not, Option, none, some, ◌≡◌, refl, arith, text_eq,
  text_eq_iff, text_lt, sort, keep, length, if◌then◌else◌,
}
use p_drive.State.Rows.{Node, Row, row_of, scan_node, stored, word, scan_node-row_of}

-- `INSERT … ON CONFLICT(path) DO UPDATE`
unfoldable pub upsert : Row → List Row → List Row
upsert r [] = r ∷ []
upsert r (q ∷ rows) = if text_eq q.path r.path then r ∷ rows else q ∷ upsert r rows

-- `WHERE path = ?`
unfoldable pub find_row : Text → List Row → Option Row
find_row path [] = none
find_row path (q ∷ rows) = if text_eq q.path path then some q else find_row path rows

-- `WHERE node_id = ? LIMIT 1`
unfoldable pub find_by_id : Text → List Row → Option Row
find_by_id id [] = none
find_by_id id (q ∷ rows) = if text_eq q.node_id id then some q else find_by_id id rows

abbrev pub scanned : Option Row → Option Node
scanned none = none
scanned (some r) = some (scan_node r)

-- `PutNode`
unfoldable pub put_node : ℕ → Node → List Row → List Row
unfolding upsert row_of
put_node now n rows = upsert (row_of now n) rows

-- `GetNode`; a missing path is `none`.
unfoldable pub get_node : Text → List Row → Option Node
unfolding find_row scan_node
get_node path rows = scanned (find_row path rows)

-- `GetNodeByID`
unfoldable pub get_node_by_id : Text → List Row → Option Node
unfolding find_by_id scan_node
get_node_by_id id rows = scanned (find_by_id id rows)

-- `DeleteNode`
unfoldable pub delete_node : Text → List Row → List Row
delete_node path rows = keep (λ r. not (text_eq r.path path)) rows

-- `AllNodes`, `ORDER BY path`
unfoldable pub all_nodes : List Row → List Node
unfolding scan_node sort text_lt
all_nodes rows = map scan_node (sort (λ (q : Row) (r : Row). text_lt q.path r.path) rows)

-- `CountNodes`
unfoldable pub count_nodes : List Row → ℕ
count_nodes rows = length rows

-- PRIMARY KEY (path)
abbrev pub IsTable : List Row → Type 0
IsTable [] = Unit
IsTable (r ∷ rows) = (find_row r.path rows ≡ none) × IsTable rows

find_row-upsert :
    (r : Row) (path : Text) (rows : List Row)
    → find_row path (upsert r rows) ≡ (if text_eq r.path path then some r else find_row path rows)
unfolding find_row upsert
find_row-upsert r path [] = refl
find_row-upsert r path (q ∷ rows) = ground (
  arith,
  find_row-upsert r path rows,
  text_eq_iff q.path r.path,
  text_eq_iff q.path path,
  text_eq_iff r.path path,
)

pub find_row-keep :
    (path : Text) (p : Row → Bool) (rows : List Row)
    → IsTable rows
    → find_row path (keep p rows)
      ≡ elim (find_row path rows) [ none ↦ none | some r ↦ if p r then some r else none ]
unfolding find_row
find_row-keep path p [] t = refl
find_row-keep path p (q ∷ rows) t =
    ground (arith, find_row-keep path p rows t.1, text_eq_iff q.path path)

-- A stored node is read back under its path as `stored` says, and no other path is affected.
pub get_node-put_node :
    (now : ℕ) (n : Node) (path : Text) (rows : List Row)
    → n.local_inode < word
    → get_node path (put_node now n rows)
      ≡ (if text_eq n.path path then some (stored now n) else get_node path rows)
unfolding get_node put_node
get_node-put_node now n path rows h =
    ground (arith, find_row-upsert (row_of now n) path rows, scan_node-row_of now n h)

upsert-IsTable : (r : Row) (rows : List Row) → IsTable rows → IsTable (upsert r rows)
unfolding upsert find_row
upsert-IsTable r [] t = (refl, tt)
upsert-IsTable r (q ∷ rows) t = ground (
  arith,
  upsert-IsTable r rows t.1,
  find_row-upsert r q.path rows,
  text_eq_iff q.path r.path,
  text_eq_iff r.path q.path,
)

pub keep-IsTable : (p : Row → Bool) (rows : List Row) → IsTable rows → IsTable (keep p rows)
keep-IsTable p [] t = tt
keep-IsTable p (q ∷ rows) t =
    ground (arith, keep-IsTable p rows t.1, find_row-keep q.path p rows t.1)

-- The primary key holds: storing and deleting rows keeps one row for each path.
pub put_node-IsTable :
    (now : ℕ) (n : Node) (path : Text) (rows : List Row)
    → IsTable rows
    → IsTable (put_node now n rows) × IsTable (delete_node path rows)
unfolding put_node delete_node
put_node-IsTable now n path rows t = (upsert-IsTable (row_of now n) rows t, keep-IsTable _ rows t)

pub find_row-keep_path :
    (p : Text → Bool) (other : Text) (rows : List Row)
    → find_row other (keep (λ r. p r.path) rows) ≡ (if p other then find_row other rows else none)
unfolding find_row
find_row-keep_path p other [] = ground arith
find_row-keep_path p other (q ∷ rows) =
    ground (arith, find_row-keep_path p other rows, text_eq_iff q.path other)

-- A deleted path has no row any more, and no other path is affected.
pub get_node-delete_node :
    (path other : Text) (rows : List Row)
    → get_node other (delete_node path rows)
      ≡ (if text_eq other path then none else get_node other rows)
unfolding get_node delete_node
get_node-delete_node path other rows =
    ground (arith, find_row-keep_path (λ q. not (text_eq q path)) other rows)

count-upsert :
    (r : Row) (rows : List Row)
    → length (upsert r rows) ≡ length rows + elim (find_row r.path rows) [ none ↦ 1 | some q ↦ 0 ]
unfolding upsert find_row
count-upsert r [] = refl
count-upsert r (q ∷ rows) = ground (arith, count-upsert r rows)

-- The number of tracked nodes grows by one where the path is new, and stays where it is known.
pub count_nodes-put_node :
    (now : ℕ) (n : Node) (rows : List Row)
    → count_nodes (put_node now n rows)
      ≡ count_nodes rows + elim (get_node n.path rows) [ none ↦ 1 | some m ↦ 0 ]
unfolding count_nodes put_node get_node
count_nodes-put_node now n rows = ground (arith, count-upsert (row_of now n) rows)
