-- ===== src/State/Rows.antt =====
-- `Node`, its row in the table `nodes`, and the conversions of `PutNode` and `scanNode`.
use p_drive.Base.{
  ℕ, ◌-◌, ◌*◌, ◌/◌, ◌^◌, ◌<◌, Text, Bool, true, false, not, Option, none, some, ◌≡◌, arith, ltb,
  ◌==◌, if◌then◌else◌,
}

-- A `time.Time`: `none` is the zero time, and the number counts nanoseconds since 1970 (times
-- before that do not occur).
abbrev pub Time : Type 0
Time = Option ℕ

-- `Materialization`, an `int` with two constants
abbrev pub Materialization : Type 0
Materialization = ℕ

abbrev pub not_materialized : Materialization
not_materialized = 0

abbrev pub materialized : Materialization
materialized = 1

-- `Node`
pub record Node : Type 0 where
  pub path : Text
  pub node_id : Text
  pub parent_id : Text
  pub is_dir : Bool
  pub revision_id : Text
  pub content_hash : Text
  pub size : ℕ
  pub local_mtime : Time
  pub local_inode : ℕ
  pub mat : Materialization
  pub synced_at : Time

-- An `int64`; `negsuc n` is -(n + 1).
pub data ℤ : Type 0 where
  pos : ℕ → ℤ
  negsuc : ℕ → ℤ

-- A row of the table `nodes`, with the column types of the schema.
pub record Row : Type 0 where
  pub path : Text
  pub node_id : Text
  pub parent_id : Text
  pub is_dir : ℕ
  pub revision_id : Text
  pub content_hash : Text
  pub size : ℕ
  pub local_mtime_ns : ℕ
  pub local_inode : ℤ
  pub mat : ℕ
  pub synced_at : ℕ

abbrev pub word : ℕ
word = 2 ^ 64

abbrev pub half_word : ℕ
half_word = 2 ^ 63

abbrev pub second : ℕ
second = 1000000000

-- `int64(n.LocalInode)` and `uint64(inode)`
abbrev to_int64 : ℕ → ℤ
to_int64 n = if ltb n half_word then pos n else negsuc (word - 1 - n)

abbrev to_uint64 : ℤ → ℕ
to_uint64 (pos n) = n
to_uint64 (negsuc n) = word - 1 - n

-- `boolToInt`
abbrev bool_to_int : Bool → ℕ
bool_to_int true = 1
bool_to_int false = 0

abbrev unix_nano : Time → ℕ
unix_nano none = 0
unix_nano (some t) = t

abbrev pub unix_or : ℕ → Time → ℕ
unix_or now none = now / second
unix_or now (some t) = t / second

-- The values that `PutNode` binds. `now` is `time.Now()`.
unfoldable pub row_of : ℕ → Node → Row
row_of now n = record {
  path = n.path;
  node_id = n.node_id;
  parent_id = n.parent_id;
  is_dir = bool_to_int n.is_dir;
  revision_id = n.revision_id;
  content_hash = n.content_hash;
  size = n.size;
  local_mtime_ns = unix_nano n.local_mtime;
  local_inode = to_int64 n.local_inode;
  mat = n.mat;
  synced_at = unix_or now n.synced_at;
}

-- `scanNode`
unfoldable pub scan_node : Row → Node
scan_node r = record {
  path = r.path;
  node_id = r.node_id;
  parent_id = r.parent_id;
  is_dir = not (r.is_dir == 0);
  revision_id = r.revision_id;
  content_hash = r.content_hash;
  size = r.size;
  local_mtime = if r.local_mtime_ns == 0 then none else some r.local_mtime_ns;
  local_inode = to_uint64 r.local_inode;
  mat = r.mat;
  synced_at = if r.synced_at == 0 then none else some (r.synced_at * second);
}

-- What is left of a node once it was stored: the modification time of the epoch reads as no time,
-- and the time of the sync keeps whole seconds.
abbrev pub stored : ℕ → Node → Node
stored now n = record n {
  local_mtime = elim n.local_mtime [ none ↦ none | some t ↦ if t == 0 then none else some t ];
  synced_at = let s = unix_or now n.synced_at in if s == 0 then none else some (s * second);
}

-- Storing a node and reading it back gives all its fields again, an inode of 64 bits included; only
-- the two times lose what `stored` says.
pub scan_node-row_of :
    (now : ℕ) (n : Node) → n.local_inode < word → scan_node (row_of now n) ≡ stored now n
unfolding scan_node row_of
scan_node-row_of now n h = ground arith
