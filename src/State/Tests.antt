-- ===== src/State/Tests.antt =====
-- Runs of the database, and the theorems at concrete rows.
use p_drive.Base.{
  ℕ, Text, codes, List, [], ◌∷◌, ◌||◌, Bool, true, false, ◌&&◌, none, some, ◌≡◌, ◌≢◌, refl, arith,
  text_eq, lower, ◌==◌, ◌+◌, ◌-◌, if◌then◌else◌,
}
use p_drive.State.Rows.{Node, Row, materialized}
use p_drive.State.Nodes.{IsTable, find_row, put_node, get_node}
use p_drive.State.Subtree.{IsLike, delete_subtree, get_node-delete_subtree}
use p_drive.State.Meta.{Meta, key_event_cursor}
use p_drive.State.Activity.{Log}

abbrev file : Text → Node
file path = record {
  path = path;
  node_id = codes "n1";
  parent_id = codes "root";
  is_dir = false;
  revision_id = [];
  content_hash = codes "aa";
  size = 3;
  local_mtime = some 5000000007;
  local_inode = 9300000000000000000;
  mat = materialized;
  synced_at = none;
}

abbrev photo : Text
photo = codes "Docs/x"

rows : List Row
unfolding put_node text_eq
rows = put_node 7 (file photo) []

rows-IsTable : IsTable rows
unfolding rows find_row
rows-IsTable = (refl, tt)

-- LIKE for the patterns that occur.
like : Text → Text → Bool
like [] [] = true
like [] (x ∷ t) = false
like (c ∷ []) [] = c == b'%'
like (c ∷ []) (x ∷ t) = c == b'%' || (lower c == lower x && like [] t)
like (c ∷ d ∷ p) [] = false
like (c ∷ d ∷ p) (x ∷ t) =
    let escaped = lower d == lower x && like p t in
    let literal = lower c == lower x && like (d ∷ p) t in if c == 92 then escaped else literal

like-at_end : (c : ℕ) (p : Text) → c ≢ b'%' → like (c ∷ p) [] ≡ false
unfolding like
like-at_end c [] h = ground arith
like-at_end c (d ∷ p) h = refl

like_literal :
    (c x : ℕ) (p t : Text)
    → ((c == b'%' || c == b'_') || c == 92) ≡ false
    → like (c ∷ p) (x ∷ t) ≡ (lower c == lower x && like p t)
unfolding like
like_literal c x [] t h = ground arith
like_literal c x (d ∷ p) t h = ground arith

like-IsLike : IsLike like
unfolding like
like-IsLike = record {
  at_end = like-at_end;
  any_rest = λ t. elim t as (λ r. like (b'%' ∷ []) r ≡ true) [ [] ↦ refl | x ∷ r ↦ refl ];
  escaped = λ c x p t. refl;
  literal = like_literal;
}

get_node-delete_subtree_example :
    (get_node photo (delete_subtree like (codes "Docs") rows) ≡ none)
    × IsTable (delete_subtree like (codes "Docs") rows)
unfolding text_eq
get_node-delete_subtree_example =
    get_node-delete_subtree like like-IsLike (codes "Docs") photo rows rows-IsTable

abbrev settings : Meta
settings = (key_event_cursor, codes "e1") ∷ []

-- One digit is enough here.
abbrev print : ℕ → Text
print n = (n + 48) ∷ []

abbrev parse : Text → ℕ
parse [] = 0
parse (c ∷ v) = c - 48

abbrev log : Log
log = record { at = 1; kind = codes "upload"; path = photo; size = 3 } ∷ []
