-- ===== src/Config/Migrate/Keep.antt =====
-- The files of the folder in a move (internal/config/migrate.go, MigrateSyncRoot).
use p_drive.Base.{
  Text, [], ◌∷◌, Bool, true, false, not, Option, none, some, if_elim, ◌≡◌, ◌⊎◌, inl, inr, refl,
  arith,
}
use p_drive.Config.Migrate.{
  MoveError, Item, directory, special, regular, symlink, Tree, item_at, Moving, Roots, copy_tree,
  verify_tree, finished, copied, move_tree, validate_sync_root, count_at, migrate_sync_root,
}

-- Sockets, pipes and devices are not carried over.
abbrev pub IsCarried : Item → Type 0
IsCarried special = ⊥
IsCarried _ = Unit

abbrev pub Holds : Text → Item → Option Tree → Type 0
Holds path item none = ⊥
Holds path item (some tree) = item_at path tree ≡ some item

-- The item is in one of the folders, and in the new one if the move succeeded.
abbrev pub IsKept : Text → Item → Roots × Option MoveError → Type 0
IsKept path item (roots, some e) = Holds path item roots.old ⊎ Holds path item roots.new
IsKept path item (roots, none) = Holds path item roots.new

copy_tree-keeps :
    (fails : Text → Bool) (tree : Tree) (path : Text) (item : Item)
    → IsCarried item
    → (copy_tree fails tree).1 ≡ true
    → item_at path tree ≡ some item
    → item_at path (copy_tree fails tree).0 ≡ some item
unfolding copy_tree item_at
copy_tree-keeps fails [] path item c d h = h
copy_tree-keeps fails ((q, directory) ∷ tree) path item c d h =
    ground (arith, copy_tree-keeps fails tree path item c)
copy_tree-keeps fails ((q, regular content mtime) ∷ tree) path item c d h =
    ground (arith, copy_tree-keeps fails tree path item c)
copy_tree-keeps fails ((q, symlink target) ∷ tree) path item c d h =
    ground (arith, copy_tree-keeps fails tree path item c)
copy_tree-keeps fails ((q, special) ∷ tree) path item c d h =
    ground (arith, copy_tree-keeps fails tree path item c)

finished-IsKept :
    (path : Text) (item : Item) (copy : Tree) (r : Tree × Bool)
    → item_at path copy ≡ some item
    → IsKept path item (finished copy r)
finished-IsKept path item copy (left, true) h = h
finished-IsKept path item copy (left, false) h = inr h

copied-IsKept :
    (path : Text) (item : Item) (m : Moving) (tree : Tree) (r : Tree × Bool)
    → item_at path tree ≡ some item
    → (r.1 ≡ true → item_at path r.0 ≡ some item)
    → IsKept path item (copied m tree r)
copied-IsKept path item m tree (copy, false) h k = inl h
copied-IsKept path item m tree (copy, true) h k =
    if_elim (IsKept path item) (verify_tree tree copy) _ _
      (λ _. finished-IsKept path item copy (m.removes tree) (k refl)) (λ _. inl h)

move_tree-IsKept :
    (path : Text) (item : Item) (m : Moving) (tree : Tree) (new : Option Tree)
    → IsCarried item
    → item_at path tree ≡ some item
    → IsKept path item (move_tree m (record { old = some tree; new = new }))
move_tree-IsKept path item m tree new c h =
    if_elim (IsKept path item) (not m.makes_parent) _ _ (λ _. inl h)
      (λ _.
        if_elim (IsKept path item) m.renames _ _ (λ _. h)
          (λ _.
            copied-IsKept path item m tree (copy_tree m.fails_at tree) h
              (λ d. copy_tree-keeps m.fails_at tree path item c d h)))

-- Moving the folder loses no directory, file or link of it: whatever fails on the way, each is
-- afterwards in the old folder or in the new one as it was, and in the new one if the move
-- reports success.
pub migrate_sync_root-IsKept :
    (home : Option Text) (m : Moving) (old_root new_root : Text) (tree : Tree) (new : Option Tree)
    (path : Text) (item : Item)
    → IsCarried item
    → item_at path tree ≡ some item
    → IsKept path item
        (migrate_sync_root home m old_root new_root (record { old = some tree; new = new }))
unfolding migrate_sync_root
migrate_sync_root-IsKept home m old_root new_root tree new path item c h =
    on (validate_sync_root home (count_at new) old_root new_root)
  where
    on :
        (o : Option MoveError)
        → IsKept path item (elim o [
          | some e ↦ (record { old = some tree; new = new }, some e)
          | none ↦ move_tree m (record { old = some tree; new = new })
        ])
    on none = move_tree-IsKept path item m tree new c h
    on (some e) = inl h
