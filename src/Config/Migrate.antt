-- ===== src/Config/Migrate.antt =====
-- internal/config/migrate.go: moving the synced folder. Both roots are cleaned and expanded paths.
-- The folder is the list of what the walk of it reaches, by path below the root.
pub mod Keep
pub mod Apart
use p_drive.Base.{
  ℕ, Text, codes, List, [], ◌∷◌, ◌++◌, Bool, true, false, not, ◌&&◌, ◌||◌, Option, none, some,
  is_empty, is_abs, clean_path, text_eq, has_prefix, length, ltb, ◌==◌, if◌then◌else◌,
}
use p_drive.State.Rows.{Time}

-- The errors of `ValidateSyncRoot`, then those of `MigrateSyncRoot`.
pub data MoveError : Type 0 where
  empty_root relative_root whole_filesystem whole_home same_root inside_current contains_current :
      MoveError
  unreadable_root root_is_file root_not_empty : MoveError
  no_parent copy_failed incomplete_copy not_removed not_created : MoveError

-- What is at the new root: nothing, something that cannot be read, a file, or a folder with so many
-- entries.
pub data Found : Type 0 where
  nothing unreadable a_file : Found
  a_folder : ℕ → Found

-- `isUnder`
abbrev pub is_under : Text → Text → Bool
is_under path parent = text_eq path parent || has_prefix path (parent ++ codes "/")

abbrev pub is_home : Option Text → Text → Bool
is_home none root = false
is_home (some home) root = text_eq root (clean_path home)

abbrev pub usable : Found → Option MoveError
usable nothing = none
usable unreadable = some unreadable_root
usable a_file = some root_is_file
usable (a_folder n) = if n == 0 then none else some root_not_empty

-- `ValidateSyncRoot`; `none` is success.
unfoldable pub validate_sync_root : Option Text → Found → Text → Text → Option MoveError
validate_sync_root home found old_root new_root =
    if is_empty new_root
    then some empty_root
    else if not (is_abs new_root)
    then some relative_root
    else if text_eq new_root (codes "/")
    then some whole_filesystem
    else if is_home home new_root
    then some whole_home
    else if text_eq new_root old_root
    then some same_root
    else if is_under new_root old_root
    then some inside_current
    else if is_under old_root new_root
    then some contains_current
    else usable found

-- What the walk finds at a path; `special` is a socket, a pipe or a device.
pub data Item : Type 0 where
  directory special : Item
  regular : Text → Time → Item
  symlink : Text → Item

abbrev pub Tree : Type 0
Tree = List (Text × Item)

unfoldable pub item_at : Text → Tree → Option Item
unfolding text_eq
item_at path [] = none
item_at path ((q, item) ∷ tree) = if text_eq q path then some item else item_at path tree

-- How the disk behaves: whether the parent of the new root can be made, whether the rename works,
-- which paths cannot be copied, and what is left of the old root, with success or not, when it is
-- removed.
pub record Moving : Type 0 where
  pub makes_parent : Bool
  pub makes_root : Bool
  pub renames : Bool
  pub fails_at : Text → Bool
  pub removes : Tree → Tree × Bool

abbrev pub is_special : Item → Bool
is_special special = true
is_special _ = false

-- `copyTree`: what it has written, and whether it came to its end.
unfoldable pub copy_tree : (Text → Bool) → Tree → Tree × Bool
copy_tree fails [] = ([], true)
copy_tree fails ((path, item) ∷ tree) =
    let rest = copy_tree fails tree in
    if is_special item
    then rest
    else if fails path
    then ([], false)
    else ((path, item) ∷ rest.0, rest.1)

abbrev pub same_size : Text → Option Item → Bool
same_size content (some (regular copy mtime)) = length copy == length content
same_size content _ = false

-- `verifyTree`; links of the copy are followed by the source, and are no regular files here.
unfoldable pub verify_tree : Tree → Tree → Bool
unfolding item_at
verify_tree [] copy = true
verify_tree ((path, item) ∷ tree) copy =
    let rest = verify_tree tree copy in
    elim item [ regular content mtime ↦ same_size content (item_at path copy) && rest | _ ↦ rest ]

-- The two roots; `none` is a root that is not there.
pub record Roots : Type 0 where
  pub old : Option Tree
  pub new : Option Tree

abbrev pub finished : Tree → Tree × Bool → Roots × Option MoveError
finished copy (left, true) = (record { old = none; new = some copy }, none)
finished copy (left, false) = (record { old = some left; new = some copy }, some not_removed)

abbrev pub copied : Moving → Tree → Tree × Bool → Roots × Option MoveError
copied m tree (copy, false) = (record { old = some tree; new = some copy }, some copy_failed)
copied m tree (copy, true) =
    if verify_tree tree copy
    then finished copy (m.removes tree)
    else (record { old = some tree; new = some copy }, some incomplete_copy)

-- What follows validation.
abbrev pub move_tree : Moving → Roots → Roots × Option MoveError
move_tree m roots = elim roots.old [
  | none ↦
      if m.makes_root then (record roots { new = some [] }, none) else (roots, some not_created)
  | some tree ↦
      if not m.makes_parent
      then (roots, some no_parent)
      else if m.renames
      then (record { old = none; new = some tree }, none)
      else copied m tree (copy_tree m.fails_at tree)
]

abbrev pub count_at : Option Tree → Found
count_at none = nothing
count_at (some tree) = a_folder (length tree)

-- `MigrateSyncRoot`, where the new root is not there or a folder.
unfoldable pub migrate_sync_root :
    Option Text → Moving → Text → Text → Roots → Roots × Option MoveError
unfolding validate_sync_root copy_tree verify_tree
migrate_sync_root home m old_root new_root roots =
    elim (validate_sync_root home (count_at roots.new) old_root new_root) [
      | some e ↦ (roots, some e)
      | none ↦ move_tree m roots
    ]
