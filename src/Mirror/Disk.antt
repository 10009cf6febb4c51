-- ===== src/Mirror/Disk.antt =====
-- The sync folder: its entries by slash-separated path, and the file operations that the engine
-- uses (local.go and the calls of package os). The folder itself is no entry. An operation fails
-- only where the entries at hand forbid it; failing hardware is not modelled.
pub mod Laws
use p_drive.Base.{
  ℕ, zero, suc, Text, codes, List, [], ◌∷◌, ◌++◌, Bool, true, false, not, ◌||◌, Option, none, some,
  text_eq, has_prefix, cut_last, slash, any, keep, length, ◌==◌, if◌then◌else◌,
}
use p_drive.State.Rows.{Time}
use p_drive.Paths.{stub_suffix, scratch_dir}

-- What `Lstat` and a read give.
pub record File : Type 0 where
  pub is_dir : Bool
  pub content : Text
  pub mtime : Time
  pub inode : ℕ

abbrev pub Disk : Type 0
Disk = List (Text × File)

abbrev pub directory : File
directory = record { is_dir = true; content = []; mtime = none; inode = 0 }

unfoldable pub file_at : Text → Disk → Option File
file_at path [] = none
file_at path ((p, f) ∷ disk) = if text_eq p path then some f else file_at path disk

unfoldable pub write_at : Text → File → Disk → Disk
write_at path f [] = (path, f) ∷ []
write_at path f ((p, g) ∷ disk) =
    if text_eq p path then (p, f) ∷ disk else (p, g) ∷ write_at path f disk

-- `os.Remove` of a file; nothing happens where there is none.
unfoldable pub remove_at : Text → Disk → Disk
remove_at path disk = keep (λ e. not (text_eq (e.0) path)) disk

-- A path and everything beneath it.
abbrev pub is_under : Text → Text → Bool
is_under dir path = text_eq path dir || has_prefix path (dir ++ (slash ∷ []))

-- The directories on the way to a path, the outermost first, and the path itself.
unfoldable pub dirs_to : Text → Text → List Text
dirs_to before [] = before ∷ []
dirs_to before (x ∷ path) =
    let rest = dirs_to (before ++ (x ∷ [])) path in if x == slash then before ∷ rest else rest

unfoldable pub make_dirs : List Text → Disk → Option Disk
make_dirs [] disk = some disk
make_dirs (p ∷ ps) disk = elim (file_at p disk) [
  | none ↦ make_dirs ps (write_at p directory disk)
  | some f ↦ if f.is_dir then make_dirs ps disk else none
]

-- `os.MkdirAll`: `none` where a file is in the way.
unfoldable pub mkdir_all : Text → Disk → Option Disk
unfolding make_dirs dirs_to
mkdir_all path disk = make_dirs (dirs_to [] path) disk

-- `os.MkdirAll(filepath.Dir(path))`
unfoldable pub mkdir_parent : Text → Disk → Option Disk
unfolding mkdir_all cut_last
mkdir_parent path disk = elim (cut_last slash path) [
  | none ↦ some disk
  | some (dir, name) ↦ mkdir_all dir disk
]

-- The directories that `stageDownload` makes: the scratch directory, which stays, and the parent.
unfoldable pub stage_dirs : Text → Disk → Option Disk
unfolding mkdir_all mkdir_parent
stage_dirs path disk = elim (mkdir_all scratch_dir disk) [
  | none ↦ none
  | some disk' ↦ mkdir_parent path disk'
]

-- `os.Rename` of a regular file within the folder
pub data Renamed : Type 0 where
  not_there blocked : Renamed
  renamed : Disk → Renamed

unfoldable pub rename_file : Text → Text → Disk → Renamed
unfolding file_at write_at remove_at
rename_file from to disk = elim (file_at from disk) [
  | none ↦ not_there
  | some f ↦ elim (file_at to disk) [
    | none ↦ renamed (write_at to f (remove_at from disk))
    | some g ↦ if g.is_dir then blocked else renamed (write_at to f (remove_at from disk))
  ]
]

-- The entries below a directory.
abbrev pub has_children : Text → Disk → Bool
has_children dir disk = any (λ e. has_prefix (e.0) (dir ++ (slash ∷ []))) disk

-- One round of the loop of `removeEmptyParents`.
abbrev climb : Option (Text × Text) → Disk → (Text → Disk → Disk) → Disk
climb none disk rest = disk
climb (some (dir, name)) disk rest =
    let up = rest dir (remove_at dir disk) in if has_children dir disk then disk else up

-- `removeEmptyParents`: upwards from the parent while a directory is empty, never the folder itself.
-- The fuel is the length of the path, which each round shortens.
remove_parents : ℕ → Text → Disk → Disk
unfolding cut_last remove_at
remove_parents zero path disk = disk
remove_parents (suc fuel) path disk = climb (cut_last slash path) disk (remove_parents fuel)

unfoldable pub remove_empty_parents : Text → Disk → Disk
unfolding remove_parents
remove_empty_parents path disk = remove_parents (length path) path disk
