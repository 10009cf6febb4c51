-- ===== src/Mirror/Scan/Laws.antt =====
-- What a scan lists.
use p_drive.Base.{Text, List, [], ◌∷◌, true, false, some, ◌≡◌, arith, text_eq_iff, cut_last, slash}
use p_drive.Paths.{ignored, valid_path, excluded}
use p_drive.Mirror.Disk.{File, Disk}
use p_drive.Mirror.World.{LocalNode}
use p_drive.Mirror.Scan.{visit, walk_dir, scan, local_at, base_name, listed}

visit-listed :
    (exclude : List Text) (path : Text) (f : File)
    → visit exclude path f ≡ listed
    → (ignored (base_name (cut_last slash path) path) ≡ false)
      × (valid_path path ≡ true)
      × (excluded exclude path ≡ false)
unfolding visit
visit-listed exclude path f h = ground arith

walk_dir-listed :
    (exclude skipped : List Text) (disk : Disk) (path : Text) (n : LocalNode)
    → local_at path (walk_dir exclude skipped disk) ≡ some n
    → (ignored (base_name (cut_last slash path) path) ≡ false)
      × (valid_path path ≡ true)
      × (excluded exclude path ≡ false)
unfolding walk_dir local_at
walk_dir-listed exclude skipped [] path n h = absurd (cc)
walk_dir-listed exclude skipped ((p, f) ∷ disk) path n h = ground (
  arith,
  visit-listed exclude path f,
  text_eq_iff p path,
  walk_dir-listed exclude skipped disk path n,
  walk_dir-listed exclude (p ∷ skipped) disk path n,
)

-- A scan lists no path whose last component is an ignored name, that is not valid, or that
-- selective sync excludes.
pub scan-listed :
    (exclude : List Text) (disk : Disk) (path : Text) (n : LocalNode)
    → local_at path (scan exclude disk) ≡ some n
    → (ignored (base_name (cut_last slash path) path) ≡ false)
      × (valid_path path ≡ true)
      × (excluded exclude path ≡ false)
unfolding scan
scan-listed exclude disk path n h = walk_dir-listed exclude [] disk path n h
