-- ===== src/Backup/Tests.antt =====
-- Runs of the offline copy on small accounts.
use p_drive.Base.{
  ℕ, Text, codes, List, [], ◌∷◌, ◌++◌, Bool, true, false, Option, none, some, ◌≡◌, inl, inr, refl,
  cut_last, slash,
}
use p_drive.Mirror.Disk.{File, Disk, file_at, rename_file}
use p_drive.Mirror.World.{RemoteNode}
use p_drive.Drive.{Child, Attrs, node_of, walk}
use p_drive.Drive.Walk.{nodes_below}
use p_drive.Backup.Walked.{walked, walk-visits}
use p_drive.Backup.{visit, visits, Progress, store_content, part_suffix, run}
use p_drive.Backup.Gaps.{IsHollow, run-IsHollow}

-- Every content has a hash that is not empty, as a digest has.
abbrev digest : Text → Text
digest content = codes "h" ++ content

abbrev readable : Text → Option Text
readable link = some (codes "hello")

abbrev unreadable : Text → Option Text
unreadable link = none

abbrev folder : RemoteNode
folder = record {
  link_id = codes "1";
  parent_id = codes "0";
  name = codes "docs";
  path = codes "docs";
  is_dir = true;
  size = 0;
  modified = none;
  digest = [];
}

abbrev document : RemoteNode
document = record {
  link_id = codes "2";
  parent_id = codes "1";
  name = codes "a";
  path = codes "docs/a";
  is_dir = false;
  size = 5;
  modified = none;
  digest = codes "HHELLO";
}

abbrev nothing_yet : Progress
nothing_yet = record {
  disk = [];
  manifest = record { account = []; files = 0; dirs = 0; bytes = 0; entries = [] };
  events = [];
}

abbrev progress_or : Option Progress → Progress
progress_or none = nothing_yet
progress_or (some b) = b

abbrev copied : Progress
copied = progress_or (run digest readable false (codes "me") (folder ∷ document ∷ []) [])

-- The account of a folder and a file is copied, with both in the manifest.
copied-files : copied.manifest.files ≡ 1
unfolding run p_drive.SafePath.sanitize_path p_drive.Base.has_prefix p_drive.Base.split_on
    p_drive.SafePath.sanitize_component p_drive.Mirror.Disk.mkdir_all p_drive.Base.join_with file_at
    p_drive.Mirror.Disk.mkdir_parent p_drive.Mirror.Disk.write_at store_content rename_file
copied-files = refl

abbrev occupied : Disk
occupied =
    (
      codes "a" ++ part_suffix,
      record { is_dir = false; content = codes "mine"; mtime = none; inode = 7 },
    )
    ∷ []

abbrev emptied : Progress
emptied = progress_or (run digest unreadable false (codes "me") (folder ∷ document ∷ []) [])

run-IsHollow_example : IsHollow digest emptied
unfolding run p_drive.SafePath.sanitize_path p_drive.Base.has_prefix p_drive.Base.split_on
    p_drive.SafePath.sanitize_component p_drive.Mirror.Disk.mkdir_all p_drive.Base.join_with file_at
    p_drive.Mirror.Disk.mkdir_parent p_drive.Mirror.Disk.write_at store_content rename_file
run-IsHollow_example =
    run-IsHollow digest unreadable (codes "me") (folder ∷ document ∷ []) [] emptied
      (inl refl, (inr refl, tt)) refl

abbrev listing : Text → Option (List Child)
listing link = some (record { link_id = codes "2"; name = codes "a"; is_folder = false } ∷ [])

abbrev no_attrs : Text → Option Attrs
no_attrs link = none

abbrev listed : RemoteNode
listed =
    node_of listing no_attrs (codes "0") []
      (record { link_id = codes "2"; name = codes "a"; is_folder = false })

walk-visits_example :
    walk listing no_attrs (visit digest readable false) 1 (codes "0") [] nothing_yet
    ≡ walked (visits digest readable false (listed ∷ []) nothing_yet)
unfolding nodes_below
walk-visits_example =
    walk-visits digest readable false listing no_attrs 1 (codes "0") [] (listed ∷ []) nothing_yet
      refl
