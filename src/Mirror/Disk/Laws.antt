-- ===== src/Mirror/Disk/Laws.antt =====
-- The laws of the file operations, by the entry at one path.
use p_drive.Base.{
  ℕ, Text, List, [], ◌∷◌, Bool, not, Option, none, some, ◌≡◌, refl, arith, text_eq, text_eq_iff,
  keep, if◌then◌else◌, cut_last, slash, length, if_elim, zero, suc,
}
use p_drive.Paths.{scratch_dir}
use p_drive.Mirror.Disk.{
  File, Disk, directory, file_at, write_at, remove_at, make_dirs, mkdir_all, mkdir_parent,
  stage_dirs, climb, has_children, remove_parents, remove_empty_parents,
}

pub file_at-write_at :
    (path other : Text) (f : File) (disk : Disk)
    → file_at other (write_at path f disk)
      ≡ (if text_eq path other then some f else file_at other disk)
unfolding file_at write_at
file_at-write_at path other f [] = refl
file_at-write_at path other f ((p, g) ∷ disk) = ground (
  arith,
  file_at-write_at path other f disk,
  text_eq_iff p path,
  text_eq_iff p other,
  text_eq_iff path other,
)

pub file_at-keep :
    (test : Text → Bool) (other : Text) (disk : Disk)
    → file_at other (keep (λ e. test (e.0)) disk)
      ≡ (if test other then file_at other disk else none)
unfolding file_at
file_at-keep test other [] = ground arith
file_at-keep test other ((p, g) ∷ disk) =
    ground (arith, file_at-keep test other disk, text_eq_iff p other)

pub file_at-remove_at :
    (path other : Text) (disk : Disk)
    → file_at other (remove_at path disk)
      ≡ (if text_eq other path then none else file_at other disk)
unfolding remove_at
file_at-remove_at path other disk =
    ground (arith, file_at-keep (λ q. not (text_eq q path)) other disk)

-- Making directories keeps every entry that is there.
make_dirs-keeps :
    (ps : List Text) (path : Text) (f : File) (disk disk' : Disk)
    → make_dirs ps disk ≡ some disk'
    → file_at path disk ≡ some f
    → file_at path disk' ≡ some f
unfolding make_dirs
make_dirs-keeps [] path f disk disk' h e = ground arith
make_dirs-keeps (p ∷ ps) path f disk disk' h e = ground (
  arith,
  make_dirs-keeps ps path f disk disk',
  make_dirs-keeps ps path f (write_at p directory disk) disk',
  file_at-write_at p path directory disk,
  text_eq_iff p path,
)

pub mkdir_all-keeps :
    (dir path : Text) (f : File) (disk disk' : Disk)
    → mkdir_all dir disk ≡ some disk'
    → file_at path disk ≡ some f
    → file_at path disk' ≡ some f
unfolding mkdir_all
mkdir_all-keeps dir path f disk disk' h e = make_dirs-keeps _ path f disk disk' h e

pub mkdir_parent-keeps :
    (dir path : Text) (f : File) (disk disk' : Disk)
    → mkdir_parent dir disk ≡ some disk'
    → file_at path disk ≡ some f
    → file_at path disk' ≡ some f
unfolding mkdir_parent
mkdir_parent-keeps dir path f disk disk' h e = go (cut_last slash dir) h
  where
    go :
        (o : Option (Text × Text))
        → elim o [ none ↦ some disk | some (d, name) ↦ mkdir_all d disk ] ≡ some disk'
        → file_at path disk' ≡ some f
    go none k = ground arith
    go (some (d, name)) k = mkdir_all-keeps d path f disk disk' k e

pub stage_dirs-keeps :
    (dir path : Text) (f : File) (disk disk' : Disk)
    → stage_dirs dir disk ≡ some disk'
    → file_at path disk ≡ some f
    → file_at path disk' ≡ some f
unfolding stage_dirs
stage_dirs-keeps dir path f disk disk' h e = go (mkdir_all scratch_dir disk) refl h
  where
    go :
        (o : Option Disk)
        → mkdir_all scratch_dir disk ≡ o
        → elim o [ none ↦ none | some d ↦ mkdir_parent dir d ] ≡ some disk'
        → file_at path disk' ≡ some f
    go none m k = absurd (cc)
    go (some d) m k =
        mkdir_parent-keeps dir path f d disk' k (mkdir_all-keeps scratch_dir path f disk d m e)

removed-none :
    (path other : Text) (disk : Disk)
    → file_at other disk ≡ none
    → file_at other (remove_at path disk) ≡ none
removed-none path other disk h = ground (arith, file_at-remove_at path other disk)

climb-none :
    (o : Option (Text × Text)) (other : Text) (disk : Disk) (rest : Text → Disk → Disk)
    → file_at other disk ≡ none
    → ((dir : Text) → file_at other (rest dir (remove_at dir disk)) ≡ none)
    → file_at other (climb o disk rest) ≡ none
climb-none none other disk rest h k = h
climb-none (some (dir, name)) other disk rest h k =
    if_elim (λ d. file_at other d ≡ none) (has_children dir disk) disk
      (rest dir (remove_at dir disk)) (λ _. h) (λ _. k dir)

remove_parents-none :
    (fuel : ℕ) (path other : Text) (disk : Disk)
    → file_at other disk ≡ none
    → file_at other (remove_parents fuel path disk) ≡ none
unfolding remove_parents
remove_parents-none zero path other disk h = h
remove_parents-none (suc fuel) path other disk h =
    climb-none (cut_last slash path) other disk (remove_parents fuel) h (λ dir.
      remove_parents-none fuel dir other (remove_at dir disk) (removed-none dir other disk h))

-- Removing empty parents adds no entry.
pub remove_empty_parents-none :
    (path other : Text) (disk : Disk)
    → file_at other disk ≡ none
    → file_at other (remove_empty_parents path disk) ≡ none
unfolding remove_empty_parents
remove_empty_parents-none path other disk h = remove_parents-none (length path) path other disk h
