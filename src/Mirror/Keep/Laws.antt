-- ===== src/Mirror/Keep/Laws.antt =====
-- Putting the local version aside loses nothing.
use p_drive.Base.{
  Text, [], true, false, Option, some, ◌≡◌, ◌≢◌, ◌⊎◌, inl, inr, refl, arith, text_eq_iff,
  Bool-cases,
}
use p_drive.State.Rows.{Node}
use p_drive.State.Nodes.{get_node}
use p_drive.Paths.{conflict_name}
use p_drive.Mirror.Disk.{
  File, Disk, file_at, rename_file, Renamed, not_there, blocked, renamed, remove_at,
}
use p_drive.Mirror.Disk.Laws.{file_at-write_at}
use p_drive.Mirror.World.{LocalNode, Env, World, Outcome, done, fail, emit}
use p_drive.Mirror.Scan.{local_at}
use p_drive.Mirror.Keep.{
  known, known_hash, agrees_with_base, agrees_with, put_aside, preserve_local_if_conflicting,
}

-- After a call that succeeds the file is where it was, and its content is the baseline's or the one
-- that is arriving, or it is under the conflict name. After one that fails it is where it was.
abbrev pub IsKept :
    (Text → Text)
    → Text
    → Text
    → Text
    → File
    → Option Node
    → {R : Type 0} → Outcome R (Unit {0})
    → Type 0
IsKept sha1 path keep incoming f base (done a w) =
    ((file_at path w.disk ≡ some f)
      × ((agrees_with_base base (sha1 f.content) ≡ true)
          ⊎ (agrees_with incoming (sha1 f.content) ≡ true)))
    ⊎ (file_at keep w.disk ≡ some f)
IsKept sha1 path keep incoming f base (fail e w) = file_at path w.disk ≡ some f

rename_file-moves :
    (from to : Text) (f : File) (disk disk' : Disk)
    → file_at from disk ≡ some f
    → rename_file from to disk ≡ renamed disk'
    → file_at to disk' ≡ some f
unfolding rename_file
rename_file-moves from to f disk disk' h e =
    ground (arith, file_at-write_at to to f (remove_at from disk), text_eq_iff to to)

rename_file-there :
    (from to : Text) (f : File) (disk : Disk)
    → file_at from disk ≡ some f
    → rename_file from to disk ≢ not_there
unfolding rename_file
rename_file-there from to f disk h e = ground arith

module _ (sha1 : Text → Text) where
  known_hash-right :
      (path : Text) (disk : Disk) (f : File) (before : LocalNode)
      → file_at path disk ≡ some f
      → f.is_dir ≡ false
      → before.is_dir ≡ false
      → (before.hash ≡ []) ⊎ (before.hash ≡ sha1 f.content)
      → known_hash sha1 path disk (some before) ≡ known (sha1 f.content)
  known_hash-right path disk f before h d b e = ground arith

  module _ (env : Env) (path incoming : Text) (f : File) {R : Type 0} (w : World R) where
    put_aside-keeps :
        (base : Option Node) (keep : Text) (r : Renamed)
        → file_at path w.disk ≡ some f
        → r ≢ not_there
        → ((d : Disk) → r ≡ renamed d → file_at keep d ≡ some f)
        → IsKept sha1 path keep incoming f base (put_aside env path incoming r w)
    unfolding emit
    put_aside-keeps base keep not_there h n m = absurd (n refl)
    put_aside-keeps base keep blocked h n m = h
    put_aside-keeps base keep (renamed d) h n m = inr (m d refl)

    -- A file that the scan saw, whose hash it took rightly or left open, is not lost when a download
    -- is about to replace it: unless its content is the baseline's or the one that is arriving, it
    -- is put under the conflict name, and where that fails it stays where it is.
    pub preserve_local_if_conflicting-keeps :
        (before : LocalNode)
        → file_at path w.disk ≡ some f
        → f.is_dir ≡ false
        → local_at path w.local_before ≡ some before
        → before.is_dir ≡ false
        → (before.hash ≡ []) ⊎ (before.hash ≡ sha1 f.content)
        → IsKept sha1 path
            (conflict_name path env.conflict_stamp env.hostname)
            incoming
            f
            (get_node path w.rows)
            (preserve_local_if_conflicting env sha1 path incoming w)
    unfolding preserve_local_if_conflicting
    preserve_local_if_conflicting-keeps before h d l b e =
        rw (l, known_hash-right path w.disk f before h d b e)
          (elim (Bool-cases (agrees_with_base (get_node path w.rows) (sha1 f.content))) [
            | inl same ↦ rw same (inl (h, inl same))
            | inr base ↦ rw base (elim (Bool-cases (agrees_with incoming (sha1 f.content))) [
              | inl same ↦ rw same (inl (h, inr same))
              | inr new ↦ rw new (
                  put_aside-keeps _ keep (rename_file path keep w.disk) h
                    (rename_file-there path keep f w.disk h)
                    (λ disk m. rename_file-moves path keep f w.disk disk h m))
            ])
          ])
      where
        keep : Text
        keep = conflict_name path env.conflict_stamp env.hostname
