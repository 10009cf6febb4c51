-- ===== src/Gate/Marks.antt =====
-- Which directories the kernel has marks on.
use p_drive.Base.{
  ℕ, Text, List, [], ◌∷◌, true, false, any, text_eq, ◌⊎◌, if◌then◌else◌, if_elim, ◌==◌, ==_refl,
  ◌≡◌, sym, subst, All, arith, Bool-cases, inl, inr,
}
use p_drive.Gate.{Fanotify, Directory, mark, mark_tree, is_staging}

abbrev pub IsMarked : ℕ → Fanotify → Type 0
IsMarked inode f = any (λ i. i == inode) f.inodes ≡ true

-- Directories at different paths, none of which is taken for marked.
abbrev pub IsUnmarked : Fanotify → Directory → Type 0
IsUnmarked f d = any (text_eq d.0) f.marked ≡ false

abbrev pub ArePathsApart : List Directory → Type 0
ArePathsApart [] = Unit
ArePathsApart (d ∷ dirs) =
    All (λ (e : Directory). text_eq e.0 d.0 ≡ false) dirs × ArePathsApart dirs

mark-keeps :
    (d : Directory) (f : Fanotify) (inode : ℕ) → IsMarked inode f → IsMarked inode (mark d f)
unfolding mark
mark-keeps (path, i) f inode h = ground arith

mark_tree-keeps :
    (root : Text) (dirs : List Directory) (f : Fanotify) (inode : ℕ)
    → IsMarked inode f
    → IsMarked inode (mark_tree root dirs f)
unfolding mark_tree
mark_tree-keeps root [] f inode h = h
mark_tree-keeps root (d ∷ dirs) f inode h = mark_tree-keeps root dirs _ inode (
    if_elim (IsMarked inode) (is_staging root d.0) f (mark d f) (λ _. h)
      (λ _. mark-keeps d f inode h))

mark-IsMarked : (d : Directory) (f : Fanotify) → IsUnmarked f d → IsMarked d.1 (mark d f)
unfolding mark
mark-IsMarked (path, i) f h = ground (arith, ==_refl i)

mark-IsUnmarked :
    (d e : Directory) (f : Fanotify)
    → text_eq e.0 d.0 ≡ false
    → IsUnmarked f e
    → IsUnmarked (mark d f) e
unfolding mark
mark-IsUnmarked (path, i) e f n h = ground arith

abbrev pub AreWatched : Text → Fanotify → List Directory → Type 0
AreWatched root f dirs =
    All (λ (d : Directory). (is_staging root d.0 ≡ false) → IsMarked d.1 f) dirs

later-AreUnmarked :
    (d : Directory) (f : Fanotify) (dirs : List Directory)
    → All (λ (e : Directory). text_eq e.0 d.0 ≡ false) dirs
    → All (IsUnmarked f) dirs
    → All (IsUnmarked (mark d f)) dirs
later-AreUnmarked d f [] a h = tt
later-AreUnmarked d f (e ∷ dirs) a h =
    (mark-IsUnmarked d e f a.0 h.0, later-AreUnmarked d f dirs a.1 h.1)

-- Every directory of a tree that was not yet marked gets a mark in the kernel, but for the
-- engine's own staging folder.
pub mark_tree-AreWatched :
    (root : Text) (dirs : List Directory) (f : Fanotify)
    → ArePathsApart dirs
    → All (IsUnmarked f) dirs
    → AreWatched root (mark_tree root dirs f) dirs
unfolding mark_tree
mark_tree-AreWatched root [] f a u = tt
mark_tree-AreWatched root (d ∷ dirs) f a u =
    elim (Bool-cases (is_staging root d.0))
      as (λ _. AreWatched root (mark_tree root (d ∷ dirs) f) (d ∷ dirs)) [
        | inl s ↦ (
          (λ n. absurd (ground arith)),
          subst (λ b. AreWatched root (mark_tree root dirs (if b then f else mark d f)) dirs)
              (sym s) (mark_tree-AreWatched root dirs f a.1 u.1),
        )
        | inr s ↦
            subst
              (λ b. AreWatched root (mark_tree root dirs (if b then f else mark d f)) (d ∷ dirs))
              (sym s)
              (
                (λ _. mark_tree-keeps root dirs (mark d f) d.1 (mark-IsMarked d f u.0)),
                mark_tree-AreWatched root dirs (mark d f) a.1 (later-AreUnmarked d f dirs a.0 u.1),
              )
      ]

abbrev IsRemembered : Text → Fanotify → Type 0
IsRemembered path f = any (text_eq path) f.marked ≡ true

-- The kernel has no mark on the inode.
abbrev pub IsBare : ℕ → Fanotify → Type 0
IsBare inode f = any (λ i. i == inode) f.inodes ≡ false

-- A directory that has the inode only if it is at the path.
abbrev pub IsOnlyAt : Text → ℕ → Directory → Type 0
IsOnlyAt path inode d = ((d.1 == inode) ≡ false) ⊎ (d.0 ≡ path)
