-- ===== src/Backup/Walked.antt =====
-- The backup inside the walk of the account.
use p_drive.Base.{ℕ, Text, List, [], ◌∷◌, Bool, Option, none, some, ◌≡◌, refl, ◌∙◌}
use p_drive.Mirror.World.{RemoteNode}
use p_drive.Drive.{Child, Attrs, Walked, failed, done, walk}
use p_drive.Drive.Walk.{fold_nodes, nodes_below, walk-fold_nodes}
use p_drive.Backup.{Progress, visit, visits}

-- The outcome of a walk as the source gives it: an error, or none.
abbrev pub walked : {S : Type 0} → Option S → Walked S
walked none = failed
walked (some s) = done s

module _ (sha1 : Text → Text) (fetch : Text → Option Text) (resume : Bool) where
  fold_nodes-visit :
      (ns : List RemoteNode) (b : Progress)
      → fold_nodes (visit sha1 fetch resume) ns b ≡ walked (visits sha1 fetch resume ns b)
  unfolding fold_nodes visits
  fold_nodes-visit [] b = refl
  fold_nodes-visit (n ∷ ns) b = on (fold_nodes-visit ns) (visit sha1 fetch resume n b)
    where
      on :
          ((b : Progress)
            → fold_nodes (visit sha1 fetch resume) ns b ≡ walked (visits sha1 fetch resume ns b))
          → (o : Option Progress)
          → (elim o [ none ↦ failed | some b' ↦ fold_nodes (visit sha1 fetch resume) ns b' ])
            ≡ walked (elim o [ none ↦ none | some b' ↦ visits sha1 fetch resume ns b' ])
      on h none = refl
      on h (some b') = h b'

  -- The walk of the account with the callback of the backup does what visiting the list of the
  -- account's nodes does, folders before what is in them, and fails where that fails.
  pub walk-visits :
      (list_directory : Text → Option (List Child)) (attrs_of : Text → Option Attrs) (fuel : ℕ)
      (root prefix : Text) (ns : List RemoteNode) (b : Progress)
      → nodes_below list_directory attrs_of fuel root prefix ≡ done ns
      → walk list_directory attrs_of (visit sha1 fetch resume) fuel root prefix b
        ≡ walked (visits sha1 fetch resume ns b)
  walk-visits list_directory attrs_of fuel root prefix ns b e =
      walk-fold_nodes list_directory attrs_of (visit sha1 fetch resume) fuel root prefix ns b e
      ∙ fold_nodes-visit ns b
