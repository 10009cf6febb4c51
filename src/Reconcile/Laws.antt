-- ===== src/Reconcile/Laws.antt =====
-- What the decision guarantees: symmetry, and that no work is lost.
use p_drive.Base.{true, false, equal_fold_sym, ◌≡◌, ◌⊎◌, arith, ◌↔◌}
use p_drive.Reconcile.{
  Action, nothing, download, upload, adopt, trash_local, trash_remote, conflict, mkdir_local,
  mkdir_remote, drop_baseline, Facts, changed_locally, reconcile,
}

-- The two sides exchanged.
abbrev pub mirrored : Facts → Facts
mirrored f = record {
  base_exists = f.base_exists;
  base_hash = f.base_hash;
  base_is_dir = f.base_is_dir;
  local_exists = f.remote_exists;
  local_hash = f.remote_hash;
  local_is_dir = f.remote_is_dir;
  remote_exists = f.local_exists;
  remote_hash = f.local_hash;
  remote_is_dir = f.local_is_dir;
}

abbrev pub mirrored_action : Action → Action
mirrored_action nothing = nothing
mirrored_action download = upload
mirrored_action upload = download
mirrored_action adopt = adopt
mirrored_action trash_local = trash_remote
mirrored_action trash_remote = trash_local
mirrored_action conflict = conflict
mirrored_action mkdir_local = mkdir_remote
mirrored_action mkdir_remote = mkdir_local
mirrored_action drop_baseline = drop_baseline

-- The decision treats the two sides alike: with local and remote exchanged, the action is the same
-- one with its direction reversed.
pub reconcile-mirrored : (f : Facts) → reconcile (mirrored f) ≡ mirrored_action (reconcile f)
unfolding reconcile
reconcile-mirrored f = ground (arith, equal_fold_sym f.local_hash f.remote_hash)

-- A local file is trashed exactly when it is gone remotely, the baseline knows it, and nothing
-- proves it changed since; a local directory exactly when it is gone remotely and the baseline has
-- a row for its path.
pub reconcile-trash_local :
    (f : Facts)
    → (reconcile f ≡ trash_local) ↔ (
        (f.local_exists ≡ true)
        × (f.remote_exists ≡ false)
        × (f.base_exists ≡ true)
        × ((f.local_is_dir ≡ true) ⊎ (changed_locally f ≡ false)))
unfolding reconcile
reconcile-trash_local f = (λ h. ground arith, λ h. ground arith)
