-- ===== src/Reconcile/Converge.antt =====
-- What each action does to the three sides, by the words beside the constants of `Action` and by the
-- two principles above `Reconcile`: an independent description, against which the decision is read.
use p_drive.Base.{
  Text, Bool, true, false, equal_fold, equal_fold_refl, equal_fold_sym, ◌≡◌, ◌⊎◌, arith,
}
use p_drive.Reconcile.{
  Action, nothing, download, upload, adopt, trash_local, trash_remote, conflict, mkdir_local,
  mkdir_remote, drop_baseline, Facts, changed_locally, changed_remotely, reconcile,
}

abbrev remote_everywhere : Facts → Facts
remote_everywhere f = record f {
  base_exists = f.remote_exists;
  base_hash = f.remote_hash;
  base_is_dir = f.remote_is_dir;
  local_exists = f.remote_exists;
  local_hash = f.remote_hash;
  local_is_dir = f.remote_is_dir;
}

abbrev local_everywhere : Facts → Facts
local_everywhere f = record f {
  base_exists = f.local_exists;
  base_hash = f.local_hash;
  base_is_dir = f.local_is_dir;
  remote_exists = f.local_exists;
  remote_hash = f.local_hash;
  remote_is_dir = f.local_is_dir;
}

-- The facts after the action was carried out with success.
abbrev pub settled : Action → Facts → Facts
settled nothing f = f
settled download f = remote_everywhere f
settled upload f = local_everywhere f
settled adopt f = record f {
  base_exists = true;
  base_hash = f.local_hash;
  base_is_dir = f.local_is_dir;
}
settled trash_local f = record f { local_exists = false; base_exists = false }
settled trash_remote f = record f { remote_exists = false; base_exists = false }
settled conflict f = remote_everywhere f
settled mkdir_local f = remote_everywhere f
settled mkdir_remote f = local_everywhere f
settled drop_baseline f = record f { base_exists = false }

-- Whether the action keeps the local copy beside the path, under a name of its own.
abbrev pub keeps_copy : Action → Bool
keeps_copy conflict = true
keeps_copy _ = false

-- A content is still to be found at the path, on one of the two sides.
abbrev pub IsAtPath : Text → Facts → Type 0
IsAtPath hash f =
    ((f.local_exists ≡ true) × (f.local_is_dir ≡ false) × (equal_fold f.local_hash hash ≡ true))
    ⊎ ((f.remote_exists ≡ true)
        × (f.remote_is_dir ≡ false)
        × (equal_fold f.remote_hash hash ≡ true))

-- One pass is enough: once the action is carried out, the decision about the path is to do nothing.
pub reconcile-settled : (f : Facts) → reconcile (settled (reconcile f) f) ≡ nothing
unfolding reconcile
reconcile-settled f = ground (
  arith,
  equal_fold_refl f.local_hash,
  equal_fold_refl f.remote_hash,
  equal_fold_sym f.local_hash f.remote_hash,
)

-- No local edit is lost: a local file that is new or differs from the baseline is at the path after
-- the action, on one side or the other, or its copy was kept beside the path.
pub settled-keeps_local_edit :
    (f : Facts)
    → f.local_exists ≡ true
    → f.local_is_dir ≡ false
    → changed_locally f ≡ true
    → IsAtPath f.local_hash (settled (reconcile f) f) ⊎ (keeps_copy (reconcile f) ≡ true)
unfolding reconcile
settled-keeps_local_edit f e d c =
    ground (arith, equal_fold_refl f.local_hash, equal_fold_refl f.remote_hash)

-- No remote edit is lost: a remote file that is new or differs from the baseline is at the path
-- after the action, on one side or the other.
pub settled-keeps_remote_edit :
    (f : Facts)
    → f.remote_exists ≡ true
    → f.remote_is_dir ≡ false
    → changed_remotely f ≡ true
    → IsAtPath f.remote_hash (settled (reconcile f) f)
unfolding reconcile
settled-keeps_remote_edit f e d c =
    ground (arith, equal_fold_refl f.local_hash, equal_fold_refl f.remote_hash)

-- Replacing a tracked file by a directory is a local change, and yet the directory is trashed when
-- the file was deleted remotely.
pub reconcile-trashes_changed_dir :
    (f : Facts)
    → f.base_exists ≡ true
    → f.base_is_dir ≡ false
    → f.local_exists ≡ true
    → f.local_is_dir ≡ true
    → f.remote_exists ≡ false
    → (changed_locally f ≡ true) × (reconcile f ≡ trash_local)
unfolding reconcile
reconcile-trashes_changed_dir f b bd l ld r = (ground arith, ground arith)
