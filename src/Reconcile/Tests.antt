-- ===== src/Reconcile/Tests.antt =====
-- Runs of the decision, and the theorems at concrete facts.
use p_drive.Base.{Text, codes, true, false, refl, ◌≡◌, ◌⊎◌, equal_fold}
use p_drive.Reconcile.{
  Facts, nothing, upload, adopt, conflict, trash_local, changed_locally, changed_remotely,
  reconcile,
}
use p_drive.Reconcile.Converge.{
  settled, IsAtPath, keeps_copy, reconcile-settled, settled-keeps_local_edit,
  settled-keeps_remote_edit,
}

abbrev old : Text
old = codes "aa"

abbrev mine : Text
mine = codes "bb"

abbrev theirs : Text
theirs = codes "cc"

-- A file edited on both sides.
abbrev both_edited : Facts
both_edited = record {
  base_exists = true;
  base_hash = old;
  base_is_dir = false;
  local_exists = true;
  local_hash = mine;
  local_is_dir = false;
  remote_exists = true;
  remote_hash = theirs;
  remote_is_dir = false;
}

-- The same file, edited here and deleted there.
abbrev edited_deleted : Facts
edited_deleted = record both_edited { remote_exists = false; remote_hash = codes "" }

abbrev unedited_deleted : Facts
unedited_deleted = record edited_deleted { local_hash = codes "AA" }

both_edited_conflict : reconcile both_edited ≡ conflict
unfolding reconcile equal_fold
both_edited_conflict = refl

edited_deleted_upload : reconcile edited_deleted ≡ upload
unfolding reconcile equal_fold
edited_deleted_upload = refl

unedited_deleted_trashed : reconcile unedited_deleted ≡ trash_local
unfolding reconcile equal_fold
unedited_deleted_trashed = refl

same_edit_adopted : reconcile (record both_edited { remote_hash = codes "BB" }) ≡ adopt
unfolding reconcile equal_fold
same_edit_adopted = refl

reconcile-settled_example : reconcile (settled (reconcile both_edited) both_edited) ≡ nothing
reconcile-settled_example = reconcile-settled both_edited

settled-keeps_local_edit_example :
    IsAtPath mine (settled (reconcile both_edited) both_edited)
    ⊎ (keeps_copy (reconcile both_edited) ≡ true)
unfolding changed_locally equal_fold
settled-keeps_local_edit_example = settled-keeps_local_edit both_edited refl refl refl

settled-keeps_remote_edit_example : IsAtPath theirs (settled (reconcile both_edited) both_edited)
unfolding changed_remotely equal_fold
settled-keeps_remote_edit_example = settled-keeps_remote_edit both_edited refl refl refl

abbrev replaced : Facts
replaced = record edited_deleted { local_is_dir = true; local_hash = codes "" }
