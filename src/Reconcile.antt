-- ===== src/Reconcile.antt =====
-- internal/mirror/reconcile.go: the decision about one path, a pure function over what is known of
-- it on the three sides (baseline, local, remote).
pub mod Laws
pub mod Converge
mod Tests
use p_drive.Base.{Text, Bool, true, false, not, ◌&&◌, ◌||◌, equal_fold, is_empty, same_flag}
use p_drive.Base.{if◌then◌else◌}

-- `Action`
pub data Action : Type 0 where
  nothing download upload adopt trash_local trash_remote conflict mkdir_local mkdir_remote
        drop_baseline :
      Action

-- `Facts`, less the path and the times, which no decision reads.
pub record Facts : Type 0 where
  pub base_exists : Bool
  pub base_hash : Text
  pub base_is_dir : Bool
  pub local_exists : Bool
  pub local_hash : Text
  pub local_is_dir : Bool
  pub remote_exists : Bool
  pub remote_hash : Text
  pub remote_is_dir : Bool

-- An empty hash is an unknown one, and cannot prove a change.
unfoldable pub changed_locally : Facts → Bool
changed_locally f =
    if not f.base_exists
    then f.local_exists
    else if not f.local_exists
    then true
    else if f.local_is_dir || f.base_is_dir
    then not (same_flag f.local_is_dir f.base_is_dir)
    else if is_empty f.local_hash || is_empty f.base_hash
    then false
    else not (equal_fold f.local_hash f.base_hash)

unfoldable pub changed_remotely : Facts → Bool
changed_remotely f =
    if not f.base_exists
    then f.remote_exists
    else if not f.remote_exists
    then true
    else if f.remote_is_dir || f.base_is_dir
    then not (same_flag f.remote_is_dir f.base_is_dir)
    else if is_empty f.remote_hash || is_empty f.base_hash
    then false
    else not (equal_fold f.remote_hash f.base_hash)

unfoldable pub same_content : Facts → Bool
same_content f =
    if not (same_flag f.local_is_dir f.remote_is_dir)
    then false
    else if f.local_is_dir
    then true
    else if is_empty f.local_hash || is_empty f.remote_hash
    then false
    else equal_fold f.local_hash f.remote_hash

-- The first three cases of the outer `switch`, and the `default`.
gone_on_both : Facts → Action
gone_on_both f = if f.base_exists then drop_baseline else nothing

only_local : Facts → Action
only_local f =
    if f.local_is_dir
    then if f.base_exists then trash_local else mkdir_remote
    else if not f.base_exists
    then upload
    else if changed_locally f
    then upload
    else trash_local

only_remote : Facts → Action
only_remote f =
    if f.remote_is_dir
    then if f.base_exists then trash_remote else mkdir_local
    else if not f.base_exists
    then download
    else if changed_remotely f
    then download
    else trash_remote

-- The inner `switch`, on what has changed.
both_files : Bool → Bool → Facts → Action
both_files false false f =
    if not f.base_exists then if same_content f then adopt else conflict else nothing
both_files true false f = upload
both_files false true f = download
both_files true true f = if same_content f then adopt else conflict

on_both : Facts → Action
unfolding both_files
on_both f =
    if f.local_is_dir && f.remote_is_dir
    then nothing
    else if not (same_flag f.local_is_dir f.remote_is_dir)
    then conflict
    else both_files (changed_locally f) (changed_remotely f) f

-- `Reconcile`
unfoldable pub reconcile : Facts → Action
unfolding gone_on_both only_local only_remote on_both changed_locally changed_remotely same_content
reconcile f =
    if not f.local_exists && not f.remote_exists
    then gone_on_both f
    else if f.local_exists && not f.remote_exists
    then only_local f
    else if not f.local_exists && f.remote_exists
    then only_remote f
    else on_both f
