-- ===== src/Mirror/Keep.antt =====
-- internal/mirror/conflict.go: the local version of a file is put aside before a download replaces it.
pub mod Laws
use p_drive.Base.{
  codes, ◌++◌, ℕ, ◌+◌, Text, codes, List, [], ◌∷◌, ◌++◌, Bool, true, false, not, ◌&&◌, Option, none,
  some, is_empty, equal_fold, if◌then◌else◌,
}
use p_drive.State.Rows.{Node, Row}
use p_drive.State.Nodes.{get_node}
use p_drive.State.Activity.{record_conflict}
use p_drive.Paths.{conflict_name}
use p_drive.Mirror.Disk.{File, Disk, file_at, Renamed, not_there, blocked, renamed, rename_file}
use p_drive.Mirror.World.{
  LocalNode, Env, World, M, Outcome, done, fail, Err, disk_failed, ◌>>=◌, ◌>>◌, pass, throw, emit,
  tally, set_disk, event_conflict, Result,
}
use p_drive.Mirror.Scan.{local_at}

-- What is known of the local file: nothing that needs care, its hash, or no way to find out.
pub data Known : Type 0 where
  nothing_there unreadable : Known
  known : Text → Known

-- The baseline, or what is arriving, is the same content.
abbrev pub agrees_with_base : Option Node → Text → Bool
agrees_with_base none sum = false
agrees_with_base (some base) sum =
    not (is_empty base.content_hash) && equal_fold sum base.content_hash

abbrev pub agrees_with : Text → Text → Bool
agrees_with incoming sum = not (is_empty incoming) && equal_fold sum incoming

abbrev pub put_conflict : Env → Text → Text → Text → {R : Type 0} → World R → World R
put_conflict env path keep incoming w = record w {
  conflict_log = record_conflict env.now path keep incoming w.conflict_log;
}

module _ (sha1 : Text → Text) where
  -- A file whose hash the scan left open is hashed now.
  abbrev pub hash_now : Option File → Known
  hash_now none = nothing_there
  hash_now (some f) = if f.is_dir then unreadable else known (sha1 f.content)

  abbrev pub known_hash : Text → Disk → Option LocalNode → Known
  known_hash path disk none = nothing_there
  known_hash path disk (some before) =
      if before.is_dir
      then nothing_there
      else if is_empty before.hash
      then hash_now (file_at path disk)
      else known before.hash

abbrev pub count_conflict : Result → Result
count_conflict r = record r { conflicts = r.conflicts + 1 }

module _ (env : Env) {R : Type 0} where
  -- The rename, and the record of it.
  abbrev pub put_aside : Text → Text → Renamed → M R (Unit {0})
  put_aside path incoming not_there w = done tt w
  put_aside path incoming blocked w = fail disk_failed w
  put_aside path incoming (renamed disk) w =
      (tally count_conflict
          >> emit event_conflict
              (path
                ++ codes " -> kept local copy as "
                ++ conflict_name path env.conflict_stamp env.hostname)
              0 false)
        (put_conflict env path (conflict_name path env.conflict_stamp env.hostname) incoming
          (record w { disk = disk }))

  abbrev pub keep_known : Text → Text → Known → M R (Unit {0})
  keep_known path incoming nothing_there w = done tt w
  keep_known path incoming unreadable w = fail disk_failed w
  keep_known path incoming (known sum) w =
      if agrees_with_base (get_node path w.rows) sum
      then done tt w
      else if agrees_with incoming sum
      then done tt w
      else put_aside path incoming
          (rename_file path (conflict_name path env.conflict_stamp env.hostname) w.disk) w

  -- `preserveLocalIfConflicting`
  unfoldable pub preserve_local_if_conflicting : (Text → Text) → Text → Text → M R (Unit {0})
  preserve_local_if_conflicting sha1 path incoming w =
      keep_known path incoming (known_hash sha1 path w.disk (local_at path w.local_before)) w
