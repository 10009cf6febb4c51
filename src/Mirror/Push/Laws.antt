-- ===== src/Mirror/Push/Laws.antt =====
-- What `push` guarantees of its guard.
use p_drive.Base.{Text, Bool, Option, some, ◌≡◌, refl, sym, subst, length}
use p_drive.State.Nodes.{count_nodes}
use p_drive.Mirror.World.{RemoteNode, Settings, Env, Source, World, M, Err, ◌>>◌, stop_if}
use p_drive.Mirror.World.Laws.{SameTables, StoppedBy}
use p_drive.Mirror.Guards.{check_deletion_cliff}
use p_drive.Mirror.Scan.{Local}
use p_drive.Mirror.Push.Moves.{find_local_deletions, detect_moves, unmoved}
use p_drive.Mirror.Push.{push}

module _ (sha1 : Text → Text) (stub_text : RemoteNode → Text) (like : Text → Text → Bool)
    (settings : Settings) (env : Env) (S : Source) where
  stopped_before :
      (w w' : World S.State) (e : Err) (verdict : Option Err) (k : M S.State (Unit {0}))
      → SameTables w w'
      → verdict ≡ some e
      → StoppedBy w e ((stop_if verdict >> k) w')
  stopped_before w w' e verdict k same h =
      subst (λ v. StoppedBy w e ((stop_if v >> k) w')) (sym h) (same, refl)

  -- Where the local deletions that are no moves are so many that the deletion guard objects, `push`
  -- fails with the guard's error and leaves the folder, the trash directory, the tables and the
  -- remote side as they are: no move, no deletion and no upload is sent.
  pub push-guarded :
      (local : Local) (w : World S.State) (e : Err)
      → check_deletion_cliff settings (count_nodes w.rows) (
          length (
            unmoved
              (find_local_deletions w.rows local w.disk)
              (detect_moves sha1 w.disk w.rows local
                (find_local_deletions w.rows local w.disk)).moves))
        ≡ some e
      → StoppedBy w e (push sha1 stub_text like settings env S local w)
  unfolding push
  push-guarded local w e h =
      stopped_before w _ e _ _
        (record {
          same_disk = refl;
          same_trash = refl;
          same_rows = refl;
          same_meta = refl;
          same_remote = refl;
        })
        h
