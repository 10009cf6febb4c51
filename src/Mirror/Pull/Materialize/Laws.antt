-- ===== src/Mirror/Pull/Materialize/Laws.antt =====
-- What fetching a stub's content does to the folder.
use p_drive.Base.{
  ◌<◌, Text, [], ◌∷◌, ◌++◌, false, none, some, ◌≡◌, refl, sym, subst, arith, ap, ◌∙◌, length,
  length-append, if◌then◌else◌, text_eq, text_eq_iff, text_eq_refl, Bool-cases, inl, inr,
}
use p_drive.State.Rows.{Node, not_materialized, stored, word}
use p_drive.State.Nodes.{get_node, put_node, get_node-put_node}
use p_drive.Paths.{stub_suffix}
use p_drive.Mirror.Disk.{File, Disk, file_at, write_at, remove_at, stage_dirs}
use p_drive.Mirror.Disk.Laws.{file_at-write_at, file_at-remove_at}
use p_drive.Mirror.World.{
  RemoteNode, Settings, Env, Source, World, Outcome, done, fail, ◌>>=◌, ◌>>◌, emit,
  event_transfer_start, event_transfer_done,
}
use p_drive.Mirror.Pull.{
  fetched, ending, commit_staged, stamped, is_directory_there, place, or_disk_failed,
}
use p_drive.Mirror.Pull.Materialize.{
  materialize, materialize_known, materialized_row, fetch_content, settle_content, record_content,
}

stub_elsewhere : (path : Text) → text_eq (path ++ stub_suffix) path ≡ false
stub_elsewhere path =
    elim (Bool-cases (text_eq (path ++ stub_suffix) path))
      as (λ _. text_eq (path ++ stub_suffix) path ≡ false) [
        | inl h ↦ absurd (longer ((text_eq_iff (path ++ stub_suffix) path).0 h))
        | inr h ↦ h
      ]
  where
    longer : (path ++ stub_suffix) ≡ path → ⊥
    longer e = omega (arith, ap length e, length-append path stub_suffix)

module _ (sha1 : Text → Text) (stub_text : RemoteNode → Text) (settings : Settings) (env : Env)
    (S : Source) where
  -- The file that a download leaves.
  abbrev pub arrived : Node → Text → World S.State → File
  arrived n content w = record {
    is_dir = false;
    content = content;
    mtime = stamped n.local_mtime env.now;
    inode = w.next_inode;
  }

  -- The folder as the download leaves it, where the directories to the path were made on `disk`: only
  -- the path and its stub differ, so that no copy of what was there is anywhere in it.
  abbrev pub IsReplaced : Node → File → Disk → Disk → Type 0
  IsReplaced n f disk disk' =
      (p : Text)
      → file_at p disk' ≡ (
          if text_eq p n.path
          then some f
          else if text_eq p (n.path ++ stub_suffix)
          then none
          else file_at p disk)

  -- What is left behind: the content at the path, no stub, nothing else changed in the folder, the row
  -- of a downloaded file, and neither a conflict copy nor anything in the trash.
  abbrev pub IsMaterialized :
      Node → Text → Disk → World S.State → Outcome S.State (Unit {0}) → Type 0
  IsMaterialized n content disk w (fail e w') = ⊥
  IsMaterialized n content disk w (done u w') =
      (file_at n.path w'.disk ≡ some (arrived n content w))
      × (file_at (n.path ++ stub_suffix) w'.disk ≡ none)
      × IsReplaced n (arrived n content w) disk w'.disk
      × (get_node n.path w'.rows
          ≡ some (stored env.now (materialized_row n (sha1 content) (arrived n content w) env.now)))
      × (w'.conflict_log ≡ w.conflict_log)
      × (w'.local_trash ≡ w.local_trash)

  -- The world once the directories are made and the transfer has ended.
  abbrev staged : Node → Disk → World S.State → World S.State
  staged n disk w = record w {
    disk = disk;
    result = w.result;
    events =
        w.events
        ++ (record { kind = event_transfer_done; path = n.path; size = 0; up = false } ∷ []);
  }

  row_found :
      (n : Node) (content : Text) (w : World S.State)
      → w.next_inode < word
      → get_node n.path (
          put_node env.now (materialized_row n (sha1 content) (arrived n content w) env.now) w.rows)
        ≡ some (stored env.now (materialized_row n (sha1 content) (arrived n content w) env.now))
  unfolding materialized_row
  row_found n content w i = ground (
    arith,
    get_node-put_node env.now (materialized_row n (sha1 content) (arrived n content w) env.now)
        n.path w.rows i,
    text_eq_refl n.path,
  )

  settle_content-IsMaterialized :
      (n : Node) (content : Text) (disk : Disk) (w : World S.State)
      → stage_dirs n.path w.disk ≡ some disk
      → is_directory_there (file_at n.path disk) ≡ false
      → w.next_inode < word
      → IsMaterialized n content disk w (settle_content sha1 stub_text settings env S n content w)
  unfolding emit commit_staged
  settle_content-IsMaterialized n content disk w s d i =
      subst
        (λ o. IsMaterialized n content disk w (
          ((λ v. ending sha1 stub_text settings env S n.path (or_disk_failed o v))
              >> (commit_staged n.path content n.local_mtime env.now
                  >>= record_content sha1 stub_text settings env S n content))
            w))
        (sym s)
        (subst
          (λ b. IsMaterialized n content disk w (
            (place b n.path (arrived n content w)
                >>= record_content sha1 stub_text settings env S n content)
              (staged n disk w)))
          (sym d)
          (
            there (arrived n content w),
            none_left (arrived n content w),
            (λ p. replaced (arrived n content w) p),
            row_found n content w i,
            refl,
            refl,
          ))
    where
      there :
          (f : File)
          → file_at n.path (remove_at (n.path ++ stub_suffix) (write_at n.path f disk)) ≡ some f
      there f = ground (
        arith,
        file_at-remove_at (n.path ++ stub_suffix) n.path (write_at n.path f disk),
        file_at-write_at n.path n.path f disk,
        stub_elsewhere n.path,
        text_eq_refl n.path,
        text_eq_iff n.path (n.path ++ stub_suffix),
        text_eq_iff (n.path ++ stub_suffix) n.path,
      )

      replaced :
          (f : File) (p : Text)
          → file_at p (remove_at (n.path ++ stub_suffix) (write_at n.path f disk)) ≡ (
              if text_eq p n.path
              then some f
              else if text_eq p (n.path ++ stub_suffix)
              then none
              else file_at p disk)
      replaced f p = ground (
        arith,
        file_at-remove_at (n.path ++ stub_suffix) p (write_at n.path f disk),
        file_at-write_at n.path p f disk,
        stub_elsewhere n.path,
        text_eq_iff p n.path,
        text_eq_iff n.path p,
        text_eq_iff p (n.path ++ stub_suffix),
        text_eq_iff (n.path ++ stub_suffix) p,
        text_eq_iff (n.path ++ stub_suffix) n.path,
      )

      none_left :
          (f : File)
          → file_at
              (n.path ++ stub_suffix)
              (remove_at (n.path ++ stub_suffix) (write_at n.path f disk))
            ≡ none
      none_left f = ground (
        arith,
        file_at-remove_at (n.path ++ stub_suffix) (n.path ++ stub_suffix) (write_at n.path f disk),
        text_eq_refl (n.path ++ stub_suffix),
      )

  fetch_content-IsMaterialized :
      (n : Node) (content : Text) (disk : Disk) (w : World S.State)
      → S.download n.node_id w.remote ≡ some content
      → stage_dirs n.path w.disk ≡ some disk
      → is_directory_there (file_at n.path disk) ≡ false
      → w.next_inode < word
      → IsMaterialized n content disk w (fetch_content sha1 stub_text settings env S n w)
  unfolding emit
  fetch_content-IsMaterialized n content disk w h s d i =
      subst
        (λ o. IsMaterialized n content disk w (
          ((λ v. fetched sha1 stub_text settings env S o v) >>= (λ c.
              emit event_transfer_start n.path n.size false
              >> settle_content sha1 stub_text settings env S n c))
            w))
        (sym h) (settle_content-IsMaterialized n content disk _ s d i)

  -- Fetching a stub whose content the remote side gives, whose directories can be made and at whose
  -- path there is no directory, succeeds: the content is at the path, the stub is gone and the row
  -- says so. What was at the path before, a file of the user's own included, is replaced: but for
  -- the path, the stub and the directories made for them the folder is unchanged, so that no copy of it
  -- is left, nothing is put into the trash, and no conflict is recorded.
  pub materialize-IsMaterialized :
      (n : Node) (content : Text) (disk : Disk) (w : World S.State)
      → get_node n.path w.rows ≡ some n
      → n.is_dir ≡ false
      → n.mat ≡ not_materialized
      → S.download n.node_id w.remote ≡ some content
      → stage_dirs n.path w.disk ≡ some disk
      → is_directory_there (file_at n.path disk) ≡ false
      → w.next_inode < word
      → IsMaterialized n content disk w (materialize sha1 stub_text settings env S n.path w)
  unfolding materialize
  materialize-IsMaterialized n content disk w g f m h s d i =
      subst (IsMaterialized n content disk w) (sym known)
        (fetch_content-IsMaterialized n content disk w h s d i)
    where
      chosen :
          materialize_known sha1 stub_text settings env S (some n) w
          ≡ fetch_content sha1 stub_text settings env S n w
      chosen = ground arith

      known :
          materialize_known sha1 stub_text settings env S (get_node n.path w.rows) w
          ≡ fetch_content sha1 stub_text settings env S n w
      known = ap (λ o. materialize_known sha1 stub_text settings env S o w) g ∙ chosen
