-- ===== src/Mirror/Pull/Download.antt =====
-- A download loses no local work.
use p_drive.Base.{
  ℕ, Text, [], ◌++◌, Bool, true, false, Option, none, some, ◌≡◌, ◌⊎◌, inl, inr, refl, arith, ap,
  text_eq, text_eq_iff, length, length-append, Bool-cases, if_elim,
}
use p_drive.State.Rows.{Node, Time}
use p_drive.State.Nodes.{get_node, put_node}
use p_drive.Paths.{stub_suffix, conflict_name}
use p_drive.Paths.Conflicts.{length-conflict_name, length-marked}
use p_drive.Mirror.Disk.{File, Disk, file_at, write_at, stage_dirs, mkdir_all}
use p_drive.Mirror.Disk.Laws.{
  file_at-write_at, file_at-remove_at, stage_dirs-keeps, mkdir_all-keeps,
}
use p_drive.Mirror.World.{
  LocalNode, RemoteNode, Settings, Env, Source, World, Outcome, done, fail, M, world_of, emit,
  event_transfer_start, event_dir, tally, set_rows, ◌>>=◌, ◌>>◌,
}
use p_drive.Mirror.Scan.{local_at}
use p_drive.Mirror.Keep.{agrees_with_base, agrees_with, preserve_local_if_conflicting}
use p_drive.Mirror.Keep.Laws.{IsKept, preserve_local_if_conflicting-keeps}
use p_drive.Mirror.Pull.{
  commit_staged, place, drop_stub, settle_download, download_node, record_download, warn_if, stage,
  fetched, ending, or_disk_failed, write_stub_for, apply_dir, apply_node, apply_file, run_step,
  FileStep, leave_stub, bring_down, skip_file, skip, count_dir, dir_row,
}

-- The mark makes a name longer than a stub's suffix does.
conflict_name-ne-path :
    (path stamp host : Text) → text_eq path (conflict_name path stamp host) ≡ false
conflict_name-ne-path path stamp host =
    elim (Bool-cases (text_eq path (conflict_name path stamp host))) [
      | inl same ↦ absurd (
          omega (
            arith,
            ap length ((text_eq_iff path (conflict_name path stamp host)).0 same),
            length-conflict_name path stamp host,
            length-marked stamp host,
          ))
      | inr other ↦ other
    ]

conflict_name-ne-stub :
    (path stamp host : Text) → text_eq (conflict_name path stamp host) (path ++ stub_suffix) ≡ false
conflict_name-ne-stub path stamp host =
    elim (Bool-cases (text_eq (conflict_name path stamp host) (path ++ stub_suffix))) [
      | inl same ↦ absurd (
          omega (
            arith,
            ap length ((text_eq_iff (conflict_name path stamp host) (path ++ stub_suffix)).0 same),
            length-append path stub_suffix,
            length-conflict_name path stamp host,
            length-marked stamp host,
          ))
      | inr other ↦ other
    ]

-- A property of the disk that a call keeps, whether it succeeds or fails.
abbrev Keeps : {R A : Type 0} → (Disk → Type 0) → M R A → Type 0
Keeps {R} P m = (w : World R) → P w.disk → P (world_of (m w)).disk

>>=-Keeps :
    {R A B : Type 0} (P : Disk → Type 0) (m : M R A) (f : A → M R B)
    → Keeps P m
    → ((a : A) → Keeps P (f a))
    → Keeps P (m >>= f)
>>=-Keeps P m f hm hf w h = go (m w) (hm w h)
  where
    go :
        (o : Outcome _ _)
        → P (world_of o).disk
        → P (world_of (elim o [ done a w' ↦ f a w' | fail e w' ↦ fail e w' ])).disk
    go (done a w') k = hf a w' k
    go (fail e w') k = k

-- What arrives is the content of the file already.
abbrev pub arrives : (Text → Text) → Option Text → File → Bool
arrives sha1 none f = false
arrives sha1 (some content) f = agrees_with (sha1 content) (sha1 f.content)

module _ (sha1 : Text → Text) (base : Option Node) (coming : Option Text) (path keep : Text)
    (f : File) where
  -- The content of the file can still be found: it is what the baseline records, or it is what
  -- arrives from the remote side, or the file is at its path or under the conflict name.
  abbrev pub IsSafe : Disk → Type 0
  IsSafe disk =
      (agrees_with_base base (sha1 f.content) ≡ true)
      ⊎ (arrives sha1 coming f ≡ true)
      ⊎ (file_at path disk ≡ some f)
      ⊎ (file_at keep disk ≡ some f)

  -- The same, without the file at its path, which may be replaced now.
  abbrev IsSettled : Disk → Type 0
  IsSettled disk =
      (agrees_with_base base (sha1 f.content) ≡ true)
      ⊎ (arrives sha1 coming f ≡ true)
      ⊎ (file_at keep disk ≡ some f)

  IsSettled-IsSafe : (disk : Disk) → IsSettled disk → IsSafe disk
  IsSettled-IsSafe disk h = ground arith

  drop_stub-Keeps :
      {R : Type 0}
      → text_eq keep (path ++ stub_suffix) ≡ false
      → Keeps {R = R} IsSettled (drop_stub path)
  drop_stub-Keeps n w h = ground (arith, file_at-remove_at (path ++ stub_suffix) keep w.disk)

  write_at-IsSettled :
      (g : File) (disk : Disk)
      → text_eq path keep ≡ false
      → IsSettled disk
      → IsSettled (write_at path g disk)
  write_at-IsSettled g disk n h = ground (arith, file_at-write_at path keep g disk)

  place-Keeps :
      (blocked : Bool) (g : File) {R : Type 0}
      → text_eq path keep ≡ false
      → Keeps {R = R} IsSettled (place blocked path g)
  place-Keeps true g n w h = h
  place-Keeps false g n w h = write_at-IsSettled g w.disk n h

  commit_staged-Keeps :
      (content : Text) (mtime : Time) (now : ℕ) {R : Type 0}
      → text_eq path keep ≡ false
      → Keeps {R = R} IsSettled (commit_staged path content mtime now)
  unfolding commit_staged
  commit_staged-Keeps content mtime now n w h = place-Keeps _ _ n w h

module _ (sha1 : Text → Text) (stub_text : RemoteNode → Text) (settings : Settings) (env : Env)
    (S : Source) (n : RemoteNode) (f : File) (before : LocalNode) where
  abbrev keep : Text
  keep = conflict_name n.path env.conflict_stamp env.hostname

  abbrev Safe : World S.State → Option Text → Disk → Type 0
  Safe w coming = IsSafe sha1 (get_node n.path w.rows) coming n.path keep f

  -- The facts about the file and the scan, which the calls before the download leave alone.
  record Seen (w : World S.State) : Type 0 where
    there : file_at n.path w.disk ≡ some f
    no_dir : f.is_dir ≡ false
    scanned : local_at n.path w.local_before ≡ some before
    scanned_file : before.is_dir ≡ false
    hashed : (before.hash ≡ []) ⊎ (before.hash ≡ sha1 f.content)

  abbrev replace_file : Text → M S.State (Unit {0})
  replace_file content = do
    drop_stub n.path
    g ← commit_staged n.path content n.modified env.now
    record_download sha1 stub_text settings env S n (sha1 content) g

  replace_file-Keeps :
      (content : Text) (base : Option Node) (coming : Option Text)
      → Keeps (IsSettled sha1 base coming n.path keep f) (replace_file content)
  unfolding emit
  replace_file-Keeps content base coming w h =
      >>=-Keeps (IsSettled sha1 base coming n.path keep f)
        (commit_staged n.path content n.modified env.now)
        (λ g. record_download sha1 stub_text settings env S n (sha1 content) g)
        (commit_staged-Keeps sha1 base coming n.path keep f content n.modified env.now
          (conflict_name-ne-path n.path env.conflict_stamp env.hostname))
        (λ g w' k. k) _
        (drop_stub-Keeps sha1 base coming n.path keep f
          (conflict_name-ne-stub n.path env.conflict_stamp env.hostname) w h)

  -- What follows the staging, from the world as `preserveLocalIfConflicting` leaves it.
  replace_file_kept :
      (content : Text) (base : Option Node) (o : Outcome S.State (Unit {0}))
      → IsKept sha1 n.path keep (sha1 content) f base o
      → IsSafe sha1 base
          (some content)
          n.path
          keep
          f
          (world_of (elim o [ done a w' ↦ replace_file content w' | fail e w' ↦ fail e w' ])).disk
  replace_file_kept content base (done a w) k =
      IsSettled-IsSafe sha1 base (some content) n.path keep f _
        (replace_file-Keeps content base (some content) w (ground arith))
  replace_file_kept content base (fail e w) k = inr (inr (inl k))

  abbrev settle : Text → M S.State (Unit {0})
  settle content = settle_download sha1 stub_text settings env S n content

  settle_warned :
      (content : Text) (warns : Bool) (w : World S.State)
      → Seen w
      → Safe w
          (some content)
          (world_of (
            (warn_if sha1 stub_text settings env S warns n.path >> (do
              preserve_local_if_conflicting env sha1 n.path (sha1 content)
              replace_file content))
              w)).disk
  unfolding emit
  settle_warned content true w s = replace_file_kept content (get_node n.path w.rows) _ (
      preserve_local_if_conflicting-keeps sha1 env n.path (sha1 content) f _ before s.there s.no_dir
        s.scanned s.scanned_file s.hashed)
  settle_warned content false w s = replace_file_kept content (get_node n.path w.rows) _ (
      preserve_local_if_conflicting-keeps sha1 env n.path (sha1 content) f w before s.there s.no_dir
        s.scanned s.scanned_file s.hashed)

  settle_download-IsSafe :
      (content : Text) (w : World S.State)
      → Seen w
      → Safe w (some content) (world_of (settle content w)).disk
  unfolding settle_download
  settle_download-IsSafe content w s = settle_warned content _ w s

  -- The staging makes directories only.
  stage-Seen :
      (d : Disk) (w : World S.State)
      → Seen w
      → stage_dirs n.path w.disk ≡ some d
      → Seen (record w { disk = d })
  stage-Seen d w s e = record {
    there = stage_dirs-keeps n.path n.path f w.disk d e s.there;
    no_dir = s.no_dir;
    scanned = s.scanned;
    scanned_file = s.scanned_file;
    hashed = s.hashed;
  }

  ending-IsSafe :
      (base : Option Node) (coming : Option Text) (o : Outcome S.State (Unit {0}))
      → IsSafe sha1 base coming n.path keep f (world_of o).disk
      → IsSafe sha1 base coming n.path keep f
          (world_of (ending sha1 stub_text settings env S n.path o)).disk
  unfolding emit
  ending-IsSafe base coming (done a w) h = h
  ending-IsSafe base coming (fail e w) h = h

  staged-IsSafe :
      (content : Text) (w : World S.State) (o : Option Disk)
      → Seen w
      → stage_dirs n.path w.disk ≡ o
      → Safe w (some content) (world_of ((or_disk_failed o >> settle content) w)).disk
  staged-IsSafe content w none s e = inr (inr (inl s.there))
  staged-IsSafe content w (some d) s e = settle_download-IsSafe content _ (stage-Seen d w s e)

  fetched-IsSafe :
      (coming : Option Text) (w : World S.State)
      → Seen w
      → Safe w coming
          (world_of (
            (fetched sha1 stub_text settings env S coming >>= λ content. do
              emit event_transfer_start n.path n.size false
              λ w'.
                  ending sha1 stub_text settings env S n.path
                    ((stage sha1 stub_text settings env S n.path >> settle content) w'))
              w)).disk
  unfolding emit
  fetched-IsSafe none w s = inr (inr (inl s.there))
  fetched-IsSafe (some content) w s =
      let started : World S.State = world_of (emit event_transfer_start n.path n.size false w) in
      ending-IsSafe (get_node n.path w.rows) (some content)
        ((or_disk_failed (stage_dirs n.path w.disk) >> settle content) started)
        (staged-IsSafe content started (stage_dirs n.path w.disk)
          (record {
            there = s.there;
            no_dir = s.no_dir;
            scanned = s.scanned;
            scanned_file = s.scanned_file;
            hashed = s.hashed;
          })
          refl)

  download_node-IsSafe :
      (w : World S.State)
      → Seen w
      → Safe w
          (S.download n.link_id w.remote)
          (world_of (download_node sha1 stub_text settings env S n w)).disk
  unfolding download_node
  download_node-IsSafe w s = fetched-IsSafe (S.download n.link_id w.remote) w s

  IsThere : Outcome S.State (Unit {0}) → Type 0
  IsThere o = file_at n.path (world_of o).disk ≡ some f

  -- A file that is there stays as it is where `writeStubFor` is called.
  write_stub_for-keeps :
      (w : World S.State) → Seen w → IsThere (write_stub_for sha1 stub_text settings env S n w)
  unfolding write_stub_for emit IsThere
  write_stub_for-keeps w s = rw (s.there) (simp (s.no_dir) s.there)

  made-keeps :
      (w : World S.State) (o : Option Disk)
      → Seen w
      → mkdir_all n.path w.disk ≡ o
      → IsThere (
          (or_disk_failed o >> (do
            tally count_dir
            emit event_dir n.path 0 false
            set_rows (put_node env.now (dir_row n.path n.link_id n.parent_id env.now))))
            w)
  unfolding emit IsThere
  made-keeps w none s e = s.there
  made-keeps w (some d) s e = mkdir_all-keeps n.path n.path f w.disk d e s.there

  apply_dir-keeps :
      (w : World S.State) → Seen w → IsThere (apply_dir sha1 stub_text settings env S n w)
  unfolding apply_dir
  apply_dir-keeps w s = made-keeps w (mkdir_all n.path w.disk) s refl

  skip-keeps :
      (w : World S.State) (size : ℕ)
      → Seen w
      → IsThere (skip sha1 stub_text settings env S n.path size w)
  unfolding emit IsThere
  skip-keeps w size s = s.there

  IsThere-IsSafe :
      (w : World S.State) (coming : Option Text) (o : Outcome S.State (Unit {0}))
      → IsThere o
      → Safe w coming (world_of o).disk
  unfolding IsThere
  IsThere-IsSafe w coming o h = inr (inr (inl h))

  run_step-IsSafe :
      (step : FileStep) (w : World S.State)
      → Seen w
      → Safe w
          (S.download n.link_id w.remote)
          (world_of (run_step sha1 stub_text settings env S step n w)).disk
  run_step-IsSafe leave_stub w s =
      IsThere-IsSafe w (S.download n.link_id w.remote)
        (write_stub_for sha1 stub_text settings env S n w) (write_stub_for-keeps w s)
  run_step-IsSafe bring_down w s = download_node-IsSafe w s
  run_step-IsSafe (skip_file size) w s =
      IsThere-IsSafe w (S.download n.link_id w.remote)
        (skip sha1 stub_text settings env S n.path size w) (skip-keeps w size s)

  apply_file-IsSafe :
      (w : World S.State)
      → Seen w
      → Safe w
          (S.download n.link_id w.remote)
          (world_of (apply_file sha1 stub_text settings env S n w)).disk
  unfolding apply_file
  apply_file-IsSafe w s = run_step-IsSafe _ w s

  -- Making a remote node true locally loses no local file: a file at the node's path, whose hash the
  -- scan took rightly or left open, is afterwards still at that path or under the conflict name,
  -- unless its content is what the baseline records or what was downloaded, on every branch and
  -- also where a step fails.
  pub apply_node-IsSafe :
      (w : World S.State)
      → file_at n.path w.disk ≡ some f
      → f.is_dir ≡ false
      → local_at n.path w.local_before ≡ some before
      → before.is_dir ≡ false
      → (before.hash ≡ []) ⊎ (before.hash ≡ sha1 f.content)
      → IsSafe sha1
          (get_node n.path w.rows)
          (S.download n.link_id w.remote)
          n.path
          (conflict_name n.path env.conflict_stamp env.hostname)
          f
          (world_of (apply_node sha1 stub_text settings env S n w)).disk
  unfolding apply_node
  apply_node-IsSafe w t d l b h =
      let s : Seen w = record {
        there = t;
        no_dir = d;
        scanned = l;
        scanned_file = b;
        hashed = h;
      } in
      if_elim (λ o. Safe w (S.download n.link_id w.remote) (world_of o).disk) n.is_dir
        (apply_dir sha1 stub_text settings env S n w) (apply_file sha1 stub_text settings env S n w)
        (λ _.
          IsThere-IsSafe w (S.download n.link_id w.remote)
            (apply_dir sha1 stub_text settings env S n w) (apply_dir-keeps w s))
        (λ _. apply_file-IsSafe w s)
