-- ===== src/Backup/Stored.antt =====
-- The entries of the manifest and the files on disk, step by step of the walk (internal/backup/backup.go, Run).
use p_drive.Base.{
  ℕ, ◌+◌, Text, List, [], ◌∷◌, ◌++◌, Bool, true, false, not, ◌&&◌, ◌||◌, Option, none, some, ◌≡◌,
  refl, sym, ap, ◌∙◌, subst, ◌⊎◌, inl, inr, arith, All, All-map, All-append, sort-All, Option-cases,
  is_empty, equal_fold, equal_fold_refl, text_eq, text_eq_iff, text_eq_refl, length, length-append,
  insert_sorted, sort, if◌then◌else◌, if_elim, ltb, ◌==◌,
}
use p_drive.SafePath.{Checked, ok, err, sanitize_path}
use p_drive.SafePath.Laws.{sanitize_path_sound}
use p_drive.Mirror.Disk.{
  File, Disk, file_at, write_at, remove_at, mkdir_all, mkdir_parent, rename_file,
}
use p_drive.Mirror.Disk.Laws.{
  file_at-write_at, file_at-remove_at, mkdir_all-keeps, mkdir_parent-keeps,
}
use p_drive.Mirror.World.{RemoteNode}
use p_drive.Backup.{
  Entry, Progress, part_suffix, part_file, is_dir_at, local_path, placed, store_content, download,
  existing_file, record_file, fetch_file, keep_or_fetch, make_dir, store_node, visit_at, visit,
  visits, run, warn_digest, started, sorted_manifest, dir_entry, file_entry, by_path,
}

-- A path and a node of the walk do not get in each other's way: the node is not at the path, and
-- neither is the temporary file of its download.
abbrev pub IsApart : Text → RemoteNode → Type 0
IsApart path n = (text_eq n.path path ≡ false) × (text_eq (n.path ++ part_suffix) path ≡ false)

pub local_path_sound : (path local : Text) → local_path path ≡ some local → local ≡ path
unfolding local_path
local_path_sound path local h = go (sanitize_path path) refl h
  where
    go :
        (r : Checked (List Text))
        → sanitize_path path ≡ r
        → (elim r [
          | ok parts ↦ some (p_drive.Base.join_with p_drive.Base.slash parts)
          | err e ↦ none
        ])
          ≡ some local
        → local ≡ path
    go (ok parts) e k = ground (arith, (sanitize_path_sound path parts e).0)
    go (err e') e k = cc

module _ (tmp dest content : Text) (disk : Disk) where
  abbrev put : Disk × Option Text
  put =
      placed tmp content (write_at tmp (part_file content) disk)
        (rename_file tmp dest (write_at tmp (part_file content) disk))

  put-keeps :
      (other : Text) (f : File)
      → text_eq dest other ≡ false
      → text_eq tmp other ≡ false
      → file_at other disk ≡ some f
      → file_at other put.0 ≡ some f
  unfolding rename_file
  put-keeps other f d t h =
      let staged : Disk = write_at tmp (part_file content) disk in
      ground (
        arith,
        file_at-write_at tmp other (part_file content) disk,
        file_at-remove_at tmp other staged,
        file_at-write_at dest other (part_file content) (remove_at tmp staged),
        file_at-write_at tmp tmp (part_file content) disk,
        text_eq_refl tmp,
        text_eq_iff tmp other,
        text_eq_iff other tmp,
      )

  put-stores :
      (c : Text) → put.1 ≡ some c → (c ≡ content) × (file_at dest put.0 ≡ some (part_file content))
  unfolding rename_file
  put-stores c h =
      let staged : Disk = write_at tmp (part_file content) disk in
      ground (
        arith,
        file_at-write_at dest dest (part_file content) (remove_at tmp staged),
        file_at-write_at tmp tmp (part_file content) disk,
        text_eq_refl tmp,
        text_eq_refl dest,
      )

store_content-keeps :
    (dest content other : Text) (f : File) (disk : Disk)
    → text_eq dest other ≡ false
    → text_eq (dest ++ part_suffix) other ≡ false
    → file_at other disk ≡ some f
    → file_at other (store_content dest content disk).0 ≡ some f
unfolding store_content
store_content-keeps dest content other f disk d t h =
    if_elim (λ (r : Disk × Option Text). file_at other r.0 ≡ some f)
      (is_dir_at (file_at (dest ++ part_suffix) disk)) _ _ (λ _. h)
      (λ _. put-keeps (dest ++ part_suffix) dest content disk other f d t h)

abbrev Stores : Text → Text → Disk × Option Text → Type 0
Stores dest content (disk, none) = Unit
Stores dest content (disk, some c) = (c ≡ content) × (file_at dest disk ≡ some (part_file content))

store_content-Stores :
    (dest content : Text) (disk : Disk) → Stores dest content (store_content dest content disk)
unfolding store_content
store_content-Stores dest content disk =
    if_elim (Stores dest content) (is_dir_at (file_at (dest ++ part_suffix) disk)) _ _ (λ _. tt)
      (λ _.
        read (put (dest ++ part_suffix) dest content disk)
          (put-stores (dest ++ part_suffix) dest content disk))
  where
    read :
        (r : Disk × Option Text)
        → ((c : Text)
            → r.1 ≡ some c
            → (c ≡ content) × (file_at dest r.0 ≡ some (part_file content)))
        → Stores dest content r
    read (d, none) h = tt
    read (d, some c) h = h c refl

module _ (sha1 : Text → Text) where
  -- The file of an entry is there, with the hash that the entry records.
  pub record IsStoredFile (disk : Disk) (e : Entry) : Type 0 where
    pub file : File
    pub there : file_at e.path disk ≡ some file
    pub no_dir : file.is_dir ≡ false
    pub hashed : sha1 file.content ≡ e.sha1
    pub accepted : local_path e.path ≡ some e.path

  abbrev pub IsStored : Disk → Entry → Type 0
  IsStored disk e = (e.is_dir ≡ true) ⊎ IsStoredFile disk e

  -- What one node of the walk does: files that it is apart from stay, and at most one entry is
  -- added, which is stored.
  record IsStep (n : RemoteNode) (b b' : Progress) : Type 0 where
    keeps :
        (path : Text) (f : File)
        → IsApart path n
        → file_at path b.disk ≡ some f
        → file_at path b'.disk ≡ some f
    adds :
        (b'.manifest.entries ≡ b.manifest.entries)
        ⊎ ((e : Entry) × (b'.manifest.entries ≡ b.manifest.entries ++ (e ∷ []))
            × (e.path ≡ n.path)
            × IsStored b'.disk e)

  abbrev Steps : RemoteNode → Progress → Option Progress → Type 0
  Steps n b none = Unit
  Steps n b (some b') = IsStep n b b'

  module _ (fetch : Text → Option Text) (resume : Bool) where
    make_dir-Steps :
        (n : RemoteNode) (b : Progress) (o : Option Disk)
        → mkdir_all n.path b.disk ≡ o
        → Steps n b (make_dir sha1 fetch resume n b o)
    make_dir-Steps n b none h = tt
    make_dir-Steps n b (some disk) h = record {
      keeps = λ path f a t. mkdir_all-keeps n.path path f b.disk disk h t;
      adds = inr (dir_entry n, refl, refl, inl refl);
    }

    warned-disk :
        (n : RemoteNode) (sum : Text) (b : Progress) → (warn_digest sha1 n sum b).disk ≡ b.disk
    warned-disk n sum b = ground arith

    -- What was at the path, or is there now, with the entry for it.
    record_file-Steps :
        (n : RemoteNode) (b : Progress) (r : Disk × Option Text) (content : Text)
        → local_path n.path ≡ some n.path
        → ((path : Text) (f : File)
            → IsApart path n
            → file_at path b.disk ≡ some f
            → file_at path r.0 ≡ some f)
        → Stores n.path content r
        → IsStep n b (record_file sha1 n b r)
    record_file-Steps n b (disk, none) content l k s = record { keeps = k; adds = inl refl }
    record_file-Steps n b (disk, some c) content l k s = record {
      keeps = λ path f a t.
          subst (λ d. file_at path d ≡ some f)
            (sym (warned-disk n (sha1 c) (record b { disk = disk }))) (k path f a t);
      adds = inr (
        file_entry n (sha1 c) (length c),
        refl,
        refl,
        inr (record {
          file = part_file c;
          there =
              subst (λ d. file_at n.path d ≡ some (part_file c))
                (sym (warned-disk n (sha1 c) (record b { disk = disk })))
                (subst (λ x. file_at n.path disk ≡ some (part_file x)) (sym (s.0)) s.1);
          no_dir = refl;
          hashed = refl;
          accepted = l;
        }),
      );
    }

    downloaded-Steps :
        (n : RemoteNode) (b : Progress) (disk : Disk) (o : Option Text)
        → local_path n.path ≡ some n.path
        → mkdir_parent n.path b.disk ≡ some disk
        → IsStep n b (record_file sha1 n b (download n.path disk o))
    downloaded-Steps n b disk none l h =
        record_file-Steps n b (disk, none) [] l
          (λ path f a t. mkdir_parent-keeps n.path path f b.disk disk h t) tt
    downloaded-Steps n b disk (some content) l h =
        record_file-Steps n b (store_content n.path content disk) content l
          (λ path f a t.
            store_content-keeps n.path content path f disk a.0 a.1
              (mkdir_parent-keeps n.path path f b.disk disk h t))
          (store_content-Stores n.path content disk)

    fetch_file-Steps :
        (n : RemoteNode) (b : Progress) (o : Option Disk)
        → local_path n.path ≡ some n.path
        → mkdir_parent n.path b.disk ≡ o
        → Steps n b (fetch_file sha1 fetch resume n n.path b o)
    fetch_file-Steps n b none l h = tt
    fetch_file-Steps n b (some disk) l h = downloaded-Steps n b disk (fetch n.link_id) l h

    abbrev Matches : RemoteNode → Progress → Option (Text × ℕ) → Type 0
    Matches n b none = Unit
    Matches n b (some (sum, size)) =
        (f : File) × (file_at n.path b.disk ≡ some f) × (f.is_dir ≡ false) × (sha1 f.content ≡ sum)

    keep_or_fetch-Steps :
        (n : RemoteNode) (b : Progress) (o : Option (Text × ℕ))
        → local_path n.path ≡ some n.path
        → Matches n b o
        → Steps n b (keep_or_fetch sha1 fetch resume n n.path b o)
    keep_or_fetch-Steps n b none l m = fetch_file-Steps n b (mkdir_parent n.path b.disk) l refl
    keep_or_fetch-Steps n b (some (sum, size)) l (f, t, d, e) = record {
      keeps = λ path g a h. h;
      adds = inr (
        file_entry n sum size,
        refl,
        refl,
        inr (record { file = f; there = t; no_dir = d; hashed = e; accepted = l }),
      );
    }

    existing_file-Matches :
        (n : RemoteNode) (b : Progress) (want : ℕ) (o : Option File)
        → file_at n.path b.disk ≡ o
        → Matches n b (existing_file sha1 want o)
    unfolding existing_file
    existing_file-Matches n b want none h = tt
    existing_file-Matches n b want (some f) h =
        if_elim (Matches n b) (f.is_dir || (ltb 0 want && not (length f.content == want))) _ _
          (λ _. tt) (λ e. (f, h, (ground arith), refl))

    store_node-Steps :
        (n : RemoteNode) (b : Progress)
        → local_path n.path ≡ some n.path
        → Steps n b (store_node sha1 fetch resume n n.path b)
    store_node-Steps n b l =
        if_elim (Steps n b) n.is_dir _ _ (λ _. make_dir-Steps n b (mkdir_all n.path b.disk) refl)
          (λ _.
            keep_or_fetch-Steps n b
              (if resume then existing_file sha1 n.size (file_at n.path b.disk) else none) l
              (if_elim (Matches n b) resume _ _
                (λ _. existing_file-Matches n b n.size (file_at n.path b.disk) refl) (λ _. tt)))

    visit_at-Steps :
        (n : RemoteNode) (b : Progress) (o : Option Text)
        → local_path n.path ≡ o
        → Steps n b (visit_at sha1 fetch resume n b o)
    visit_at-Steps n b none h = record { keeps = λ path f a t. t; adds = inl refl }
    visit_at-Steps n b (some local) h =
        let same = local_path_sound n.path local h in
        subst (λ p. Steps n b (store_node sha1 fetch resume n p b)) (sym same)
          (store_node-Steps n b (h ∙ ap some same))

    visit-Steps : (n : RemoteNode) (b : Progress) → Steps n b (visit sha1 fetch resume n b)
    unfolding visit
    visit-Steps n b = visit_at-Steps n b (local_path n.path) refl

  -- No two nodes of the walk get in each other's way.
  abbrev pub IsWalk : List RemoteNode → Type 0
  IsWalk [] = Unit
  IsWalk (n ∷ nodes) = All (IsApart n.path) nodes × IsWalk nodes

  abbrev IsKept : List RemoteNode → Disk → Entry → Type 0
  IsKept nodes disk e = IsStored disk e × All (IsApart e.path) nodes

  stays-IsStored :
      (n : RemoteNode) (b b' : Progress) (e : Entry)
      → IsStep n b b'
      → IsApart e.path n
      → IsStored b.disk e
      → IsStored b'.disk e
  stays-IsStored n b b' e s a (inl d) = inl d
  stays-IsStored n b b' e s a (inr h) = inr (record {
    file = h.file;
    there = s.keeps e.path h.file a h.there;
    no_dir = h.no_dir;
    hashed = h.hashed;
    accepted = h.accepted;
  })

  step-IsKept :
      (n : RemoteNode) (nodes : List RemoteNode) (b b' : Progress)
      → IsStep n b b'
      → All (IsApart n.path) nodes
      → All (IsKept (n ∷ nodes) b.disk) b.manifest.entries
      → All (IsKept nodes b'.disk) b'.manifest.entries
  step-IsKept n nodes b b' s a h = elim s.adds [
    | inl same ↦ subst (All (IsKept nodes b'.disk)) (sym same) old
    | inr (e, more, path, stored) ↦ subst (All (IsKept nodes b'.disk)) (sym more) (
        All-append (IsKept nodes b'.disk) b.manifest.entries (e ∷ []) old
          ((stored, subst (λ p. All (IsApart p) nodes) (sym path) a), tt))
  ]
    where
      old : All (IsKept nodes b'.disk) b.manifest.entries
      old =
          All-map (IsKept (n ∷ nodes) b.disk) (IsKept nodes b'.disk) b.manifest.entries
            (λ e k. (stays-IsStored n b b' e s k.1.0 k.0, k.1.1)) h

  module _ (fetch : Text → Option Text) (resume : Bool) where
    abbrev pub AllStored : Option Progress → Type 0
    AllStored none = Unit
    AllStored (some b) = All (IsStored b.disk) b.manifest.entries

    visits-AllStored :
        (nodes : List RemoteNode) (b : Progress)
        → IsWalk nodes
        → All (IsKept nodes b.disk) b.manifest.entries
        → AllStored (visits sha1 fetch resume nodes b)
    unfolding visits
    visits-AllStored [] b w h =
        All-map (IsKept [] b.disk) (IsStored b.disk) b.manifest.entries (λ e k. k.0) h
    visits-AllStored (n ∷ nodes) b w h =
        on (visit sha1 fetch resume n b) (visit-Steps fetch resume n b)
          (λ b' s. visits-AllStored nodes b' w.1 (step-IsKept n nodes b b' s w.0 h))
      where
        on :
            (o : Option Progress)
            → Steps n b o
            → ((b' : Progress) → IsStep n b b' → AllStored (visits sha1 fetch resume nodes b'))
            → AllStored (elim o [ none ↦ none | some b' ↦ visits sha1 fetch resume nodes b' ])
        on none s k = tt
        on (some b') s k = k b' s

    pub run-AllStored :
        (account : Text) (nodes : List RemoteNode) (disk : Disk)
        → IsWalk nodes
        → AllStored (run sha1 fetch resume account nodes disk)
    unfolding run
    run-AllStored account nodes disk w =
        on (visits sha1 fetch resume nodes (started sha1 fetch resume account disk))
          (visits-AllStored nodes (started sha1 fetch resume account disk) w tt)
      where
        on :
            (o : Option Progress)
            → AllStored o
            → AllStored (elim o [
              | none ↦ none
              | some b ↦ some (record b { manifest = sorted_manifest sha1 fetch resume b.manifest })
            ])
        on none h = tt
        on (some b) h = sort-All (by_path sha1 fetch resume) (IsStored b.disk) b.manifest.entries h
