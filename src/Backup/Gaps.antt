-- ===== src/Backup/Gaps.antt =====
-- Failed downloads, and the temporary paths of downloads (internal/backup/backup.go).
use p_drive.Base.{
  Text, List, [], ◌∷◌, ◌++◌, true, false, Option, none, some, ◌≡◌, refl, sym, ap, ◌∙◌, subst, arith,
  All, All-append, ◌⊎◌, text_eq, text_eq_iff, text_eq_refl, length, if_elim, Bool-cases, inl, inr,
  sort, sort-All, length-append,
}
use p_drive.Mirror.Disk.{Disk, file_at, write_at, remove_at, mkdir_all, mkdir_parent, rename_file}
use p_drive.Mirror.Disk.Laws.{file_at-write_at, file_at-remove_at}
use p_drive.Mirror.World.{RemoteNode}
use p_drive.Backup.{
  Entry, VerifyResult, Progress, part_suffix, part_file, local_path, store_content, download,
  dir_entry, record_file, fetch_file, make_dir, visit_at, visit, visits, run, started,
  sorted_manifest, no_findings, verify_entries, verify, clean,
}

-- A node of the account that is a folder, or a file whose download fails.
abbrev pub IsUnreadable : (Text → Option Text) → RemoteNode → Type 0
IsUnreadable fetch n = (n.is_dir ≡ true) ⊎ (fetch n.link_id ≡ none)

abbrev AreDirs : List Entry → Type 0
AreDirs = All (λ (e : Entry). e.is_dir ≡ true)

-- What a backup that verifies without having checked anything looks like.
abbrev pub IsHollow : (Text → Text) → Progress → Type 0
IsHollow sha1 b = let v = verify sha1 b.manifest b.disk in (clean v ≡ true) × (v.checked ≡ 0)

verify_entries-AreDirs :
    (sha1 : Text → Text) (disk : Disk) (entries : List Entry) (r : VerifyResult)
    → AreDirs entries
    → verify_entries sha1 disk entries r ≡ r
unfolding verify_entries
verify_entries-AreDirs sha1 disk [] r h = refl
verify_entries-AreDirs sha1 disk (e ∷ entries) r h =
    ap (verify_entries sha1 disk entries)
      (if_elim (λ x. x ≡ r) e.is_dir _ _ (λ _. refl) (λ f. absurd (ground (arith, h.0))))
    ∙ verify_entries-AreDirs sha1 disk entries r h.1

module _ (sha1 : Text → Text) (fetch : Text → Option Text) where
  -- Where it goes on, only folders have got into the manifest.
  abbrev HasDirs : Option Progress → Type 0
  HasDirs none = Unit
  HasDirs (some b) = AreDirs b.manifest.entries

  fetched-HasDirs :
      (n : RemoteNode) (local : Text) (b : Progress) (made : Option Disk)
      → fetch n.link_id ≡ none
      → AreDirs b.manifest.entries
      → HasDirs (fetch_file sha1 fetch false n local b made)
  fetched-HasDirs n local b none e h = tt
  fetched-HasDirs n local b (some disk) e h =
      subst (λ o. AreDirs (record_file sha1 n b (download local disk o)).manifest.entries) (sym e) h

  made-HasDirs :
      (n : RemoteNode) (b : Progress) (made : Option Disk)
      → AreDirs b.manifest.entries
      → HasDirs (make_dir sha1 fetch false n b made)
  made-HasDirs n b none h = tt
  made-HasDirs n b (some disk) h = All-append _ b.manifest.entries (dir_entry n ∷ []) h (refl, tt)

  visit_at-HasDirs :
      (n : RemoteNode) (b : Progress) (o : Option Text)
      → IsUnreadable fetch n
      → AreDirs b.manifest.entries
      → HasDirs (visit_at sha1 fetch false n b o)
  visit_at-HasDirs n b none u h = h
  visit_at-HasDirs n b (some local) u h =
      if_elim HasDirs n.is_dir _ _ (λ _. made-HasDirs n b (mkdir_all local b.disk) h)
        (λ f. elim u [
          | inl d ↦ absurd (ground arith)
          | inr e ↦ fetched-HasDirs n local b (mkdir_parent local b.disk) e h
        ])

  visits-HasDirs :
      (nodes : List RemoteNode) (b : Progress)
      → All (IsUnreadable fetch) nodes
      → AreDirs b.manifest.entries
      → HasDirs (visits sha1 fetch false nodes b)
  unfolding visits visit
  visits-HasDirs [] b u h = h
  visits-HasDirs (n ∷ nodes) b (u, us) h =
      on (visit_at sha1 fetch false n b (local_path n.path))
        (visit_at-HasDirs n b (local_path n.path) u h) (λ b' k. visits-HasDirs nodes b' us k)
    where
      on :
          (o : Option Progress)
          → HasDirs o
          → ((b' : Progress)
              → AreDirs b'.manifest.entries
              → HasDirs (visits sha1 fetch false nodes b'))
          → HasDirs (elim o [ none ↦ none | some b' ↦ visits sha1 fetch false nodes b' ])
      on none k more = tt
      on (some b') k more = more b' k

  -- A backup without resuming that runs to its end although no file of the account could be downloaded,
  -- whatever folders the account has, verifies clean with nothing checked: a file whose download
  -- failed is in no entry of the manifest.
  pub run-IsHollow :
      (account : Text) (nodes : List RemoteNode) (disk : Disk) (b : Progress)
      → All (IsUnreadable fetch) nodes
      → run sha1 fetch false account nodes disk ≡ some b
      → IsHollow sha1 b
  unfolding run verify sort
  run-IsHollow account nodes disk b u e =
      on (visits sha1 fetch false nodes (started sha1 fetch false account disk))
        (visits-HasDirs nodes (started sha1 fetch false account disk) u tt) e
    where
      hollow : (c : Progress) → AreDirs c.manifest.entries → IsHollow sha1 c
      hollow c h =
          subst (λ v. (clean v ≡ true) × (v.checked ≡ 0))
            (sym (verify_entries-AreDirs sha1 c.disk c.manifest.entries no_findings h)) (refl, refl)

      on :
          (o : Option Progress)
          → HasDirs o
          → elim o [
            | none ↦ none
            | some c ↦ some (record c { manifest = sorted_manifest sha1 fetch false c.manifest })
          ]
            ≡ some b
          → IsHollow sha1 b
      on none h e = absurd (ground arith)
      on (some c) h e =
          subst (λ (o : Option Progress). elim o [ none ↦ Unit | some d ↦ IsHollow sha1 d ]) e
            (hollow (record c { manifest = sorted_manifest sha1 fetch false c.manifest })
              (sort-All _ _ c.manifest.entries h))

part_elsewhere : (path : Text) → text_eq path (path ++ part_suffix) ≡ false
part_elsewhere path =
    elim (Bool-cases (text_eq path (path ++ part_suffix)))
      as (λ _. text_eq path (path ++ part_suffix) ≡ false) [
        | inl h ↦ absurd (longer ((text_eq_iff path (path ++ part_suffix)).0 h))
        | inr h ↦ h
      ]
  where
    longer : path ≡ path ++ part_suffix → ⊥
    longer e = omega (arith, ap length e, length-append path part_suffix)

-- A download that succeeds leaves nothing at the temporary path beside its own: a file of the
-- account that has this very name, and was copied before, is gone.
pub store_content-overwrites :
    (dest content c : Text) (disk : Disk)
    → (store_content dest content disk).1 ≡ some c
    → file_at (dest ++ part_suffix) (store_content dest content disk).0 ≡ none
unfolding store_content rename_file
store_content-overwrites dest content c disk h =
    let tmp : Text = dest ++ part_suffix in
    let staged : Disk = write_at tmp (part_file content) disk in
    ground (
      arith,
      part_elsewhere dest,
      file_at-write_at tmp tmp (part_file content) disk,
      file_at-remove_at tmp tmp staged,
      file_at-write_at dest tmp (part_file content) (remove_at tmp staged),
      text_eq_refl tmp,
    )
