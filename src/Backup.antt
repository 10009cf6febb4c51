-- ===== src/Backup.antt =====
-- internal/backup/backup.go: the offline copy of an account, and its verification. Paths of the
-- modelled folder are those below the directory `data`; the two manifest files stand outside it.
-- Failing disks and cancellation are not modelled. JSON is taken to read back what it wrote.
pub mod Stored
pub mod Laws
pub mod Gaps
pub mod Walked
mod Tests
use p_drive.Base.{
  ℕ, ◌+◌, Text, codes, List, [], ◌∷◌, ◌++◌, Bool, true, false, not, ◌&&◌, ◌||◌, Option, none, some,
  is_empty, length, equal_fold, text_lt, text_eq, sort, join_with, slash, ltb, ◌==◌, if◌then◌else◌,
}
use p_drive.State.Rows.{Time}
use p_drive.SafePath.{Checked, ok, err, sanitize_path}
use p_drive.Mirror.Disk.{
  File, Disk, file_at, write_at, remove_at, mkdir_all, mkdir_parent, rename_file, Renamed,
  not_there, blocked, renamed,
}
use p_drive.Mirror.World.{RemoteNode}

-- `Entry.DigestMatch`
pub data DigestMatch : Type 0 where
  unset absent match mismatch : DigestMatch

-- `Entry`
pub record Entry : Type 0 where
  pub path : Text
  pub is_dir : Bool
  pub size : ℕ
  pub sha1 : Text
  pub modified : Time
  pub link_id : Text
  pub remote_digest : Text
  pub digest_match : DigestMatch

-- `Manifest`, less its version, tool and time
pub record Manifest : Type 0 where
  pub account : Text
  pub files : ℕ
  pub dirs : ℕ
  pub bytes : ℕ
  pub entries : List Entry

-- `EventKind` and `Event`
pub data EventKind : Type 0 where
  event_dir event_file event_skip event_warn : EventKind

pub record Event : Type 0 where
  pub kind : EventKind
  pub path : Text
  pub size : ℕ

-- What the callback of `Run` works on.
pub record Progress : Type 0 where
  pub disk : Disk
  pub manifest : Manifest
  pub events : List Event

-- `compareDigest`
unfoldable pub compare_digest : Text → Text → DigestMatch
compare_digest local remote =
    if is_empty remote then absent else if equal_fold local remote then match else mismatch

abbrev pub part_suffix : Text
part_suffix = codes ".pdrive-part"

-- `filepath.Join` of the parts that `SanitizePath` gives, below the data directory
unfoldable pub local_path : Text → Option Text
local_path path = elim (sanitize_path path) [
  | ok parts ↦ some (join_with slash parts)
  | err e ↦ none
]

abbrev pub emit : EventKind → Text → ℕ → Progress → Progress
emit kind path size b = record b {
  events = b.events ++ (record { kind = kind; path = path; size = size } ∷ []);
}

abbrev pub dir_entry : RemoteNode → Entry
dir_entry n = record {
  path = n.path;
  is_dir = true;
  size = 0;
  sha1 = [];
  modified = none;
  link_id = n.link_id;
  remote_digest = [];
  digest_match = unset;
}

abbrev pub file_entry : RemoteNode → Text → ℕ → Entry
file_entry n sum size = record {
  path = n.path;
  is_dir = false;
  size = size;
  sha1 = sum;
  modified = n.modified;
  link_id = n.link_id;
  remote_digest = n.digest;
  digest_match = compare_digest sum n.digest;
}

abbrev pub add_dir : RemoteNode → Manifest → Manifest
add_dir n m = record m { dirs = m.dirs + 1; entries = m.entries ++ (dir_entry n ∷ []) }

abbrev pub add_file : RemoteNode → Text → ℕ → Manifest → Manifest
add_file n sum size m = record m {
  files = m.files + 1;
  bytes = m.bytes + size;
  entries = m.entries ++ (file_entry n sum size ∷ []);
}

-- The temporary file renamed into place; where that fails it is removed.
abbrev pub placed : Text → Text → Disk → Renamed → Disk × Option Text
placed tmp content disk (renamed disk') = (disk', some content)
placed tmp content disk not_there = (remove_at tmp disk, none)
placed tmp content disk blocked = (remove_at tmp disk, none)

abbrev pub part_file : Text → File
part_file content = record { is_dir = false; content = content; mtime = none; inode = 0 }

abbrev pub is_dir_at : Option File → Bool
is_dir_at none = false
is_dir_at (some f) = f.is_dir

-- `download`, with the content that it has written; `none` is an error.
unfoldable pub store_content : Text → Text → Disk → Disk × Option Text
store_content dest content disk =
    let tmp = dest ++ part_suffix in
    if is_dir_at (file_at tmp disk)
    then (disk, none)
    else placed tmp content (write_at tmp (part_file content) disk)
        (rename_file tmp dest (write_at tmp (part_file content) disk))

abbrev pub download : Text → Disk → Option Text → Disk × Option Text
download dest disk none = (disk, none)
download dest disk (some content) = store_content dest content disk

module _ (sha1 : Text → Text) where
  -- `existingFile`, over what is at the path
  unfoldable pub existing_file : ℕ → Option File → Option (Text × ℕ)
  existing_file want none = none
  existing_file want (some f) =
      if f.is_dir || (ltb 0 want && not (length f.content == want))
      then none
      else some (sha1 f.content, length f.content)

  abbrev warn_digest : RemoteNode → Text → Progress → Progress
  warn_digest n sum b = elim (compare_digest sum n.digest) [
    | mismatch ↦ emit event_warn n.path 0 b
    | _ ↦ b
  ]

  -- What follows the download.
  abbrev pub record_file : RemoteNode → Progress → Disk × Option Text → Progress
  record_file n b (disk, none) = emit event_warn n.path 0 (record b { disk = disk })
  record_file n b (disk, some content) =
      emit event_file n.path (length content)
        (record (warn_digest n (sha1 content) (record b { disk = disk })) {
          manifest = add_file n (sha1 content) (length content) b.manifest;
        })

  module _ (fetch : Text → Option Text) (resume : Bool) where
    abbrev pub fetch_file : RemoteNode → Text → Progress → Option Disk → Option Progress
    fetch_file n local b none = none
    fetch_file n local b (some disk) =
        some (record_file n b (download local disk (fetch n.link_id)))

    abbrev pub keep_or_fetch : RemoteNode → Text → Progress → Option (Text × ℕ) → Option Progress
    keep_or_fetch n local b (some (sum, size)) =
        some (emit event_skip n.path size (record b { manifest = add_file n sum size b.manifest }))
    keep_or_fetch n local b none = fetch_file n local b (mkdir_parent local b.disk)

    abbrev pub make_dir : RemoteNode → Progress → Option Disk → Option Progress
    make_dir n b none = none
    make_dir n b (some disk) =
        some (emit event_dir n.path 0 (record b { disk = disk; manifest = add_dir n b.manifest }))

    abbrev pub store_node : RemoteNode → Text → Progress → Option Progress
    store_node n local b =
        if n.is_dir
        then make_dir n b (mkdir_all local b.disk)
        else keep_or_fetch n local b
            (if resume then existing_file n.size (file_at local b.disk) else none)

    abbrev pub visit_at : RemoteNode → Progress → Option Text → Option Progress
    visit_at n b none = some (emit event_warn n.path 0 b)
    visit_at n b (some local) = store_node n local b

    -- The callback that `Run` hands to `Walk`; `none` is an error, which ends the walk.
    unfoldable pub visit : RemoteNode → Progress → Option Progress
    unfolding local_path compare_digest
    visit n b = visit_at n b (local_path n.path)

    -- The walk.
    unfoldable pub visits : List RemoteNode → Progress → Option Progress
    unfolding visit
    visits [] b = some b
    visits (n ∷ nodes) b = elim (visit n b) [ none ↦ none | some b' ↦ visits nodes b' ]

    abbrev by_path : Entry → Entry → Bool
    by_path a b = text_lt a.path b.path

    abbrev pub sorted_manifest : Manifest → Manifest
    sorted_manifest m = record m { entries = sort by_path m.entries }

    abbrev pub started : Text → Disk → Progress
    started account disk = record {
      disk = disk;
      manifest = record { account = account; files = 0; dirs = 0; bytes = 0; entries = [] };
      events = [];
    }

    -- `Run`, over the nodes that the walk reaches. The manifest is written last.
    unfoldable pub run : Text → List RemoteNode → Disk → Option Progress
    unfolding visits sort
    run account nodes disk = elim (visits nodes (started account disk)) [
      | none ↦ none
      | some b ↦ some (record b { manifest = sorted_manifest b.manifest })
    ]

-- The checksum file of `writeManifest`.
unfoldable pub checksum_lines : List Entry → Text
checksum_lines [] = []
checksum_lines (e ∷ entries) =
    let rest = checksum_lines entries in
    if e.is_dir || is_empty e.sha1
    then rest
    else e.sha1 ++ codes "  data/" ++ e.path ++ codes "\n" ++ rest

-- `VerifyResult`
pub record VerifyResult : Type 0 where
  pub checked : ℕ
  pub good : ℕ
  pub missing : List Text
  pub mismatches : List Text
  pub remote_mismatches : List Text

abbrev pub no_findings : VerifyResult
no_findings = record {
  checked = 0;
  good = 0;
  missing = [];
  mismatches = [];
  remote_mismatches = [];
}

-- `Clean`
abbrev pub clean : VerifyResult → Bool
clean r = is_empty r.missing && is_empty r.mismatches && is_empty r.remote_mismatches

-- `HashFile`; `none` where there is no readable file.
abbrev pub hash_at : (Text → Text) → Option File → Option Text
hash_at sha1 none = none
hash_at sha1 (some f) = if f.is_dir then none else some (sha1 f.content)

-- What is wrong with one entry.
pub data Verdict : Type 0 where
  intact lost changed : Verdict

abbrev pub same_hash : Text → Option Text → Verdict
same_hash want none = lost
same_hash want (some sum) = if equal_fold sum want then intact else changed

abbrev pub verdict_at : (Text → Text) → Disk → Entry → Option Text → Verdict
verdict_at sha1 disk e none = lost
verdict_at sha1 disk e (some local) =
    if is_empty e.sha1 then lost else same_hash e.sha1 (hash_at sha1 (file_at local disk))

unfoldable pub verdict : (Text → Text) → Disk → Entry → Verdict
unfolding local_path file_at
verdict sha1 disk e = verdict_at sha1 disk e (local_path e.path)

abbrev pub note : Text → Verdict → VerifyResult → VerifyResult
note path intact r = record r { good = r.good + 1 }
note path lost r = record r { missing = r.missing ++ (path ∷ []) }
note path changed r = record r { mismatches = r.mismatches ++ (path ∷ []) }

abbrev pub note_remote : Entry → VerifyResult → VerifyResult
note_remote e r = elim e.digest_match [
  | mismatch ↦ record r { remote_mismatches = r.remote_mismatches ++ (e.path ∷ []) }
  | _ ↦ r
]

abbrev pub verify_entry : (Text → Text) → Disk → Entry → VerifyResult → VerifyResult
verify_entry sha1 disk e r =
    if e.is_dir
    then r
    else note e.path (verdict sha1 disk e) (note_remote e (record r { checked = r.checked + 1 }))

-- The loop of `Verify` over the entries of the manifest.
unfoldable pub verify_entries : (Text → Text) → Disk → List Entry → VerifyResult → VerifyResult
unfolding verdict
verify_entries sha1 disk [] r = r
verify_entries sha1 disk (e ∷ entries) r =
    verify_entries sha1 disk entries (verify_entry sha1 disk e r)

-- `Verify`
unfoldable pub verify : (Text → Text) → Manifest → Disk → VerifyResult
unfolding verify_entries
verify sha1 m disk = verify_entries sha1 disk m.entries no_findings
