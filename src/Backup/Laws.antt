-- ===== src/Backup/Laws.antt =====
-- Verification of a backup that was just made (internal/backup/backup.go, Run and Verify).
use p_drive.Base.{◌+◌, Text, false, ◌≡◌, is_empty}
use p_drive.Mirror.Disk.{Disk}
use p_drive.Mirror.Disk.Laws.{}
use p_drive.Backup.{VerifyResult}

module _ (sha1 : Text → Text) where
  module _ (hash_not_empty : (content : Text) → is_empty (sha1 content) ≡ false) where
    -- What verification finds in a backup whose files are all stored.
    abbrev IsSound : VerifyResult → VerifyResult → Type 0
    IsSound r v =
        (v.missing ≡ r.missing)
        × (v.mismatches ≡ r.mismatches)
        × (v.checked + r.good ≡ v.good + r.checked)
