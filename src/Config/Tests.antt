-- ===== src/Config/Tests.antt =====
-- The theorems on the settings at concrete ones.
use p_drive.Base.{
  write_parts, List, ℕ, Text, codes, List, [], ◌∷◌, Bool, true, false, Option, none, some, is_abs,
  ◌≡◌, ◌≢◌, refl, has_prefix, text_eq,
}
use p_drive.State.Rows.{pos, negsuc}
use p_drive.Config.{Config, default_config, validate, expand_path}
use p_drive.Config.Migrate.{
  Moving, Tree, regular, symlink, special, item_at, nothing, is_home, migrate_sync_root,
  validate_sync_root,
}
use p_drive.Config.Migrate.Apart.{AreApart, IsFree, validate_sync_root-AreApart}
use p_drive.Config.Migrate.Keep.{IsKept, migrate_sync_root-IsKept}

-- A guard of 0 percent, and a hold of a minute.
abbrev odd_config : Config
odd_config = record default_config {
  sync = record default_config.sync { deletion_guard_percent = negsuc 4 };
  freshness = record default_config.freshness { max_block_ms = pos 60000 };
}

hold-replaced : (validate odd_config).freshness.max_block_ms ≡ pos 2000
unfolding validate
hold-replaced = refl

abbrev home : Option Text
home = some (codes "/home/me")

home-expanded : expand_path home (codes "~/pdrive") ≡ codes "/home/me/pdrive"
unfolding expand_path p_drive.Base.clean_path p_drive.Base.split_on p_drive.Base.join_with
home-expanded = refl

abbrev old_parts : List Text
old_parts = codes "home" ∷ codes "old" ∷ []

abbrev new_parts : List Text
new_parts = codes "home" ∷ codes "data" ∷ []

old_parts-IsNamed : old_parts ≢ []
old_parts-IsNamed e = cc

validate_sync_root-AreApart_example :
    (new_parts ≢ [])
    × (is_home none (write_parts true new_parts) ≡ false)
    × AreApart old_parts new_parts
    × IsFree nothing
unfolding validate_sync_root has_prefix text_eq p_drive.Base.join_with
validate_sync_root-AreApart_example =
    validate_sync_root-AreApart none nothing old_parts new_parts old_parts-IsNamed refl

abbrev folder : Tree
folder =
    (codes "a", regular (codes "text") none)
    ∷ (codes "pipe", special)
    ∷ (codes "b", symlink (codes "a"))
    ∷ []

-- Across file systems, with everything copied and the old folder not fully removed.
abbrev across : Moving
across = record {
  makes_parent = true;
  makes_root = true;
  renames = false;
  fails_at = λ path. false;
  removes = λ tree. ([], false);
}

migrate_sync_root-IsKept_example : IsKept (codes "b") (symlink (codes "a")) (
    migrate_sync_root none across
      (codes "/old")
      (codes "/data")
      (record { old = some folder; new = none }))
unfolding item_at text_eq
migrate_sync_root-IsKept_example =
    migrate_sync_root-IsKept none across (codes "/old") (codes "/data") folder none (codes "b")
      (symlink (codes "a")) tt refl
