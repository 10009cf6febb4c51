-- ===== src/Config.antt =====
-- internal/config/config.go: the settings, their defaults and their validation. Durations are whole
-- nanoseconds. Reading and writing TOML is not modelled.
pub mod Migrate
pub mod Dirs
pub mod Laws
mod Tests
use p_drive.Base.{
  ℕ, ◌+◌, ◌*◌, Text, codes, List, [], ◌∷◌, ◌++◌, Bool, true, false, ◌||◌, Option, none, some,
  is_empty, text_eq, has_prefix, join_path, drop, length, ltb, leb, if◌then◌else◌,
}
use p_drive.State.Rows.{ℤ, pos, negsuc}

-- `SyncConfig`
pub record SyncConfig : Type 0 where
  pub root : Text
  pub deletion_guard_percent : ℤ
  pub trash_retention_days : ℤ
  pub max_auto_download_size : ℤ

-- `FreshnessConfig`
pub record FreshnessConfig : Type 0 where
  pub gate : Bool
  pub max_block_ms : ℤ
  pub fresh_window : ℤ
  pub idle_interval : ℤ
  pub active_interval : ℤ
  pub active_window : ℤ

-- `LimitsConfig`
pub record LimitsConfig : Type 0 where
  pub upload_kbps : ℤ
  pub download_kbps : ℤ
  pub max_parallel_transfers : ℤ

-- `Config`; `exclude` is `SelectiveConfig` and `email` is `AccountConfig`.
pub record Config : Type 0 where
  pub sync : SyncConfig
  pub freshness : FreshnessConfig
  pub limits : LimitsConfig
  pub exclude : List Text
  pub email : Text

abbrev pub millisecond : ℕ
millisecond = 1000000

abbrev pub second : ℕ
second = 1000000000

abbrev pub default_root : Text
default_root = codes "~/pdrive"

-- `DefaultConfig`
abbrev pub default_config : Config
default_config = record {
  sync = record {
    root = default_root;
    deletion_guard_percent = pos 25;
    trash_retention_days = pos 30;
    max_auto_download_size = pos 0;
  };
  freshness = record {
    gate = true;
    max_block_ms = pos 2000;
    fresh_window = pos (400 * millisecond);
    idle_interval = pos (60 * second);
    active_interval = pos (5 * second);
    active_window = pos (5 * 60 * second);
  };
  limits = record { upload_kbps = pos 0; download_kbps = pos 0; max_parallel_transfers = pos 4 };
  exclude = [];
  email = [];
}

-- `x < n` and `x > n`
abbrev pub int_lt : ℤ → ℕ → Bool
int_lt (pos m) n = ltb m n
int_lt (negsuc m) n = true

abbrev pub int_gt : ℤ → ℕ → Bool
int_gt (pos m) n = ltb n m
int_gt (negsuc m) n = false

abbrev at_least : ℕ → ℕ → ℤ → ℤ
at_least low fallback x = if int_lt x low then pos fallback else x

abbrev between : ℕ → ℕ → ℕ → ℤ → ℤ
between low high fallback x = if int_lt x low || int_gt x high then pos fallback else x

abbrev validate_sync : SyncConfig → SyncConfig
validate_sync s = record {
  root = if is_empty s.root then default_root else s.root;
  deletion_guard_percent = between 1 100 25 s.deletion_guard_percent;
  trash_retention_days = at_least 0 30 s.trash_retention_days;
  max_auto_download_size = at_least 0 0 s.max_auto_download_size;
}

abbrev validate_freshness : FreshnessConfig → FreshnessConfig
validate_freshness f = record f {
  max_block_ms = between 1 3000 2000 f.max_block_ms;
  fresh_window = at_least 1 (400 * millisecond) f.fresh_window;
  idle_interval = at_least 1 (60 * second) f.idle_interval;
  active_interval = at_least 1 (5 * second) f.active_interval;
  active_window = at_least 1 (5 * 60 * second) f.active_window;
}

abbrev validate_limits : LimitsConfig → LimitsConfig
validate_limits l = record {
  upload_kbps = at_least 0 0 l.upload_kbps;
  download_kbps = at_least 0 0 l.download_kbps;
  max_parallel_transfers = at_least 1 4 l.max_parallel_transfers;
}

-- `Validate`
unfoldable pub validate : Config → Config
validate c = record c {
  sync = validate_sync c.sync;
  freshness = validate_freshness c.freshness;
  limits = validate_limits c.limits;
}

-- What reading config.toml gave: no such file, another error of reading or parsing, or settings laid
-- over the defaults.
pub data ConfigFile : Type 0 where
  no_config bad_config : ConfigFile
  parsed : Config → ConfigFile

-- `Load`; `none` is an error.
unfoldable pub load : ConfigFile → Option Config
unfolding validate
load no_config = some (validate default_config)
load bad_config = none
load (parsed c) = some (validate c)

-- `Reload`
abbrev pub reload : ConfigFile → Config → Config
reload file c = elim (load file) [ none ↦ c | some fresh ↦ fresh ]

-- `strings.TrimPrefix`
abbrev trim_prefix : Text → Text → Text
trim_prefix s prefix = if has_prefix s prefix then drop (length prefix) s else s

-- `ExpandPath`, over what `os.UserHomeDir` gives
unfoldable pub expand_path : Option Text → Text → Text
unfolding text_eq has_prefix
expand_path home p =
    if text_eq p (codes "~") || has_prefix p (codes "~/")
    then elim home [
      | none ↦ p
      | some dir ↦ join_path dir (trim_prefix (trim_prefix p (codes "~")) (codes "/"))
    ]
    else p

-- `SyncRoot`
abbrev pub sync_root : Option Text → Config → Text
sync_root home c = expand_path home c.sync.root
