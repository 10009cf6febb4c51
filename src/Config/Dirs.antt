-- ===== src/Config/Dirs.antt =====
-- internal/config/paths.go: where the program keeps its files. The environment and the home directory
-- are arguments; a variable that is not set is empty.
use p_drive.Base.{
  Text, codes, List, [], ◌∷◌, false, Option, none, some, is_empty, join_path, if◌then◌else◌, ◌≡◌,
  refl, arith,
}

-- The overrides for tests; an empty one is none.
pub record Overrides : Type 0 where
  pub config : Text
  pub state : Text
  pub local_data : Text
  pub cache : Text

abbrev pub no_overrides : Overrides
no_overrides = record { config = []; state = []; local_data = []; cache = [] }

-- `UseTestDirs`: the overrides that it sets, and the ones that the function it returns puts back.
unfoldable pub use_test_dirs : Text → Overrides → Overrides × (Overrides → Overrides)
use_test_dirs dir old = (
  record {
    config = join_path dir (codes "config");
    state = join_path dir (codes "state");
    local_data = join_path dir (codes "data");
    cache = join_path dir (codes "cache");
  },
  λ _. old,
)

module _ (env : Text → Text) (home : Option Text) where
  abbrev home_or_here : Option Text → Text
  home_or_here none = codes "."
  home_or_here (some dir) = dir

  -- `xdg`
  unfoldable pub xdg : Text → Text → Text
  xdg name fallback =
      if is_empty (env name) then join_path (home_or_here home) fallback else env name

  abbrev pub or_xdg : Text → Text → Text → Text
  or_xdg override name fallback =
      if is_empty override then join_path (xdg name fallback) (codes "pdrive") else override

  -- `ConfigDir`, `StateDir`, `DataDir` and `CacheDir`
  abbrev pub config_dir : Overrides → Text
  config_dir o = or_xdg o.config (codes "XDG_CONFIG_HOME") (codes ".config")

  abbrev pub state_dir : Overrides → Text
  state_dir o = or_xdg o.state (codes "XDG_STATE_HOME") (codes ".local/state")

  abbrev pub data_dir : Overrides → Text
  data_dir o = or_xdg o.local_data (codes "XDG_DATA_HOME") (codes ".local/share")

  abbrev pub cache_dir : Overrides → Text
  cache_dir o = or_xdg o.cache (codes "XDG_CACHE_HOME") (codes ".cache")

  -- `ConfigFile`, `SessionFile`, `StateDB`, `LogFile` and `TrashDir`
  abbrev pub config_file : Overrides → Text
  config_file o = join_path (config_dir o) (codes "config.toml")

  abbrev pub session_file : Overrides → Text
  session_file o = join_path (state_dir o) (codes "session.enc")

  abbrev pub state_db : Overrides → Text
  state_db o = join_path (state_dir o) (codes "state.db")

  abbrev pub log_file : Overrides → Text
  log_file o = join_path (state_dir o) (codes "pdrive.log")

  abbrev pub trash_dir : Overrides → Text
  trash_dir o = join_path (data_dir o) (codes "trash")

  -- `SocketPath`
  abbrev pub socket_path : Overrides → Text
  socket_path o =
      if is_empty (env (codes "XDG_RUNTIME_DIR"))
      then join_path (state_dir o) (codes "pdrive.sock")
      else join_path (env (codes "XDG_RUNTIME_DIR")) (codes "pdrive.sock")

  -- The directories of `EnsureDirs`
  abbrev pub ensured_dirs : Overrides → List Text
  ensured_dirs o = config_dir o ∷ state_dir o ∷ data_dir o ∷ cache_dir o ∷ trash_dir o ∷ []

-- In a test the directories that the program makes do not depend on the environment or the home
-- directory, where the overrides are not empty, and the function that ends the test restores the paths.
pub ensured_dirs-use_test_dirs :
    (env env' : Text → Text) (home home' : Option Text) (dir : Text) (old : Overrides)
    → (is_empty (use_test_dirs dir old).0.config ≡ false)
    → (is_empty (use_test_dirs dir old).0.state ≡ false)
    → (is_empty (use_test_dirs dir old).0.local_data ≡ false)
    → (is_empty (use_test_dirs dir old).0.cache ≡ false)
    → (ensured_dirs env home (use_test_dirs dir old).0
        ≡ ensured_dirs env' home' (use_test_dirs dir old).0)
      × ((use_test_dirs dir old).1 (use_test_dirs dir old).0 ≡ old)
unfolding use_test_dirs
ensured_dirs-use_test_dirs env env' home home' dir old c s d k = (ground arith, refl)
