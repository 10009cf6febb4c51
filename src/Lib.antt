-- ===== src/Lib.antt =====
-- Verification library of pDrive, a client that keeps a local folder and Proton Drive in agreement.
--
-- The program. A daemon runs passes of a sync engine (internal/mirror) over a sync folder, a state
-- database (internal/state) and the account (internal/drive, behind the interface Source). A pass
-- scans the folder, pulls (events since a stored cursor, or a full walk), scans again, and pushes:
-- local deletions, moves, uploads. Guards stop a pass that would delete too much. Backups
-- (internal/backup) copy the account's files to a folder, and verify it. The gate (internal/gate)
-- holds a directory listing until the daemon has refreshed the directory.
--
-- Which file models which part:
--   Reconcile     internal/mirror/reconcile.go, Reconcile: the decision table for one path. Its
--                 Converge carries the decision out on an abstract pair of sides.
--   Paths         the path rules: validPath (mirror.go), Ignored and excluded (scan.go),
--                 ConflictName (reconcile.go), suffixes (local.go).
--   SafePath      internal/backup/safepath.go: SanitizeComponent, SanitizePath.
--   State         internal/state/state.go. Rows: Node, its row and the conversions; Nodes: the table
--                 of nodes; Subtree: DeleteSubtree over SQLite's LIKE; Meta: the table meta and
--                 migrate; Activity: the activity log and the conflicts.
--   Mirror        internal/mirror. Disk: the sync folder and the file operations; World: the state
--                 of a pass, the interface Source and the monad of the methods; Guards: guards.go;
--                 Scan: scan.go; Keep: conflict.go; Pull: applyNode and what it calls, with
--                 Pull/Remove (deleteNode, reapUnseen) and Pull/Passes (applyEvents, FullMirror,
--                 relistDir, RefreshDir, Sync); Pull/Materialize (Materialize); Push: push.go, with
--                 Push/Moves (findLocalDeletions, detectMoves) and Push/Parents (createRemoteDir).
--   RateLimit     internal/api/ratelimit.go: Limiter and its transport, over the wrapped transport as a
--                 parameter.
--   Backup        internal/backup/backup.go: Run and Verify over the modelled folder.
--   Config        internal/config: the settings and Validate; Config/Migrate: ValidateSyncRoot and
--                 MigrateSyncRoot (migrate.go); Config/Dirs: paths.go.
--   Gate          internal/gate: server.go, and the marks of fanotify.go; Gate/Machine: its steps.
--   Daemon        internal/daemon: daemon.go, with Daemon/Machine (syncLoop as steps), Daemon/Feed
--                 (transfers, history, conflicts), Daemon/Listing (gate.go), Daemon/Serve (dispatch
--                 of server.go) and Daemon/Watcher (watcher.go).
--   Api           internal/api: client.go, and session.go in Api/Session.
--   Tui           internal/tui: settings.go and activity.go; moveSyncRoot of app.go.
--   Drive         internal/drive: the walk and the attributes (drive.go), ListDir, PollEvents and
--                 classifyEvent (events.go), over what the Drive library gives.
--   Base          helpers: path/filepath, texts as lists of byte codes, lists, sorting, Boolean tests.
--
-- The model. Texts are lists of bytes. The folder is an association list from paths to files and
-- directories; a method of Mirror is a function from a World (folder, local trash, tables, remote
-- side, events, counts) to an outcome, which is a value or an error, with the world that is left.
-- The remote side is a record of operations over a state of its own, every one of which may fail.
-- SHA-1, the text of a stub and SQLite's LIKE are parameters. Sizes and times are natural numbers;
-- the inode is an unsigned 64-bit number stored in a signed column; durations that come from outside
-- are int64 and wrap around. The gate and the daemon are step relations over the states that their
-- locks protect: one step is one critical section or one handler between two waits; the loop's
-- receiving, its check, the start of a pass and its end are steps of their own, between which a client
-- may pause, and so are the check and the send of RequestSync. For the daemon a pass of the engine is
-- an argument, and so are the server and the clock for the client.
--
-- Fuel: remove_parents and create_remote_dir recurse on a number that bounds the length of the path,
-- which every round shortens; walk recurses on a bound for the depth of the account. All other loops
-- are structural.
--
-- Order: where Go walks a map, the model takes the order of the list; sort.Slice is an insertion sort.
--
-- Not modelled: failing disks and permissions, symbolic links of the sync folder, cancellation,
-- progress inside a transfer, the SQLite engine, login and key handling (internal/api/auth.go and
-- keys.go), the session, transfers and changes of the Drive library (internal/drive), the system
-- calls of fanotify and inotify, sockets and JSON, TOML, the other screens and the commands: display,
-- system calls and libraries that the source only calls.
pub mod Base
pub mod Reconcile
pub mod SafePath
pub mod Paths
pub mod State
pub mod Api
pub mod Backup
pub mod Config
pub mod Daemon
pub mod Drive
pub mod Gate
pub mod Mirror
pub mod RateLimit
pub mod Tui
