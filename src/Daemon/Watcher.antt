-- ===== src/Daemon/Watcher.antt =====
-- internal/daemon/watcher.go: inotify on the sync folder. What the kernel answers when a watch is
-- asked for, and what a walk finds, are arguments. Times are nanoseconds.
pub mod Laws
use p_drive.Base.{
  ℕ, ◌+◌, ◌-◌, ◌*◌, ◌≤◌, ◌<◌, Text, codes, List, [], ◌∷◌, ◌++◌, Bool, true, false, not, ◌&&◌, ◌||◌,
  Option, none, some, is_empty, text_eq, keep, length, join_path, if◌then◌else◌, ltb, leb, ◌==◌,
}
use p_drive.State.Rows.{Time, second}
use p_drive.Paths.{ignored}

-- The map `paths` of a `Watcher`: watch descriptors and directories.
abbrev pub Watches : Type 0
Watches = List (ℕ × Text)

-- `pathFor`; a descriptor that is not there has the empty path.
abbrev pub path_for : ℕ → Watches → Text
path_for wd [] = []
path_for wd ((w, dir) ∷ ws) = if w == wd then dir else path_for wd ws

abbrev pub other_watch : ℕ → ℕ × Text → Bool
other_watch wd (w, dir) = not (w == wd)

-- `forget`
abbrev pub forget : ℕ → Watches → Watches
forget wd ws = keep (other_watch wd) ws

-- The end of `addOne`: an entry of the map.
abbrev pub watch : ℕ → Text → Watches → Watches
watch wd dir ws = (wd, dir) ∷ forget wd ws

-- The bits of an event's mask that `handle` reads: ISDIR, OPEN, one of DELETE_SELF, MOVE_SELF and
-- IGNORED, one of CREATE and MOVED_TO.
pub record Mask : Type 0 where
  pub is_dir : Bool
  pub opened : Bool
  pub self_gone : Bool
  pub arrived : Bool

-- `localEvent`
pub data LocalEvent : Type 0 where
  listing change : LocalEvent

-- What the kernel gives for a directory: its descriptor, which a directory that is already watched
-- keeps, or an error.
module _ (add_watch : Text → Option ℕ) where
  abbrev watch_some : Option ℕ → Text → Watches → Watches
  watch_some none dir ws = ws
  watch_some (some wd) dir ws = watch wd dir ws

  -- `addOne`
  abbrev pub add_one : Text → Watches → Watches
  add_one dir ws = watch_some (add_watch dir) dir ws

  -- `addTree`, over the directories that its walk enters
  unfoldable pub add_tree : List Text → Watches → Watches
  add_tree [] ws = ws
  add_tree (dir ∷ dirs) ws = add_tree dirs (add_one dir ws)

  abbrev pub adopt : (Text → List Text) → Text → Text → Watches → Watches
  adopt walk name [] ws = ws
  adopt walk name (c ∷ parent) ws = add_tree (walk (join_path (c ∷ parent) name)) ws

  -- `handle`; the event goes to a channel that may be full, and is dropped there.
  unfoldable pub handle :
      (Text → List Text) → ℕ → Mask → Text → Watches → Watches × Option LocalEvent
  unfolding ignored add_tree
  handle walk wd mask name ws =
      if mask.opened
      then (ws, if mask.is_dir then some listing else none)
      else if mask.self_gone
      then (forget wd ws, none)
      else if not (is_empty name) && ignored name
      then (ws, none)
      else (
        if mask.is_dir && mask.arrived then adopt walk name (path_for wd ws) ws else ws,
        some change,
      )

-- The loop of `Run`: when the timer of a burst fires, when a listing was last reported, and how
-- often both callbacks were called.
pub record Burst : Type 0 where
  pub timer : Option ℕ
  pub last_listing : Time
  pub changes : ℕ
  pub listings : ℕ

abbrev pub debounce : ℕ
debounce = 750 * 1000000

abbrev pub fired : ℕ → Burst → Option ℕ → Burst
fired now b none = b
fired now b (some at) = if leb at now then record b { timer = none; changes = b.changes + 1 } else b

-- The timer fires before anything that comes at this time or later.
abbrev pub fire : ℕ → Burst → Burst
fire now b = fired now b b.timer

abbrev pub long_ago : ℕ → Time → Bool
long_ago now none = true
long_ago now (some last) = ltb second (now - last)

-- A change resets the timer; a listing is reported at most once a second.
unfoldable pub on_change : ℕ → Burst → Burst
on_change now b = record (fire now b) { timer = some (now + debounce) }

unfoldable pub on_listing : ℕ → Burst → Burst
on_listing now b =
    let b' = fire now b in
    if long_ago now b'.last_listing
    then record b' { last_listing = some now; listings = b'.listings + 1 }
    else b'

-- Changes one after the other.
unfoldable pub on_changes : List ℕ → Burst → Burst
unfolding on_change
on_changes [] b = b
on_changes (now ∷ times) b = on_changes times (on_change now b)
