-- ===== src/Gate.antt =====
-- internal/gate: the helper that holds a directory listing until the daemon has caught up. The
-- kernel, the sockets and the framing of messages are not modelled; a duration is an int64 of
-- nanoseconds.
pub mod Authority
pub mod Machine
pub mod Marks
pub mod Hold
mod Tests
use p_drive.Base.{
  ℕ, suc, ◌+◌, ◌-◌, ◌*◌, ◌%◌, Text, codes, List, [], ◌∷◌, ◌++◌, Bool, true, false, not, ◌&&◌, ◌||◌,
  Option, none, some, is_empty, is_abs, clean_path, text_eq, has_prefix, any, keep, split_on, slash,
  drop, length, ltb, ◌==◌, if◌then◌else◌,
}
use p_drive.State.Rows.{ℤ, pos, negsuc, word, half_word, second}

abbrev pub millisecond : ℕ
millisecond = 1000000

-- `Fanotify`: the directories that it takes for marked, and the inodes that the kernel has marks on.
pub record Fanotify : Type 0 where
  pub marked : List Text
  pub inodes : List ℕ

abbrev pub Directory : Type 0
Directory = Text × ℕ

-- `Mark`
unfoldable pub mark : Directory → Fanotify → Fanotify
unfolding text_eq
mark (dir, inode) f =
    if any (text_eq dir) f.marked
    then f
    else record { marked = dir ∷ f.marked; inodes = inode ∷ f.inodes }

-- A directory that the walk does not enter.
abbrev pub is_staging : Text → Text → Bool
is_staging root path =
    any (text_eq (codes ".pdrive-tmp")) (split_on slash (drop (length root) path))

-- The walk of `MarkTree` over the directories of the tree, with their inodes.
unfoldable pub mark_tree : Text → List Directory → Fanotify → Fanotify
unfolding mark
mark_tree root [] f = f
mark_tree root (d ∷ dirs) f = mark_tree root dirs (if is_staging root d.0 then f else mark d f)

-- `Unmark`, of the directory that now is at the path
unfoldable pub unmark : (Text → Option ℕ) → Text → Fanotify → Fanotify
unmark inode_of dir f = record {
  marked = keep (λ d. not (text_eq dir d)) f.marked;
  inodes = elim (inode_of dir) [
    | none ↦ f.inodes
    | some inode ↦ keep (λ i. not (i == inode)) f.inodes
  ];
}

-- The loop of `UnmarkAll`
unfoldable pub unmark_each : (Text → Option ℕ) → List Text → Fanotify → Fanotify
unfolding unmark
unmark_each inode_of [] f = f
unmark_each inode_of (d ∷ dirs) f = unmark_each inode_of dirs (unmark inode_of d f)

-- `UnmarkAll`
unfoldable pub unmark_all : (Text → Option ℕ) → Fanotify → Fanotify
unfolding unmark_each
unmark_all inode_of f = unmark_each inode_of f.marked f

-- A listing that is held: a goroutine of `decide` that waits. `answered` says that its channel is
-- closed.
pub record Held : Type 0 where
  pub id : ℕ
  pub path : Text
  pub pid : ℕ
  pub deadline : ℕ
  pub answered : Bool

-- `Server`. The ids of `pending` are those of the held listings that are not answered.
pub record Server : Type 0 where
  pub fan : Fanotify
  pub deadline : ℕ
  pub client : Option ℕ
  pub client_pid : ℕ
  pub root : Text
  pub client_deadline : ℤ
  pub next_id : ℕ
  pub holds : List Held
  pub held : ℕ
  pub timed_out : ℕ
  pub allowed : ℕ

-- The deadline of `NewServer`
abbrev pub fallback_deadline : ℤ → ℕ
fallback_deadline (negsuc d) = 400 * millisecond
fallback_deadline (pos d) = if d == 0 || ltb second d then 400 * millisecond else d

-- `NewServer`
unfoldable pub new_server : ℤ → Server
new_server d = record {
  fan = record { marked = []; inodes = [] };
  deadline = fallback_deadline d;
  client = none;
  client_pid = 0;
  root = [];
  client_deadline = pos 0;
  next_id = 0;
  holds = [];
  held = 0;
  timed_out = 0;
  allowed = 0;
}

-- What `os.Stat` finds at the root.
pub data Stat : Type 0 where
  missing plain_file no_owner : Stat
  directory_of : ℕ → Stat

pub data RootError : Type 0 where
  not_absolute whole_filesystem stat_failed not_a_directory unknown_owner other_owner : RootError

pub data Authorized : Type 0 where
  refused : RootError → Authorized
  authorized : Text → Authorized

abbrev pub owned_root : ℕ → Text → Stat → Authorized
owned_root uid root missing = refused stat_failed
owned_root uid root plain_file = refused not_a_directory
owned_root uid root no_owner = refused unknown_owner
owned_root uid root (directory_of owner) =
    if owner == uid then authorized root else refused other_owner

-- `authorizeRoot`
unfoldable pub authorize_root : (Text → Stat) → Text → ℕ → Authorized
unfolding has_prefix text_eq
authorize_root stat root uid =
    if is_empty root || not (is_abs root)
    then refused not_absolute
    else if text_eq (clean_path root) (codes "/") || not (has_prefix (clean_path root) (codes "/"))
    then refused whole_filesystem
    else owned_root uid (clean_path root) (stat (clean_path root))

-- A registration: `Message` with the fields that it uses.
pub record Register : Type 0 where
  pub root : Text
  pub pid : ℕ
  pub deadline_ms : ℤ

-- `time.Duration(n) * time.Millisecond`, which wraps around.
abbrev pub to_duration : ℕ → ℤ
to_duration n =
    let m = n * millisecond % word in if ltb m half_word then pos m else negsuc (word - 1 - m)

abbrev pub capped : ℤ → ℤ
capped (negsuc d) = negsuc d
capped (pos d) = if ltb (3 * second) d then pos (3 * second) else pos d

-- The hold that a registration is granted.
abbrev pub granted : ℕ → ℤ → ℤ
granted fallback (negsuc ms) = pos fallback
granted fallback (pos ms) = if ms == 0 then pos fallback else capped (to_duration ms)

-- The part of `handleClient` up to its loop, for a connection of a user and a process whose first
-- message is a registration.
abbrev pub admit : ℕ → ℕ → Register → List Directory → Server → Authorized → Server
admit conn pid m dirs s (refused e) = s
admit conn pid m dirs s (authorized root) = elim s.client [
  | some c ↦ s
  | none ↦ record s {
    client = some conn;
    client_pid = if m.pid == 0 then pid else m.pid;
    root = root;
    client_deadline = granted s.deadline m.deadline_ms;
    fan = mark_tree root dirs s.fan;
  }
]

unfoldable pub register : (Text → Stat) → ℕ → ℕ → ℕ → Register → List Directory → Server → Server
unfolding authorize_root mark_tree
register stat conn uid pid m dirs s = admit conn pid m dirs s (authorize_root stat m.root uid)

abbrev pub answer : ℕ → Held → Held
answer id h = if h.id == id then record h { answered = true } else h

abbrev pub answer_all : ℕ → List Held → List Held
answer_all id [] = []
answer_all id (h ∷ holds) = answer id h ∷ answer_all id holds

-- The case `TypeAck` of the loop of `handleClient`
abbrev pub acknowledge : ℕ → Server → Server
acknowledge id s = record s { holds = answer_all id s.holds }

-- The case `TypeRescan`
abbrev pub rescan : List Directory → Server → Server
rescan dirs s = record s { fan = mark_tree s.root dirs s.fan }

-- The deferred end of `handleClient`
unfoldable pub disconnect : (Text → Option ℕ) → Server → Server
unfolding unmark_all
disconnect inode_of s = record s {
  fan = unmark_all inode_of s.fan;
  client = none;
  client_pid = 0;
  root = [];
}

-- `underRoot`
abbrev pub under_root : Text → Text → Bool
under_root path root =
    if is_empty root then false else text_eq path root || has_prefix path (root ++ codes "/")

-- `Event`, less its descriptor
pub record Event : Type 0 where
  pub pid : ℕ
  pub path : Text

-- The deadline that `decide` waits for.
abbrev pub effective : ℕ → ℤ → ℕ
effective fallback (negsuc d) = fallback
effective fallback (pos d) = if d == 0 then fallback else d

abbrev pub is_ours : Event → Server → Bool
is_ours ev s = not (ev.pid == s.client_pid) && not (is_empty ev.path) && under_root ev.path s.root

-- The id of a held listing; a counter of 64 bits.
abbrev pub following : ℕ → ℕ
following n = (n + 1) % word

abbrev pub hold : Bool → Event → Server → Server
hold sent ev s =
    if sent
    then record s {
      next_id = following s.next_id;
      held = s.held + 1;
      holds =
          record {
            id = following s.next_id;
            path = ev.path;
            pid = ev.pid;
            deadline = effective s.deadline s.client_deadline;
            answered = false;
          }
          ∷ s.holds;
    }
    else record s { next_id = following s.next_id }

-- `decide` up to its wait: the open is allowed at once unless the listing is held. `sent` says
-- whether the message reaches the daemon.
unfoldable pub decide : Bool → Event → Server → Server
decide sent ev s =
    let counted = record s { allowed = s.allowed + 1 } in
    elim s.client [
      | none ↦ counted
      | some c ↦ if is_ours ev s then hold sent ev counted else counted
    ]

-- The rest of `decide`, for a listing that is held: it was answered, or its deadline has passed.
unfoldable pub release : Held → Server → Server
release h s = record s {
  holds = keep (λ other. not (other.id == h.id)) s.holds;
  timed_out = if h.answered then s.timed_out else s.timed_out + 1;
}
