-- ===== src/Gate/Machine.antt =====
-- The gate as a state machine: its invariant, and who may change the registration.
pub mod Bounds
use p_drive.Base.{
  ℕ, suc, ◌+◌, ◌*◌, ◌≤◌, ◌<◌, Text, List, [], ◌∷◌, Bool, true, false, not, Option, none, some,
  is_empty, length, keep, length-keep, All, if◌then◌else◌, if_elim, ◌==◌, ==_refl, ◌≡◌, refl, sym,
  ap, subst, arith,
}
use mathlib.Core.List.{Memᴰ}
use p_drive.State.Rows.{ℤ, pos, negsuc, second}
use p_drive.Gate.{
  Server, Held, Event, Register, Directory, Stat, Authorized, refused, authorized, new_server,
  fallback_deadline, register, admit, authorize_root, granted, capped, to_duration, acknowledge,
  answer, answer_all, rescan, disconnect, decide, hold, is_ours, effective, release, millisecond,
}

-- What happens while a registration lasts: another registration is asked for, an answer or a rescan
-- arrives, a directory is opened, a held listing is released.
pub data Stay : Server → Server → Type 0 where
  registers :
      {s : Server} (stat : Text → Stat) (conn uid pid : ℕ) (m : Register) (dirs : List Directory)
      → Stay s (register stat conn uid pid m dirs s)
  answers : {s : Server} (id : ℕ) → Stay s (acknowledge id s)
  rescans : {s : Server} (dirs : List Directory) → Stay s (rescan dirs s)
  opens : {s : Server} (sent : Bool) (ev : Event) → Stay s (decide sent ev s)
  releases : {s : Server} (h : Held) → Memᴰ h s.holds → Stay s (release h s)

pub data Step : Server → Server → Type 0 where
  stays : {s s' : Server} → Stay s s' → Step s s'
  leaves : {s : Server} (inode_of : Text → Option ℕ) → Step s (disconnect inode_of s)

pub data Reachable (d : ℤ) : Server → Type 0 where
  start : Reachable d (new_server d)
  next : {s s' : Server} → Reachable d s → Step s s' → Reachable d s'

-- The registration is the same.
abbrev pub SameClient : Server → Server → Type 0
SameClient s s' =
    (s'.client ≡ s.client)
    × (s'.client_pid ≡ s.client_pid)
    × (s'.root ≡ s.root)
    × (s'.client_deadline ≡ s.client_deadline)

admit-same :
    (conn pid c : ℕ) (m : Register) (dirs : List Directory) (s : Server) (a : Authorized)
    → s.client ≡ some c
    → admit conn pid m dirs s a ≡ s
admit-same conn pid c m dirs s (refused e) h = refl
admit-same conn pid c m dirs s (authorized root) h =
    ap
      (λ o. elim o [
        | some c ↦ s
        | none ↦ record s {
          client = some conn;
          client_pid = if m.pid == 0 then pid else m.pid;
          root = root;
          client_deadline = granted s.deadline m.deadline_ms;
          fan = p_drive.Gate.mark_tree root dirs s.fan;
        }
      ])
      h

decide-SameClient : (sent : Bool) (ev : Event) (s : Server) → SameClient s (decide sent ev s)
unfolding decide
decide-SameClient sent ev s = ground arith

-- While a daemon is registered no other process replaces it: whatever happens short of its own
-- disconnection, the gate keeps the connection, the pid, the root and the deadline that it
-- registered.
pub Stay-SameClient : (s s' : Server) (c : ℕ) → s.client ≡ some c → Stay s s' → SameClient s s'
unfolding register release
Stay-SameClient s _ c h (registers stat conn uid pid m dirs) =
    subst (SameClient s) (sym (admit-same conn pid c m dirs s (authorize_root stat m.root uid) h))
      (refl, refl, refl, refl)
Stay-SameClient s _ c h (answers id) = (refl, refl, refl, refl)
Stay-SameClient s _ c h (rescans dirs) = (refl, refl, refl, refl)
Stay-SameClient s _ c h (opens sent ev) = decide-SameClient sent ev s
Stay-SameClient s _ c h (releases held m) = (refl, refl, refl, refl)
