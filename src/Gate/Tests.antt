-- ===== src/Gate/Tests.antt =====
-- The theorems on the gate at concrete daemons and directories.
use p_drive.Base.{
  ℕ, suc, Text, codes, List, [], ◌∷◌, Bool, true, false, Option, none, some, ◌≡◌, ◌≢◌, ◌⊎◌, refl,
  ltb, has_prefix, is_abs,
}
use p_drive.State.Rows.{pos}
use p_drive.Gate.{
  Server, Event, Register, Stat, directory_of, new_server, register, decide, authorize_root,
  Fanotify, Directory,
}
use p_drive.Gate.Authority.{IsPlain, authorize_root-IsPlain}
use p_drive.Gate.Machine.{registers, opens, stays, start, next, SameClient, Stay-SameClient}
use p_drive.Gate.Machine.Bounds.{IsFailSafe, Reachable-IsFailSafe}

-- Every directory is owned by user 1000.
abbrev owned : Text → Stat
owned path = directory_of 1000

abbrev hello : Register
hello = record { root = codes "/home/me/../me/pdrive"; pid = 0; deadline_ms = pos 2000 }

abbrev tree : List Directory
tree = (codes "/home/me/pdrive", 7) ∷ (codes "/home/me/pdrive/.pdrive-tmp", 8) ∷ []

abbrev registered : Server
registered = register owned 1 1000 42 hello tree (new_server (pos 0))

abbrev listing : Event
listing = record { pid = 43; path = codes "/home/me/pdrive" }

authorize_root-IsPlain_example :
    (owned (codes "/home/me/pdrive") ≡ directory_of 1000)
    × (codes "/home/me/pdrive" ≢ codes "/")
    × IsPlain (codes "/home/me/pdrive")
unfolding authorize_root p_drive.Base.clean_path p_drive.Base.join_with p_drive.Base.split_on
authorize_root-IsPlain_example =
    authorize_root-IsPlain owned (codes "/home/me/../me/pdrive") 1000 (codes "/home/me/pdrive") refl

Stay-SameClient_example : SameClient registered (register owned 2 1001 44 hello tree registered)
unfolding register p_drive.Base.clean_path p_drive.Base.join_with p_drive.Base.split_on new_server
Stay-SameClient_example =
    Stay-SameClient registered (register owned 2 1001 44 hello tree registered) 1 refl
      (registers owned 2 1001 44 hello tree)

Reachable-IsFailSafe_example : IsFailSafe (decide true listing registered)
Reachable-IsFailSafe_example =
    Reachable-IsFailSafe (pos 0) (decide true listing registered) (
      next (next start (stays (registers owned 1 1000 42 hello tree))) (stays (opens true listing)))

abbrev unmarked : Fanotify
unmarked = record { marked = []; inodes = [] }
