-- ===== src/Drive/Tests.antt =====
-- The walk of a small account.
use p_drive.Base.{
  ℕ, Text, codes, List, [], ◌∷◌, Bool, true, false, Option, none, some, text_eq, if◌then◌else◌, ◌≡◌,
  subst, arith,
}
use p_drive.Mirror.World.{RemoteNode}
use p_drive.Drive.{Child, Attrs, walk}
use p_drive.Drive.Walk.{IsTree, AreLower, IsOver, walk-IsOver}

abbrev leaf : List Child
leaf = record { link_id = codes "f"; name = codes "a"; is_folder = false } ∷ []

abbrev account : Text → Option (List Child)
account link = if text_eq link (codes "r") then some leaf else none

abbrev no_attrs : Text → Option Attrs
no_attrs link = none

abbrev height : Text → ℕ
height link = if text_eq link (codes "r") then 1 else 0

abbrev collect : RemoteNode → List RemoteNode → Option (List RemoteNode)
collect n ns = some (n ∷ ns)

leaf-AreLower : AreLower account no_attrs height 1 leaf
unfolding text_eq
leaf-AreLower = (omega arith, tt)

account-IsTree : IsTree account no_attrs height
account-IsTree link cs h = on (text_eq link (codes "r")) h
  where
    on :
        (b : Bool)
        → (if b then some leaf else none) ≡ some cs
        → AreLower account no_attrs height (if b then 1 else 0) cs
    on true e =
        let same : leaf ≡ cs = cc in subst (AreLower account no_attrs height 1) same leaf-AreLower
    on false e = absurd (ground arith)

walk-IsOver_example :
    IsOver account no_attrs collect height account-IsTree
      (walk account no_attrs collect 2 (codes "r") [] [])
unfolding text_eq
walk-IsOver_example =
    walk-IsOver account no_attrs collect height account-IsTree 2 (codes "r") [] [] (omega arith)
