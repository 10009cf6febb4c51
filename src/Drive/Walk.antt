-- ===== src/Drive/Walk.antt =====
-- The walk of the account against the list of the nodes that it reaches.
use p_drive.Base.{
  ℕ, zero, suc, ◌≤◌, ◌<◌, Text, List, [], ◌∷◌, ◌++◌, Bool, true, false, Option, none, some,
  if◌then◌else◌, if_elim, All, ◌≡◌, refl, sym, ap, ◌∙◌, subst, arith,
}
use p_drive.Mirror.World.{RemoteNode}
use p_drive.Drive.{
  Child, Attrs, child_path, node_of, Walked, failed, out_of_fuel, done, and_then, called,
  walk_children, walk_listed, walk,
}

abbrev pub joined : Walked (List RemoteNode) → Walked (List RemoteNode) → Walked (List RemoteNode)
joined ns ms = and_then ns (λ a. and_then ms (λ b. done (a ++ b)))

-- The callback on a list of nodes, one after the other.
unfoldable pub fold_nodes :
    {S : Type 0} → (RemoteNode → S → Option S) → List RemoteNode → S → Walked S
fold_nodes fn [] s = done s
fold_nodes fn (n ∷ ns) s = elim (fn n s) [ none ↦ failed | some s' ↦ fold_nodes fn ns s' ]

module _ (list_directory : Text → Option (List Child)) (attrs_of : Text → Option Attrs) where
  -- The nodes below a folder, each folder before what is in it.
  unfoldable pub nodes_in :
      (Text → Text → Walked (List RemoteNode)) → Text → Text → List Child → Walked (List RemoteNode)
  nodes_in down link_id prefix [] = done []
  nodes_in down link_id prefix (c ∷ cs) =
      and_then
        (joined (if c.is_folder then down c.link_id (child_path prefix c.name) else done [])
          (nodes_in down link_id prefix cs))
        (λ ns. done (node_of list_directory attrs_of link_id prefix c ∷ ns))

  abbrev nodes_listed :
      (Text → Text → Walked (List RemoteNode))
      → Text
      → Text
      → Option (List Child)
      → Walked (List RemoteNode)
  nodes_listed down link_id prefix none = failed
  nodes_listed down link_id prefix (some children) = nodes_in down link_id prefix children

  unfoldable pub nodes_below : ℕ → Text → Text → Walked (List RemoteNode)
  unfolding nodes_in
  nodes_below zero link_id prefix = out_of_fuel
  nodes_below (suc n) link_id prefix =
      nodes_listed (nodes_below n) link_id prefix (list_directory link_id)

  module _ {S : Type 0} (fn : RemoteNode → S → Option S) where
    fold_nodes-append :
        (a b : List RemoteNode) (s : S)
        → fold_nodes fn (a ++ b) s ≡ and_then (fold_nodes fn a s) (fold_nodes fn b)
    unfolding fold_nodes
    fold_nodes-append [] b s = refl
    fold_nodes-append (n ∷ a) b s = on (fold_nodes-append a b) (fn n s)
      where
        on :
            ((s : S) → fold_nodes fn (a ++ b) s ≡ and_then (fold_nodes fn a s) (fold_nodes fn b))
            → (o : Option S)
            → (elim o [ none ↦ failed | some s' ↦ fold_nodes fn (a ++ b) s' ])
              ≡ and_then (elim o [ none ↦ failed | some s' ↦ fold_nodes fn a s' ]) (fold_nodes fn b)
        on h none = refl
        on h (some s') = h s'

    -- A walk and a list of nodes that give the same.
    abbrev Agrees : (S → Walked S) → Walked (List RemoteNode) → Type 0
    Agrees w failed = Unit
    Agrees w out_of_fuel = Unit
    Agrees w (done ns) = (s : S) → w s ≡ fold_nodes fn ns s

    cons-Agrees :
        (n : RemoteNode) (below rest : S → Walked S) (ns ms : Walked (List RemoteNode))
        → Agrees below ns
        → Agrees rest ms
        → Agrees
            (λ s. and_then (called list_directory attrs_of fn n s) (λ s'. and_then (below s') rest))
            (and_then (joined ns ms) (λ all. done (n ∷ all)))
    unfolding fold_nodes
    cons-Agrees n below rest failed ms h k = tt
    cons-Agrees n below rest out_of_fuel ms h k = tt
    cons-Agrees n below rest (done a) failed h k = tt
    cons-Agrees n below rest (done a) out_of_fuel h k = tt
    cons-Agrees n below rest (done a) (done b) h k = λ s. on (fn n s)
      where
        same : (w : Walked S) → and_then w rest ≡ and_then w (fold_nodes fn b)
        same failed = refl
        same out_of_fuel = refl
        same (done s) = k s

        on :
            (o : Option S)
            → and_then
                (elim o [ none ↦ failed | some s' ↦ done s' ])
                (λ s'. and_then (below s') rest)
              ≡ (elim o [ none ↦ failed | some s' ↦ fold_nodes fn (a ++ b) s' ])
        on none = refl
        on (some s') =
            ap (λ w. and_then w rest) (h s')
            ∙ (same (fold_nodes fn a s') ∙ sym (fold_nodes-append a b s'))

    if-Agrees :
        (b : Bool) (w : S → Walked S) (ns : Walked (List RemoteNode))
        → Agrees w ns
        → Agrees (λ s. if b then w s else done s) (if b then ns else done [])
    unfolding fold_nodes
    if-Agrees true w ns h = h
    if-Agrees false w ns h = λ s. refl

    children-Agree :
        (down : Text → Text → S → Walked S) (below : Text → Text → Walked (List RemoteNode))
        (link_id prefix : Text) (cs : List Child)
        → ((l p : Text) → Agrees (down l p) (below l p))
        → Agrees
            (walk_children list_directory attrs_of fn down link_id prefix cs)
            (nodes_in below link_id prefix cs)
    unfolding walk_children nodes_in fold_nodes
    children-Agree down below link_id prefix [] h = λ s. refl
    children-Agree down below link_id prefix (c ∷ cs) h =
        cons-Agrees (node_of list_directory attrs_of link_id prefix c)
          (λ s. if c.is_folder then down c.link_id (child_path prefix c.name) s else done s)
          (walk_children list_directory attrs_of fn down link_id prefix cs) _
          (nodes_in below link_id prefix cs)
          (if-Agrees c.is_folder (down c.link_id (child_path prefix c.name))
            (below c.link_id (child_path prefix c.name)) (h c.link_id (child_path prefix c.name)))
          (children-Agree down below link_id prefix cs h)

    walk-Agrees :
        (n : ℕ) (link_id prefix : Text)
        → Agrees (walk list_directory attrs_of fn n link_id prefix) (nodes_below n link_id prefix)
    unfolding walk nodes_below
    walk-Agrees zero link_id prefix = tt
    walk-Agrees (suc n) link_id prefix = on (walk-Agrees n) (list_directory link_id)
      where
        on :
            ((l p : Text) → Agrees (walk list_directory attrs_of fn n l p) (nodes_below n l p))
            → (o : Option (List Child))
            → Agrees
                (λ s.
                  walk_listed list_directory attrs_of fn
                    (walk list_directory attrs_of fn n)
                    link_id
                    prefix
                    s
                    o)
                (nodes_listed (nodes_below n) link_id prefix o)
        on h none = tt
        on h (some cs) =
            children-Agree (walk list_directory attrs_of fn n) (nodes_below n) link_id prefix cs h

    -- The walk calls its callback on the nodes below the folder, each folder before what is in it, and
    -- ends where the callback fails: it does what the callback does on the list of these nodes.
    pub walk-fold_nodes :
        (n : ℕ) (link_id prefix : Text) (ns : List RemoteNode) (s : S)
        → nodes_below n link_id prefix ≡ done ns
        → walk list_directory attrs_of fn n link_id prefix s ≡ fold_nodes fn ns s
    walk-fold_nodes n link_id prefix ns s e =
        subst (Agrees (walk list_directory attrs_of fn n link_id prefix)) e
          (walk-Agrees n link_id prefix) s

  -- No folder is at the same height as what it lists, or below it.
  abbrev pub AreLower : (Text → ℕ) → ℕ → List Child → Type 0
  AreLower height h cs = All (λ (c : Child). height c.link_id < h) cs

  abbrev pub IsTree : (Text → ℕ) → Type 0
  IsTree height =
      (link_id : Text) (cs : List Child)
      → list_directory link_id ≡ some cs
      → AreLower height (height link_id) cs

  module _ {S : Type 0} (fn : RemoteNode → S → Option S) (height : Text → ℕ)
      (tree : IsTree height) where
    abbrev pub IsOver : Walked S → Type 0
    IsOver out_of_fuel = ⊥
    IsOver _ = Unit

    and_then-IsOver :
        (w : Walked S) (k : S → Walked S)
        → IsOver w
        → ((s : S) → IsOver (k s))
        → IsOver (and_then w k)
    and_then-IsOver failed k h j = tt
    and_then-IsOver out_of_fuel k h j = h
    and_then-IsOver (done s) k h j = j s

    called-IsOver : (n : RemoteNode) (s : S) → IsOver (called list_directory attrs_of fn n s)
    called-IsOver n s = on (fn n s)
      where
        on : (o : Option S) → IsOver (elim o [ none ↦ failed | some s' ↦ done s' ])
        on none = tt
        on (some s') = tt

    children-IsOver :
        (n : ℕ) (link_id prefix : Text) (cs : List Child) (s : S)
        → ((l p : Text) (s : S) → height l < n → IsOver (walk list_directory attrs_of fn n l p s))
        → AreLower height n cs
        → IsOver (
            walk_children list_directory attrs_of fn
              (walk list_directory attrs_of fn n)
              link_id
              prefix
              cs
              s)
    unfolding walk_children
    children-IsOver n link_id prefix [] s h l = tt
    children-IsOver n link_id prefix (c ∷ cs) s h l =
        and_then-IsOver
          (called list_directory attrs_of fn (node_of list_directory attrs_of link_id prefix c) s) _
          (called-IsOver (node_of list_directory attrs_of link_id prefix c) s)
          (λ s'.
            and_then-IsOver
              (if c.is_folder
                then walk list_directory attrs_of fn n c.link_id (child_path prefix c.name) s'
                else done s')
              _
              (if_elim IsOver c.is_folder _ _ (λ _. h c.link_id (child_path prefix c.name) s' l.0)
                (λ _. tt))
              (λ s''. children-IsOver n link_id prefix cs s'' h l.1))

    lower : (h n : ℕ) (cs : List Child) → h ≤ n → AreLower height h cs → AreLower height n cs
    lower h n [] k l = tt
    lower h n (c ∷ cs) k l = let below = l.0 in (omega arith, lower h n cs k l.1)

    -- The walk ends: where no folder is, directly or not, inside itself, fuel beyond the height of the
    -- folder is enough, whatever the callback does.
    pub walk-IsOver :
        (n : ℕ) (link_id prefix : Text) (s : S)
        → height link_id < n
        → IsOver (walk list_directory attrs_of fn n link_id prefix s)
    unfolding walk
    walk-IsOver zero link_id prefix s h = absurd (omega arith)
    walk-IsOver (suc n) link_id prefix s h =
        on (walk-IsOver n) (list_directory link_id)
          (λ cs e. lower (height link_id) n cs (omega arith) (tree link_id cs e))
      where
        on :
            ((l p : Text) (s : S) → height l < n → IsOver (walk list_directory attrs_of fn n l p s))
            → (o : Option (List Child)) → ((cs : List Child) → o ≡ some cs → AreLower height n cs)
            → IsOver (
                walk_listed list_directory attrs_of fn
                  (walk list_directory attrs_of fn n)
                  link_id
                  prefix
                  s
                  o)
        on ih none l = tt
        on ih (some cs) l = children-IsOver n link_id prefix cs s ih (l cs refl)
