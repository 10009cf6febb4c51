-- ===== src/Drive.antt =====
-- internal/drive/drive.go and events.go: the walk of the account, the listing of one folder, and the
-- event cursor. What the Drive library gives is an argument; metrics are not modelled.
pub mod Walk
pub mod Events
mod Tests
use p_drive.Base.{
  ℕ, zero, suc, ◌+◌, Text, codes, List, [], ◌∷◌, ◌++◌, Bool, true, false, not, ◌||◌, Option, none,
  some, is_empty, if◌then◌else◌,
}
use p_drive.State.Rows.{Time}
use p_drive.Mirror.World.{RemoteNode, Change, ChangeKind, change_upsert, change_delete, Delta}

-- What the library says of an entry of a folder, and of the attributes of a file.
pub record Child : Type 0 where
  pub link_id : Text
  pub name : Text
  pub is_folder : Bool

pub record Attrs : Type 0 where
  pub size : ℕ
  pub modified : Time
  pub digests : Text

abbrev pub child_path : Text → Text → Text
child_path prefix name = if is_empty prefix then name else prefix ++ codes "/" ++ name

-- `fillAttrs`; attributes that cannot be read leave the node as it is.
abbrev pub fill_attrs : Option Attrs → RemoteNode → RemoteNode
fill_attrs none n = n
fill_attrs (some a) n = record n { size = a.size; modified = a.modified; digest = a.digests }

-- What a walk gives: a listing failed or the callback did; the fuel did not do; or it ended.
pub data Walked (S : Type 0) : Type 0 where
  failed out_of_fuel : Walked S
  done : S → Walked S

abbrev pub and_then : {S T : Type 0} → Walked S → (S → Walked T) → Walked T
and_then failed k = failed
and_then out_of_fuel k = out_of_fuel
and_then (done s) k = k s

-- `list_directory` and `attrs_of` are the library's `ListDirectory` and `GetActiveRevisionAttrs`.
module _ (list_directory : Text → Option (List Child)) (attrs_of : Text → Option Attrs) where
  abbrev bare_node : Text → Text → Child → RemoteNode
  bare_node link_id prefix c = record {
    link_id = c.link_id;
    parent_id = link_id;
    name = c.name;
    path = child_path prefix c.name;
    is_dir = c.is_folder;
    size = 0;
    modified = none;
    digest = [];
  }

  abbrev pub node_of : Text → Text → Child → RemoteNode
  node_of link_id prefix c =
      if c.is_folder
      then bare_node link_id prefix c
      else fill_attrs (attrs_of c.link_id) (bare_node link_id prefix c)

  abbrev pub nodes_of : Text → Text → List Child → List RemoteNode
  nodes_of link_id prefix [] = []
  nodes_of link_id prefix (c ∷ cs) = node_of link_id prefix c ∷ nodes_of link_id prefix cs

  -- `ListDir`; `none` is an error.
  unfoldable pub list_dir : Text → Text → Option (List RemoteNode)
  list_dir link_id prefix = elim (list_directory link_id) [
    | none ↦ none
    | some children ↦ some (nodes_of link_id prefix children)
  ]

  -- The callback, over a state of its own; `none` is an error.
  module _ {S : Type 0} (fn : RemoteNode → S → Option S) where
    abbrev pub called : RemoteNode → S → Walked S
    called n s = elim (fn n s) [ none ↦ failed | some s' ↦ done s' ]

    -- The loop of `walk`; `down` is the walk of a folder below.
    unfoldable pub walk_children :
        (Text → Text → S → Walked S) → Text → Text → List Child → S → Walked S
    walk_children down link_id prefix [] s = done s
    walk_children down link_id prefix (c ∷ cs) s =
        and_then (called (node_of link_id prefix c) s) (λ s'.
          and_then (if c.is_folder then down c.link_id (child_path prefix c.name) s' else done s')
            (walk_children down link_id prefix cs))

    abbrev pub walk_listed :
        (Text → Text → S → Walked S) → Text → Text → S → Option (List Child) → Walked S
    walk_listed down link_id prefix s none = failed
    walk_listed down link_id prefix s (some children) = walk_children down link_id prefix children s

    -- `walk`, on fuel for the depth
    unfoldable pub walk : ℕ → Text → Text → S → Walked S
    unfolding walk_children
    walk zero link_id prefix s = out_of_fuel
    walk (suc n) link_id prefix s = walk_listed (walk n) link_id prefix s (list_directory link_id)

-- `proton.LinkEventType`, and what the state of a link says: `other_state` is a draft, an active or a
-- restoring link.
pub data LinkEvent : Type 0 where
  event_delete event_create event_update event_update_metadata event_unknown : LinkEvent

pub data LinkState : Type 0 where
  state_trashed state_deleted other_state : LinkState

pub record VolumeEvent : Type 0 where
  pub kind : LinkEvent
  pub state : LinkState
  pub link_id : Text
  pub parent_link_id : Text

-- What `GetVolumeEvent` gives.
pub record VolumeEvents : Type 0 where
  pub event_id : Text
  pub refresh : Bool
  pub events : List VolumeEvent

abbrev by_state : LinkState → ChangeKind
by_state state_trashed = change_delete
by_state state_deleted = change_delete
by_state other_state = change_upsert

-- `classifyEvent`
abbrev pub classify_event : VolumeEvent → Option ChangeKind
classify_event e = elim e.kind [
  | event_delete ↦ some change_delete
  | event_create ↦ some (by_state e.state)
  | event_update ↦ some (by_state e.state)
  | event_update_metadata ↦ some (by_state e.state)
  | event_unknown ↦ none
]

abbrev pub change_of : VolumeEvent → ChangeKind → Change
change_of e kind = record { kind = kind; link_id = e.link_id; parent_id = e.parent_link_id }

abbrev pub or_skip : VolumeEvent → Option ChangeKind → List Change → List Change
or_skip e none rest = rest
or_skip e (some kind) rest = change_of e kind ∷ rest

-- The loop of `PollEvents`
unfoldable pub changes_of : List VolumeEvent → List Change
changes_of [] = []
changes_of (e ∷ events) = or_skip e (classify_event e) (changes_of events)

-- `PollEvents`, over the id of the volume and the reply of the server; `none` is an error.
unfoldable pub poll_events : Text → Text → Option VolumeEvents → Option Delta
unfolding changes_of
poll_events volume_id cursor reply =
    if is_empty volume_id || is_empty cursor then none else elim reply [
      | none ↦ none
      | some ev ↦ some (record {
        cursor = if is_empty ev.event_id then cursor else ev.event_id;
        refresh = ev.refresh;
        changes = changes_of ev.events;
      })
    ]
