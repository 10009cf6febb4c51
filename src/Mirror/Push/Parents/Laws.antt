-- ===== src/Mirror/Push/Parents/Laws.antt =====
-- The fuel of `create_remote_dir` is enough.
use p_drive.Base.{
  ℕ, zero, suc, ◌<◌, Text, ◌∷◌, true, false, Option, none, some, ◌≡◌, ◌≢◌, refl, arith, ap,
  cut_last, cut_last_sound, slash, length, length-append,
}
use p_drive.State.Rows.{Node}
use p_drive.State.Nodes.{get_node}
use p_drive.Mirror.World.{Source, Env, World, M, Outcome, done, fail, Err, out_of_fuel, emit}
use p_drive.Mirror.Push.Parents.{
  create_remote_dir, remote_parent_id, parent_of, known_parent, create_parent, resolved_parent,
  make_remote_dir, record_dir,
}

-- A call that did not run out of fuel.
pub data EndsInTime {R A : Type 0} : Outcome R A → Type 0 where
  succeeded : {a : A} {w : World R} → EndsInTime (done a w)
  failed : {e : Err} {w : World R} → e ≢ out_of_fuel → EndsInTime (fail e w)

cut_last-shorter :
    (path parent name : Text)
    → cut_last slash path ≡ some (parent, name)
    → length parent < length path
cut_last-shorter path parent name h = omega (
  arith,
  ap length ((cut_last_sound slash path parent name h).0),
  length-append parent (slash ∷ name),
)

module _ (env : Env) (S : Source) where
  record_dir-EndsInTime :
      (path parent : Text) (o : Option Text) (w : World S.State)
      → EndsInTime (record_dir env S path parent o w)
  unfolding emit
  record_dir-EndsInTime path parent none w = failed (λ e. cc)
  record_dir-EndsInTime path parent (some link) w = succeeded

  resolved_parent-EndsInTime :
      (o : Option Node) (w : World S.State) → EndsInTime (resolved_parent env S o w)
  resolved_parent-EndsInTime none w = failed (λ e. cc)
  resolved_parent-EndsInTime (some n) w = succeeded

  created-EndsInTime :
      (parent : Text) (o : Outcome S.State (Unit {0}))
      → EndsInTime o
      → EndsInTime (elim o [
        | done u w' ↦ resolved_parent env S (get_node parent w'.rows) w'
        | fail e w' ↦ fail e w'
      ])
  created-EndsInTime parent (done u w') t = resolved_parent-EndsInTime _ w'
  created-EndsInTime parent (fail e w') (failed h) = failed h

  made-EndsInTime :
      (path : Text) (o : Outcome S.State Text)
      → EndsInTime o
      → EndsInTime
          (elim o [ done parent w' ↦ make_remote_dir env S path parent w' | fail e w' ↦ fail e w' ])
  made-EndsInTime path (done parent w') t = record_dir-EndsInTime path parent _ _
  made-EndsInTime path (fail e w') (failed h) = failed h

  module _ (create : Text → M S.State (Unit {0})) where
    known_parent-EndsInTime :
        (parent : Text) (o : Option Node) (w : World S.State)
        → EndsInTime (create parent w)
        → EndsInTime (known_parent env S create parent o w)
    known_parent-EndsInTime parent none w t = created-EndsInTime parent _ t
    known_parent-EndsInTime parent (some n) w t =
        elim n.is_dir
          as (λ b.
            EndsInTime
              (elim b [ true ↦ done n.node_id w | false ↦ create_parent env S create parent w ])) [
                | true ↦ succeeded
                | false ↦ created-EndsInTime parent _ t
              ]

    parent_of-EndsInTime :
        (o : Option (Text × Text)) (w : World S.State)
        → ((parent name : Text) → o ≡ some (parent, name) → EndsInTime (create parent w))
        → EndsInTime (parent_of env S create o w)
    parent_of-EndsInTime none w t = succeeded
    parent_of-EndsInTime (some (parent, name)) w t =
        known_parent-EndsInTime parent _ w (t parent name refl)

  create_remote_dir-EndsInTime :
      (fuel : ℕ) (path : Text) (w : World S.State)
      → length path < fuel
      → EndsInTime (create_remote_dir env S fuel path w)
  unfolding create_remote_dir
  create_remote_dir-EndsInTime zero path w h = absurd (omega arith)
  create_remote_dir-EndsInTime (suc fuel) path w h = made-EndsInTime path _ (
      parent_of-EndsInTime (create_remote_dir env S fuel) (cut_last slash path) w (λ parent name e.
        create_remote_dir-EndsInTime fuel parent w
          (omega (arith, cut_last-shorter path parent name e))))

  -- `remote_parent_id` does not run out of fuel, nor does `create_remote_dir` with more fuel than
  -- the path has bytes.
  pub remote_parent_id-EndsInTime :
      (fuel : ℕ) (path : Text) (w : World S.State)
      → length path < fuel
      → EndsInTime (create_remote_dir env S fuel path w)
        × EndsInTime (remote_parent_id env S path w)
  unfolding remote_parent_id
  remote_parent_id-EndsInTime fuel path w h = (
    create_remote_dir-EndsInTime fuel path w h,
    parent_of-EndsInTime (create_remote_dir env S (length path)) (cut_last slash path) w
        (λ parent name e.
          create_remote_dir-EndsInTime (length path) parent w
            (cut_last-shorter path parent name e)),
  )
