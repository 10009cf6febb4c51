-- ===== src/Daemon/Watcher/Laws.antt =====
-- Bursts of changes, and a directory that is moved.
use p_drive.Base.{
  ℕ, ◌+◌, ◌≤◌, ◌<◌, Text, List, [], ◌∷◌, true, false, not, ◌&&◌, Option, none, some, is_empty,
  if_elim, ◌≡◌, refl, sym, ap, ◌∙◌, subst, arith,
}
use p_drive.Paths.{ignored}
use p_drive.Daemon.Watcher.{
  Watches, path_for, forget, adopt, Mask, LocalEvent, handle, Burst, debounce, fire, fired,
  on_change, on_changes,
}

-- Each change comes before the timer of the one before it fires.
abbrev pub IsBurst : ℕ → List ℕ → Type 0
IsBurst last [] = Unit
IsBurst last (now ∷ times) = (last ≤ now) × (now < last + debounce) × IsBurst now times

abbrev last_of : ℕ → List ℕ → ℕ
last_of last [] = last
last_of last (now ∷ times) = last_of now times

on_changes-pending :
    (last : ℕ) (times : List ℕ) (b : Burst)
    → IsBurst last times
    → b.timer ≡ some (last + debounce)
    → ((on_changes times b).timer ≡ some (last_of last times + debounce))
      × ((on_changes times b).changes ≡ b.changes)
unfolding on_changes on_change
on_changes-pending last [] b h t = (t, refl)
on_changes-pending last (now ∷ times) b (l, u, h) t =
    let (e, f) = on_changes-pending now times (on_change now b) h refl in (e, f ∙ waiting)
  where
    waiting : (fire now b).changes ≡ b.changes
    waiting = subst (λ (o : Option ℕ). (fired now b o).changes ≡ b.changes) (sym t) (ground arith)

-- A burst of changes, however long, asks for one sync: none while it lasts, and one once the
-- debounce time has passed since its last change.
pub on_changes-fire :
    (first : ℕ) (times : List ℕ) (b : Burst) (now : ℕ)
    → b.timer ≡ none
    → IsBurst first times
    → last_of first times + debounce ≤ now
    → let after = on_changes times (on_change first b) in
      (after.changes ≡ b.changes)
      × ((fire now after).changes ≡ b.changes + 1)
      × ((fire now after).timer ≡ none)
unfolding on_change
on_changes-fire first times b now t h l =
    let after = on_changes times (on_change first b) in
    let (e, f) = on_changes-pending first times (on_change first b) h refl in
    let g = f ∙ ap (λ (o : Option ℕ). (fired first b o).changes) t in
    (
      g,
      subst (λ (o : Option ℕ). (fired now after o).changes ≡ b.changes + 1) (sym e)
          (ground (arith, g)),
      subst (λ (o : Option ℕ). (fired now after o).timer ≡ none) (sym e) (ground arith),
    )

path_for-forget : (wd : ℕ) (ws : Watches) → path_for wd (forget wd ws) ≡ []
path_for-forget wd [] = refl
path_for-forget wd ((w, dir) ∷ ws) = ground (arith, path_for-forget wd ws)

module _ (add_watch : Text → Option ℕ) (walk : Text → List Text) where
  abbrev pub arrival : Mask
  arrival = record { is_dir = true; opened = false; self_gone = false; arrived = true }

  abbrev pub departure : Mask
  departure = record { is_dir = true; opened = false; self_gone = true; arrived = false }

  -- A directory that was moved reports that itself, after its new parent has reported it: the
  -- watcher then forgets the descriptor, and does not watch what is made in the directory later,
  -- whatever descriptors it had and whatever the kernel answers.
  pub handle-moved :
      (wd parent : ℕ) (dir name : Text) (ws : Watches)
      → let moved = (handle add_watch walk parent arrival dir ws).0 in
        let gone = (handle add_watch walk wd departure [] moved).0 in
        (handle add_watch walk wd arrival name gone).0 ≡ gone
  unfolding handle
  handle-moved wd parent dir name ws =
      let moved = (handle add_watch walk parent arrival dir ws).0 in
      if_elim (λ (r : Watches × Option LocalEvent). r.0 ≡ forget wd moved)
        (not (is_empty name) && ignored name) _ _ (λ _. refl)
        (λ _. ap (λ p. adopt add_watch walk name p (forget wd moved)) (path_for-forget wd moved))
