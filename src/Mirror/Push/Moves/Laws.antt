-- ===== src/Mirror/Push/Moves/Laws.antt =====
-- What counts as a local deletion, and where moves may go.
use p_drive.Base.{
  Text, List, [], ◌∷◌, ◌++◌, map, Bool, true, false, ◌&&◌, ◌||◌, none, some, ◌≡◌, ◌⊎◌, refl, arith,
  ◌∙◌, ap, sym, subst, Option-cases, inl, inr, any, keep, All, sort, insert_sorted, text_eq,
  text_eq_iff, cut_last, slash, if_elim,
}
use p_drive.State.Rows.{Node, Row, materialized, scan_node}
use p_drive.State.Nodes.{all_nodes, get_node, find_row}
use p_drive.Paths.{ignored, valid_path, excluded}
use p_drive.Mirror.Disk.{Disk}
use p_drive.Mirror.World.{LocalNode}
use p_drive.Mirror.Scan.{Local, scan, local_at, base_name}
use p_drive.Mirror.Scan.Laws.{scan-listed}
use p_drive.Mirror.Push.Moves.{
  gone, find_local_deletions, Search, candidates, is_candidate, take_match, try_candidates,
  match_all, detect_moves,
}

module _ {ℓ} {A : Type ℓ} where
  any-insert_sorted :
      (less : A → A → Bool) (p : A → Bool) (a : A) (xs : List A)
      → any p (insert_sorted less a xs) ≡ (p a || any p xs)
  unfolding insert_sorted
  any-insert_sorted less p a [] = refl
  any-insert_sorted less p a (b ∷ xs) = ground (arith, any-insert_sorted less p a xs)

  any-sort : (less : A → A → Bool) (p : A → Bool) (xs : List A) → any p (sort less xs) ≡ any p xs
  unfolding sort
  any-sort less p [] = refl
  any-sort less p (a ∷ xs) =
      ground (arith, any-insert_sorted less p a (sort less xs), any-sort less p xs)

  any-keep : (q p : A → Bool) (xs : List A) → any p (keep q xs) ≡ any (λ a. q a && p a) xs
  any-keep q p [] = refl
  any-keep q p (a ∷ xs) = ground (arith, any-keep q p xs)

any-scan_node :
    (p : Node → Bool) (rows : List Row)
    → any p (map scan_node rows) ≡ any (λ r. p (scan_node r)) rows
any-scan_node p [] = refl
any-scan_node p (r ∷ rows) = ground (arith, any-scan_node p rows)

any-found :
    (p : Node → Bool) (path : Text) (n : Node) (rows : List Row)
    → get_node path rows ≡ some n
    → p n ≡ true
    → any (λ r. p (scan_node r)) rows ≡ true
unfolding get_node find_row
any-found p path n [] h e = cc
any-found p path n (r ∷ rows) h e = ground (arith, any-found p path n rows)

get_node-path :
    (path : Text) (n : Node) (rows : List Row) → get_node path rows ≡ some n → n.path ≡ path
unfolding get_node find_row
get_node-path path n [] h = cc
get_node-path path n (r ∷ rows) h =
    ground (arith, get_node-path path n rows, text_eq_iff r.path path)

-- What hides a path from a scan: an ignored name, a path that is not valid, or selective sync.
abbrev pub IsHidden : List Text → Text → Type 0
IsHidden exclude path =
    (ignored (base_name (cut_last slash path) path) ≡ true)
    ⊎ ((valid_path path ≡ false) ⊎ (excluded exclude path ≡ true))

hidden-unlisted :
    (exclude : List Text) (disk : Disk) (path : Text)
    → IsHidden exclude path
    → local_at path (scan exclude disk) ≡ none
hidden-unlisted exclude disk path hidden =
    elim (Option-cases (local_at path (scan exclude disk)))
      as (λ _. local_at path (scan exclude disk) ≡ none) [
        | inl e ↦ e
        | inr (n, e) ↦
            let seen = scan-listed exclude disk path n e in ground (arith, seen.0, seen.1, seen.2)
      ]

gone-hidden :
    (exclude : List Text) (disk : Disk) (n : Node)
    → n.mat ≡ materialized
    → IsHidden exclude n.path
    → gone (scan exclude disk) disk n ≡ true
unfolding gone
gone-hidden exclude disk n m hidden = ground (arith, hidden-unlisted exclude disk n.path hidden)

-- A tracked file that is materialized, and whose path a scan does not list because its name is
-- ignored, it is not valid or selective sync excludes it, is among the local deletions, whatever
-- the folder holds.
pub find_local_deletions-hidden :
    (exclude : List Text) (rows : List Row) (disk : Disk) (path : Text) (n : Node)
    → get_node path rows ≡ some n
    → n.mat ≡ materialized
    → IsHidden exclude path
    → any (λ m. text_eq m.path path) (find_local_deletions rows (scan exclude disk) disk) ≡ true
unfolding find_local_deletions all_nodes
find_local_deletions-hidden exclude rows disk path n h m hidden =
    any-sort _ _ (keep (gone (scan exclude disk) disk) (all_nodes rows))
    ∙ any-keep (gone (scan exclude disk) disk) (λ m. text_eq m.path path) (all_nodes rows)
    ∙ any-scan_node (λ m. gone (scan exclude disk) disk m && text_eq m.path path) _
    ∙ any-sort _ _ rows
    ∙ any-found (λ m. gone (scan exclude disk) disk m && text_eq m.path path) path n rows h
        (found (get_node-path path n rows h))
  where
    found : n.path ≡ path → (gone (scan exclude disk) disk n && text_eq n.path path) ≡ true
    found e = ground (
      arith,
      gone-hidden exclude disk n m (subst (IsHidden exclude) (sym e) hidden),
      text_eq_iff n.path path,
    )

-- No two entries are the same.
abbrev pub IsDistinct : List Text → Type 0
IsDistinct [] = Unit
IsDistinct (x ∷ xs) = (any (λ y. text_eq y x) xs ≡ false) × IsDistinct xs

-- The destinations of the moves, the last one first.
abbrev pub destinations : List (Node × Text) → List Text → List Text
destinations [] taken = taken
destinations ((old, path) ∷ moves) taken = destinations moves (path ∷ taken)

destinations-append :
    (moves : List (Node × Text)) (old : Node) (path : Text) (taken : List Text)
    → destinations (moves ++ ((old, path) ∷ [])) taken ≡ path ∷ destinations moves taken
destinations-append [] old path taken = refl
destinations-append ((o, p) ∷ moves) old path taken = destinations-append moves old path (p ∷ taken)

-- Every move goes to a path that the baseline does not know, each path is the destination of one
-- move at most, and these are the paths that are claimed.
abbrev pub IsSearch : List Row → Search → Type 0
IsSearch rows s =
    All (λ path. get_node path rows ≡ none) s.claimed
    × (IsDistinct s.claimed × (destinations s.moves [] ≡ s.claimed))

abbrev Untracked : List Row → Local → Type 0
Untracked rows cands = All (λ c. get_node (c.0) rows ≡ none) cands

candidates-Untracked : (rows : List Row) (local : Local) → Untracked rows (candidates rows local)
unfolding candidates
candidates-Untracked rows [] = tt
candidates-Untracked rows ((path, n) ∷ local) =
    if_elim (Untracked rows) (is_candidate rows (path, n)) _ _
      (λ fresh. (unknown fresh, candidates-Untracked rows local))
      (λ _. candidates-Untracked rows local)
  where
    unknown : is_candidate rows (path, n) ≡ true → get_node path rows ≡ none
    unknown h = ground arith

module _ (sha1 : Text → Text) (disk : Disk) (rows : List Row) where
  take_match-IsSearch :
      (old : Node) (path : Text) (s : Search) (found : Bool × LocalNode) (rest : Search → Search)
      → get_node path rows ≡ none
      → any (λ c. text_eq c path) s.claimed ≡ false
      → IsSearch rows s
      → ((s' : Search) → IsSearch rows s' → IsSearch rows (rest s'))
      → IsSearch rows (take_match sha1 disk old path s found rest)
  take_match-IsSearch old path s (true, n) rest fresh free (u, (d, e)) k =
      ((fresh, u), ((free, d), destinations-append s.moves old path [] ∙ ap (λ c. path ∷ c) e))
  take_match-IsSearch old path s (false, n) rest fresh free i k = k _ i

  try_candidates-IsSearch :
      (old : Node) (cands : Local) (s : Search)
      → Untracked rows cands
      → IsSearch rows s
      → IsSearch rows (try_candidates sha1 disk old cands s)
  unfolding try_candidates
  try_candidates-IsSearch old [] s u i = i
  try_candidates-IsSearch old ((path, n) ∷ cands) s (fresh, u) i =
      if_elim (IsSearch rows) (any (λ c. text_eq c path) s.claimed) _ _
        (λ _. try_candidates-IsSearch old cands s u i)
        (λ free.
          take_match-IsSearch old path s _ (try_candidates sha1 disk old cands) fresh free i
            (λ s' i'. try_candidates-IsSearch old cands s' u i'))

  match_all-IsSearch :
      (cands : Local) (deleted : List Node) (s : Search)
      → Untracked rows cands
      → IsSearch rows s
      → IsSearch rows (match_all sha1 disk cands deleted s)
  unfolding match_all
  match_all-IsSearch cands [] s u i = i
  match_all-IsSearch cands (old ∷ deleted) s u i = match_all-IsSearch cands deleted _ u (
      if_elim (IsSearch rows) old.is_dir _ _ (λ _. i)
        (λ _. try_candidates-IsSearch old cands s u i))

  -- The moves that `detect_moves` finds go to paths that the baseline does not know, no two of them
  -- to the same path, and the claimed paths are the destinations of the moves.
  pub detect_moves-IsSearch :
      (local : Local) (deleted : List Node)
      → IsSearch rows (detect_moves sha1 disk rows local deleted)
  unfolding detect_moves
  detect_moves-IsSearch local deleted =
      match_all-IsSearch (candidates rows local) deleted _ (candidates-Untracked rows local)
        (tt, (tt, refl))
