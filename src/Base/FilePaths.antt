-- ===== src/Base/FilePaths.antt =====
-- The functions of path/filepath that the program calls on whole paths, on a system whose separator
-- is the slash: IsAbs, Clean, Join of two elements and Rel.
use mathlib.Core.Path.{◌≡◌, sym, subst}
use mathlib.Core.Bool.{Bool, true, false, ◌||◌}
use mathlib.Core.Option.{Option, none, some}
use mathlib.Core.List.{List, [], ◌∷◌, ◌++◌}
use native.Mathlib.Omega.{arith}
use p_drive.Base.Tests.{if◌then◌else◌, if_elim}
use p_drive.Base.Lists.{All, is_empty}
use p_drive.Base.Strings.{
  Text, codes, slash, text_eq, has_prefix, has_byte, split_on, split_on-free, join_with,
}

abbrev pub here : Text
here = codes "."

abbrev pub above : Text
above = codes ".."

-- `filepath.IsAbs`
abbrev pub is_abs : Text → Bool
is_abs path = has_prefix path (codes "/")

-- The elements that are kept, the last one first, when `..` is met: an element before it goes, but
-- not another `..`, and above a root there is nothing.
abbrev pub ascend : Bool → List Text → List Text
ascend rooted [] = if rooted then [] else above ∷ []
ascend rooted (part ∷ kept) = if text_eq part above then above ∷ part ∷ kept else kept

abbrev pub enter : Bool → Text → List Text → List Text
enter rooted part kept =
    if is_empty part || text_eq part here
    then kept
    else if text_eq part above
    then ascend rooted kept
    else part ∷ kept

unfoldable pub clean_parts : Bool → List Text → List Text → List Text
clean_parts rooted kept [] = kept
clean_parts rooted kept (part ∷ parts) = clean_parts rooted (enter rooted part kept) parts

unfoldable pub backwards : List Text → List Text → List Text
backwards [] done = done
backwards (part ∷ parts) done = backwards parts (part ∷ done)

-- The elements of `filepath.Clean(path)`.
abbrev pub path_parts : Text → List Text
path_parts path = backwards (clean_parts (is_abs path) [] (split_on slash path)) []

abbrev pub write_parts : Bool → List Text → Text
write_parts true parts = codes "/" ++ join_with slash parts
write_parts false [] = here
write_parts false (part ∷ parts) = join_with slash (part ∷ parts)

-- `filepath.Clean`
unfoldable pub clean_path : Text → Text
unfolding clean_parts backwards
clean_path path = write_parts (is_abs path) (path_parts path)

-- `filepath.Join` of two elements
abbrev pub join_path : Text → Text → Text
join_path a b =
    if is_empty a
    then (if is_empty b then [] else clean_path b)
    else if is_empty b
    then clean_path a
    else clean_path (a ++ codes "/" ++ b)

unfoldable pub climb_out : List Text → List Text → List Text
climb_out [] rest = rest
climb_out (part ∷ parts) rest = above ∷ climb_out parts rest

-- What is left of both paths after their common elements.
unfoldable pub rel_parts : List Text → List Text → Option (List Text)
unfolding climb_out
rel_parts [] target = some target
rel_parts (b ∷ base) [] = if text_eq b above then none else some (climb_out (b ∷ base) [])
rel_parts (b ∷ base) (t ∷ target) =
    let rest = rel_parts base target in
    if text_eq b t
    then rest
    else if text_eq b above
    then none
    else some (climb_out (b ∷ base) (t ∷ target))

abbrev pub as_path : Option (List Text) → Option Text
as_path none = none
as_path (some parts) = some (write_parts false parts)

-- `filepath.Rel`
unfoldable pub rel_path : Text → Text → Option Text
unfolding rel_parts
rel_path base target =
    if is_abs base
    then (if is_abs target then as_path (rel_parts (path_parts base) (path_parts target)) else none)
    else if is_abs target
    then none
    else as_path (rel_parts (path_parts base) (path_parts target))

-- An element that names something: not empty, neither of the dots, and without a separator.
abbrev pub IsNamed : Text → Type 0
IsNamed part =
    (is_empty part ≡ false)
    × (text_eq part here ≡ false)
    × (text_eq part above ≡ false)
    × (has_byte slash part ≡ false)

enter-All :
    (part : Text) (kept : List Text)
    → has_byte slash part ≡ false
    → All IsNamed kept
    → All IsNamed (enter true part kept)
enter-All part kept f h =
    if_elim (All IsNamed) (is_empty part || text_eq part here) _ _ (λ _. h)
      (λ e.
        if_elim (All IsNamed) (text_eq part above) _ _ (λ _. up kept h)
          (λ a. ((ground arith, ground arith, a, f), h)))
  where
    up : (kept : List Text) → All IsNamed kept → All IsNamed (ascend true kept)
    up [] h = tt
    up (k ∷ kept) h =
        if_elim (All IsNamed) (text_eq k above) _ _ (λ e. absurd (ground arith)) (λ _. h.1)

clean_parts-All :
    (kept parts : List Text)
    → All (λ p. has_byte slash p ≡ false) parts
    → All IsNamed kept
    → All IsNamed (clean_parts true kept parts)
unfolding clean_parts
clean_parts-All kept [] f h = h
clean_parts-All kept (part ∷ parts) f h =
    clean_parts-All (enter true part kept) parts f.1 (enter-All part kept f.0 h)

backwards-All :
    (P : Text → Type 0) (parts done : List Text)
    → All P parts
    → All P done
    → All P (backwards parts done)
unfolding backwards
backwards-All P [] done h k = k
backwards-All P (part ∷ parts) done h k = backwards-All P parts (part ∷ done) h.1 (h.0, k)

-- The elements of an absolute path all name something: none of them is `..`.
pub path_parts-IsNamed : (path : Text) → is_abs path ≡ true → All IsNamed (path_parts path)
path_parts-IsNamed path a =
    backwards-All IsNamed (clean_parts (is_abs path) [] (split_on slash path)) []
      (subst (λ r. All IsNamed (clean_parts r [] (split_on slash path))) (sym a)
        (clean_parts-All [] (split_on slash path) (split_on-free slash path) tt))
      tt
