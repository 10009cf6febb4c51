-- ===== src/SafePath/Laws.antt =====
-- What passes the validation cannot leave the destination directory.
use p_drive.Base.{
  ℕ, Text, codes, List, [], ◌∷◌, false, ◌≡◌, ◌≢◌, ◌≤◌, inl, inr, refl, sym, ap, ◌∙◌, arith, text_eq,
  text_eq_iff, has_byte, has_prefix, split_on, join_with, join_with-split_on, split_on-join_with,
  split_on-ne-nil, subst, ◌||◌, slash, length, All, if◌then◌else◌, Bool-cases,
}
use p_drive.SafePath.{
  Checked, ok, err, max_component, sanitize_component, sanitize_parts, sanitize_path, prepend,
}

-- A name that is safe as one component of a local path.
pub record IsSafe (name : Text) : Type 0 where
  pub not_empty : name ≢ []
  pub not_dot : name ≢ codes "."
  pub not_dot_dot : name ≢ codes ".."
  pub no_nul : has_byte 0 name ≡ false
  pub no_slash : has_byte slash name ≡ false
  pub fits : length name ≤ max_component

pub sanitize_component_sound :
    (name : Text) (part : Text) → sanitize_component name ≡ ok part → (part ≡ name) × IsSafe name
unfolding sanitize_component
sanitize_component_sound [] part h = cc
sanitize_component_sound (c ∷ name) part h = (
  ground arith,
  ground (arith, text_eq_iff (c ∷ name) (codes "."), text_eq_iff (c ∷ name) (codes "..")),
)

pub sanitize_component_complete : (name : Text) → IsSafe name → sanitize_component name ≡ ok name
unfolding sanitize_component
sanitize_component_complete [] s = absurd (s.not_empty refl)
sanitize_component_complete (c ∷ name) s =
    ground (arith, text_eq_iff (c ∷ name) (codes "."), text_eq_iff (c ∷ name) (codes ".."))

prepend-ok :
    (p part : Text) (parts out : List Text) (one : Checked Text) (rest : Checked (List Text))
    → ((x : Text) → one ≡ ok x → (x ≡ part) × IsSafe part)
    → ((xs : List Text) → rest ≡ ok xs → (xs ≡ parts) × All IsSafe parts)
    → prepend p one rest ≡ ok out
    → (out ≡ part ∷ parts) × All IsSafe (part ∷ parts)
prepend-ok p part parts out (err e) rest f g h = absurd (cc)
prepend-ok p part parts out (ok x) (err e) f g h = absurd (cc)
prepend-ok p part parts out (ok x) (ok xs) f g h =
    (cc ((f x refl).0, (g xs refl).0), ((f x refl).1, (g xs refl).1))

sanitize_parts_sound :
    (p : Text) (parts out : List Text)
    → sanitize_parts p parts ≡ ok out
    → (out ≡ parts) × All IsSafe parts
unfolding sanitize_parts
sanitize_parts_sound p [] out h = (cc, tt)
sanitize_parts_sound p (part ∷ parts) out h =
    prepend-ok p part parts out (sanitize_component part) (sanitize_parts p parts)
      (sanitize_component_sound part) (sanitize_parts_sound p parts) h

sanitize_parts_complete :
    (p : Text) (parts : List Text) → All IsSafe parts → sanitize_parts p parts ≡ ok parts
unfolding sanitize_parts
sanitize_parts_complete p [] a = refl
sanitize_parts_complete p (part ∷ parts) a =
    rw (sanitize_component_complete part a.0, sanitize_parts_complete p parts a.1)

-- A path that is accepted is its components joined by slashes, there is at least one, and each of
-- them is safe.
pub sanitize_path_sound :
    (p : Text) (parts : List Text)
    → sanitize_path p ≡ ok parts
    → (join_with slash parts ≡ p) × (parts ≢ []) × All IsSafe parts
unfolding sanitize_path
sanitize_path_sound [] parts h = absurd (cc)
sanitize_path_sound (c ∷ p) parts h = elim (Bool-cases (has_prefix (c ∷ p) (codes "/"))) [
  | inl e ↦ absurd (cc (rw e at h))
  | inr e ↦
      let (same, safe) = sanitize_parts_sound (c ∷ p) (split_on slash (c ∷ p)) parts (rw e at h) in
      (
        ap (join_with slash) same ∙ join_with-split_on slash (c ∷ p),
        λ n. split_on-ne-nil slash (c ∷ p) (sym same ∙ n),
        rw same safe,
      )
]

All-no_slash : (parts : List Text) → All IsSafe parts → All (λ p. has_byte slash p ≡ false) parts
All-no_slash [] a = tt
All-no_slash (part ∷ parts) a = (a.0.no_slash, All-no_slash parts a.1)

join_with-cons :
    (c x : ℕ) (p : Text) (ps : List Text) → join_with c ((x ∷ p) ∷ ps) ≡ x ∷ join_with c (p ∷ ps)
unfolding join_with
join_with-cons c x p [] = refl
join_with-cons c x p (q ∷ ps) = refl

not_absolute :
    (c : ℕ) (p q : Text) → has_byte slash (c ∷ p) ≡ false → has_prefix (c ∷ q) (codes "/") ≡ false
unfolding has_byte has_prefix
not_absolute c p q h = ground arith

pub sanitize_path-accepts :
    (p : Text)
    → p ≢ []
    → has_prefix p (codes "/") ≡ false
    → All IsSafe (split_on slash p)
    → sanitize_path p ≡ ok (split_on slash p)
unfolding sanitize_path
sanitize_path-accepts [] n h a = absurd (n refl)
sanitize_path-accepts (c ∷ p) n h a = rw h (sanitize_parts_complete (c ∷ p) _ a)

-- Every list of safe components is accepted, and comes back as it was.
pub sanitize_path-join_with :
    (parts : List Text)
    → parts ≢ []
    → All IsSafe parts
    → sanitize_path (join_with slash parts) ≡ ok parts
sanitize_path-join_with [] n a = absurd (n refl)
sanitize_path-join_with ([] ∷ parts) n a = absurd (a.0.not_empty refl)
sanitize_path-join_with ((c ∷ part) ∷ parts) n a =
    let ps : List Text = (c ∷ part) ∷ parts in
    let back : split_on slash (join_with slash ps) ≡ ps =
      split_on-join_with slash ps n (All-no_slash ps a) in
    let head : join_with slash ps ≡ c ∷ join_with slash (part ∷ parts) =
      join_with-cons slash c part parts in
    sanitize_path-accepts (join_with slash ps) (λ e. cc (head, e))
      (rw head (not_absolute c part _ a.0.no_slash)) (subst (All IsSafe) (sym back) a)
    ∙ ap ok back

-- What the file system makes of a relative path: `.` and empty components stay, `..` goes up. A
-- directory is the list of its components, the innermost first.
abbrev pub tail_of : List Text → List Text
tail_of [] = []
tail_of (d ∷ ds) = ds

abbrev pub enter : Text → List Text → List Text
enter part dir =
    if text_eq part (codes "") || text_eq part (codes ".")
    then dir
    else if text_eq part (codes "..")
    then tail_of dir
    else part ∷ dir

abbrev pub descend : List Text → List Text → List Text
descend dir [] = dir
descend dir (part ∷ parts) = descend (enter part dir) parts

-- The components put in front of a directory, the last one innermost.
abbrev pub below : List Text → List Text → List Text
below dir [] = dir
below dir (part ∷ parts) = below (part ∷ dir) parts

enter-IsSafe : (part : Text) (dir : List Text) → IsSafe part → enter part dir ≡ part ∷ dir
enter-IsSafe part dir s = ground (
  arith,
  text_eq_iff part (codes ""),
  text_eq_iff part (codes "."),
  text_eq_iff part (codes ".."),
  s.not_empty,
  s.not_dot,
  s.not_dot_dot,
)

descend-IsSafe : (parts dir : List Text) → All IsSafe parts → descend dir parts ≡ below dir parts
descend-IsSafe [] dir a = refl
descend-IsSafe (part ∷ parts) dir a =
    rw (enter-IsSafe part dir a.0) (descend-IsSafe parts (part ∷ dir) a.1)

-- An accepted path, walked component by component from any directory, goes down at every step and
-- never up: it ends at that directory extended by the components.
pub sanitize_path-descend :
    (p : Text) (parts dir : List Text)
    → sanitize_path p ≡ ok parts
    → descend dir (split_on slash p) ≡ below dir parts
sanitize_path-descend p parts dir h =
    let (joined, n, safe) = sanitize_path_sound p parts h in
    let same : split_on slash p ≡ parts =
      sym (ap (split_on slash) joined)
      ∙ split_on-join_with slash parts n (All-no_slash parts safe) in
    rw same (descend-IsSafe parts dir safe)
