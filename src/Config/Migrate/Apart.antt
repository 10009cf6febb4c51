-- ===== src/Config/Migrate/Apart.antt =====
-- Which new roots are accepted (internal/config/migrate.go, ValidateSyncRoot).
use p_drive.Base.{
  ℕ, Text, codes, slash, List, [], ◌∷◌, ◌++◌, append-nil, append_assoc, join_with, write_parts,
  refl, sym, true, false, Option, none, is_abs, text_eq_iff, has_prefix, has_prefix-append, ◌≡◌,
  ◌≢◌, ap, ◌∙◌, arith,
}
use p_drive.Config.Migrate.{
  Found, nothing, unreadable, a_file, a_folder, is_under, is_home, usable, validate_sync_root,
}

-- Neither is the other, and neither is a path below the other.
abbrev pub IsApartFrom : Text → Text → Type 0
IsApartFrom old_root new_root =
    (new_root ≢ old_root)
    × ((rest : Text) → new_root ≢ (old_root ++ codes "/") ++ rest)
    × ((rest : Text) → old_root ≢ (new_root ++ codes "/") ++ rest)

-- The place is free: there is nothing, or an empty folder.
abbrev pub IsFree : Found → Type 0
IsFree nothing = Unit
IsFree unreadable = ⊥
IsFree a_file = ⊥
IsFree (a_folder n) = n ≡ 0

usable-IsFree : (found : Found) → usable found ≡ none → IsFree found
usable-IsFree nothing h = tt
usable-IsFree unreadable h = ground arith
usable-IsFree a_file h = ground arith
usable-IsFree (a_folder n) h = ground arith

not_under-ne :
    (path parent rest : Text) → is_under path parent ≡ false → path ≢ (parent ++ codes "/") ++ rest
not_under-ne path parent rest h e = ground (
  arith,
  ap (λ p. has_prefix p (parent ++ codes "/")) e ∙ has_prefix-append (parent ++ codes "/") rest,
)

-- What the comparison of the texts gives, whether they are clean or not.
pub validate_sync_root-IsApartFrom :
    (home : Option Text) (found : Found) (old_root new_root : Text)
    → validate_sync_root home found old_root new_root ≡ none
    → (is_abs new_root ≡ true)
      × (new_root ≢ codes "/")
      × (is_home home new_root ≡ false)
      × IsApartFrom old_root new_root
      × IsFree found
unfolding validate_sync_root
validate_sync_root-IsApartFrom home found old_root new_root h = (
  ground arith,
  (λ e. ground (arith, text_eq_iff new_root (codes "/"))),
  ground arith,
  (
    (λ e. ground (arith, text_eq_iff new_root old_root)),
    (λ rest. not_under-ne new_root old_root rest (ground arith)),
    (λ rest. not_under-ne old_root new_root rest (ground arith)),
  ),
  usable-IsFree found (ground arith),
)

join_with-append :
    (c : ℕ) (a b : List Text)
    → a ≢ []
    → b ≢ []
    → join_with c (a ++ b) ≡ join_with c a ++ (c ∷ join_with c b)
unfolding join_with
join_with-append c [] b n m = absurd (n refl)
join_with-append c (p ∷ a) [] n m = absurd (m refl)
join_with-append c (p ∷ []) (q ∷ b) n m = refl
join_with-append c (p ∷ o ∷ a) (q ∷ b) n m =
    ap (λ t. p ++ (c ∷ t)) (join_with-append c (o ∷ a) (q ∷ b) (λ e. cc) (λ e. cc))
    ∙ sym (append_assoc p (c ∷ join_with c (o ∷ a)) (c ∷ join_with c (q ∷ b)))

-- The clean path of further elements below a folder.
below-path :
    (a : List Text) (r : Text) (rest : List Text)
    → a ≢ []
    → write_parts true (a ++ (r ∷ rest))
      ≡ (write_parts true a ++ codes "/") ++ join_with slash (r ∷ rest)
below-path a r rest n =
    ap (λ t. codes "/" ++ t) (join_with-append slash a (r ∷ rest) n (λ e. cc))
    ∙ sym (append_assoc (write_parts true a) (codes "/") (join_with slash (r ∷ rest)))

-- Neither folder is the other or inside it, by the elements of their paths.
abbrev pub AreApart : List Text → List Text → Type 0
AreApart old new =
    ((rest : List Text) → new ≢ old ++ rest) × ((rest : List Text) → old ≢ new ++ rest)

outside :
    (a b : List Text)
    → a ≢ []
    → write_parts true b ≢ write_parts true a
    → ((rest : Text) → write_parts true b ≢ (write_parts true a ++ codes "/") ++ rest)
    → (rest : List Text) → b ≢ a ++ rest
outside a b n same under [] e = same (ap (write_parts true) (e ∙ append-nil a))
outside a b n same under (r ∷ rest) e =
    under (join_with slash (r ∷ rest)) (ap (write_parts true) e ∙ below-path a r rest n)

-- Of clean absolute paths, given by their elements, and where the current folder is not the root of
-- the file system: a new folder that validation accepts is neither the root of the file system nor
-- the home directory, neither of the two folders is inside the other, and the place is free.
pub validate_sync_root-AreApart :
    (home : Option Text) (found : Found) (old new : List Text)
    → old ≢ []
    → validate_sync_root home found (write_parts true old) (write_parts true new) ≡ none
    → (new ≢ []) × (is_home home (write_parts true new) ≡ false) × AreApart old new × IsFree found
unfolding join_with
validate_sync_root-AreApart home found old new n h =
    let t =
      validate_sync_root-IsApartFrom home found (write_parts true old) (write_parts true new) h in
    let named : new ≢ [] = λ e. t.1 (ap (write_parts true) e) in
    (
      named,
      t.2,
      (outside old new n t.3.0 t.3.1, outside new old named (λ e. t.3.0 (sym e)) t.3.2),
      t.4,
    )
