-- ===== src/Gate/Authority.antt =====
-- Which folders the gate agrees to watch.
use p_drive.Base.{
  ℕ, Text, codes, List, true, not, ◌||◌, is_empty, is_abs, clean_path, path_parts, write_parts,
  IsNamed, path_parts-IsNamed, text_eq, text_eq_iff, has_prefix, All, if_elim, ◌≡◌, ◌≢◌, sym, ap,
  subst, ◌∙◌, arith,
}
use p_drive.Gate.{
  Stat, missing, plain_file, no_owner, directory_of, Authorized, refused, authorized, owned_root,
  authorize_root,
}

abbrev IsOwned : ℕ → Text → Stat → Authorized → Type 0
IsOwned uid root found (refused e) = Unit
IsOwned uid root found (authorized accepted) = (accepted ≡ root) × (found ≡ directory_of uid)

owned_root-IsOwned :
    (uid : ℕ) (root : Text) (found : Stat) → IsOwned uid root found (owned_root uid root found)
owned_root-IsOwned uid root missing = tt
owned_root-IsOwned uid root plain_file = tt
owned_root-IsOwned uid root no_owner = tt
owned_root-IsOwned uid root (directory_of owner) = ground arith

-- The path is a slash and elements none of which is empty, `.` or `..`.
abbrev pub IsPlain : Text → Type 0
IsPlain root = (parts : List Text) × (root ≡ write_parts true parts) × All IsNamed parts

abbrev IsSafeRoot : (Text → Stat) → ℕ → Authorized → Type 0
IsSafeRoot stat uid (refused e) = Unit
IsSafeRoot stat uid (authorized root) =
    (stat root ≡ directory_of uid) × (root ≢ codes "/") × IsPlain root

accepted-IsSafeRoot :
    (stat : Text → Stat) (uid : ℕ) (root : Text) (a : Authorized)
    → root ≢ codes "/"
    → IsPlain root
    → IsOwned uid root (stat root) a
    → IsSafeRoot stat uid a
accepted-IsSafeRoot stat uid root (refused e) n p o = tt
accepted-IsSafeRoot stat uid root (authorized accepted) n p (e, f) =
    (ap stat e ∙ f, (λ k. n (sym e ∙ k)), subst IsPlain (sym e) p)

clean_path-IsPlain : (root : Text) → is_abs root ≡ true → IsPlain (clean_path root)
unfolding clean_path
clean_path-IsPlain root a =
    (path_parts root, ap (λ r. write_parts r (path_parts root)) a, path_parts-IsNamed root a)

all_roots :
    (stat : Text → Stat) (root : Text) (uid : ℕ)
    → IsSafeRoot stat uid (authorize_root stat root uid)
unfolding authorize_root
all_roots stat root uid =
    if_elim (IsSafeRoot stat uid) (is_empty root || not (is_abs root)) _ _ (λ _. tt)
      (λ e.
        if_elim (IsSafeRoot stat uid)
          (text_eq (clean_path root) (codes "/") || not (has_prefix (clean_path root) (codes "/")))
          _ _ (λ _. tt)
          (λ d.
            accepted-IsSafeRoot stat uid (clean_path root)
              (owned_root uid (clean_path root) (stat (clean_path root)))
              (λ k. ground (arith, text_eq_iff (clean_path root) (codes "/")))
              (clean_path-IsPlain root (ground arith))
              (owned_root-IsOwned uid (clean_path root) (stat (clean_path root)))))

-- A root that the gate agrees to watch is a directory that the caller owns, is not the whole file
-- system, and is an absolute path whose elements name something, none of them being `..`.
pub authorize_root-IsPlain :
    (stat : Text → Stat) (root : Text) (uid : ℕ) (accepted : Text)
    → authorize_root stat root uid ≡ authorized accepted
    → (stat accepted ≡ directory_of uid) × (accepted ≢ codes "/") × IsPlain accepted
authorize_root-IsPlain stat root uid accepted h =
    subst (IsSafeRoot stat uid) h (all_roots stat root uid)
