-- ===== src/Paths/Laws.antt =====
-- What the rules about names guarantee.
use p_drive.Base.{
  ℕ, Text, codes, List, [], ◌∷◌, ◌++◌, true, false, ◌≡◌, ◌≤◌, refl, arith, text_eq_iff, has_byte,
  has_prefix, has_suffix, split_on, slash, length, any, All, split_on-free, append_assoc,
  has_prefix-append, trim_left, trim_right, onto_head, split_on-free_eq, has_suffix_refl,
}
use p_drive.SafePath.{ok, sanitize_path, max_component}
use p_drive.SafePath.Laws.{IsSafe, sanitize_path-accepts}
use p_drive.Paths.{bad_part, valid_path, excludes_path, excluded, stub_suffix, temp_suffix}

good_part-IsSafe :
    (part : Text)
    → bad_part part ≡ false
    → has_byte slash part ≡ false
    → length part ≤ max_component
    → IsSafe part
unfolding bad_part
good_part-IsSafe part g s l =
    ground (arith, text_eq_iff part (codes "."), text_eq_iff part (codes ".."))

good_parts-IsSafe :
    (parts : List Text)
    → any bad_part parts ≡ false
    → All (λ p. has_byte slash p ≡ false) parts
    → All (λ p. length p ≤ max_component) parts
    → All IsSafe parts
good_parts-IsSafe [] g s l = tt
good_parts-IsSafe (part ∷ parts) g s l =
    (good_part-IsSafe part (ground arith) s.0 l.0, good_parts-IsSafe parts (ground arith) s.1 l.1)

-- A server path that the mirror takes as valid is one that the backup accepts too, unless one of
-- its components is longer than 255 bytes.
pub valid_path-sanitize_path :
    (p : Text)
    → valid_path p ≡ true
    → All (λ part. length part ≤ max_component) (split_on slash p)
    → sanitize_path p ≡ ok (split_on slash p)
unfolding valid_path
valid_path-sanitize_path p v l =
    sanitize_path-accepts p (ground arith) (ground arith)
      (good_parts-IsSafe (split_on slash p) (ground arith) (split_on-free slash p) l)

has_prefix-extend : (s t p : Text) → has_prefix s p ≡ true → has_prefix (s ++ t) p ≡ true
unfolding has_prefix
has_prefix-extend s t [] h = refl
has_prefix-extend [] t (c ∷ p) h = cc
has_prefix-extend (x ∷ s) t (c ∷ p) h = ground (arith, has_prefix-extend s t p)

excludes_path-append :
    (path rest ex : Text)
    → excludes_path path ex ≡ true
    → excludes_path (path ++ (slash ∷ rest)) ex ≡ true
unfolding excludes_path
excludes_path-append path rest ex h =
    let ex' = trim_right slash (trim_left slash ex) in
    ground (
      arith,
      text_eq_iff path ex',
      has_prefix-extend path (slash ∷ rest) (ex' ++ codes "/"),
      has_prefix-append (ex' ++ codes "/") rest,
      append_assoc ex' (codes "/") rest,
    )

-- Selective sync excludes whole subtrees: what lies below an excluded path is excluded.
pub excluded-append :
    (exclude : List Text) (path rest : Text)
    → excluded exclude path ≡ true
    → excluded exclude (path ++ (slash ∷ rest)) ≡ true
unfolding excluded
excluded-append [] path rest h = cc
excluded-append (ex ∷ exclude) path rest h =
    ground (arith, excludes_path-append path rest ex, excluded-append exclude path rest)

module _ (suffix : Text) where
  any-onto_head :
      (x : ℕ) (ps : List Text)
      → any (λ q. has_suffix q suffix) ps ≡ true
      → any (λ q. has_suffix q suffix) (onto_head x ps) ≡ true
  unfolding has_suffix
  any-onto_head x [] h = cc
  any-onto_head x (p ∷ ps) h = ground arith

  any-split_on :
      (s : Text)
      → has_byte slash suffix ≡ false
      → any (λ q. has_suffix q suffix) (split_on slash (s ++ suffix)) ≡ true
  unfolding split_on
  any-split_on [] free = rw (split_on-free_eq slash suffix free, has_suffix_refl suffix)
  any-split_on (x ∷ s) free = ground (
    arith,
    any-split_on s free,
    any-onto_head x (split_on slash (s ++ suffix)) (any-split_on s free),
  )

any-bad_part :
    (suffix : Text) (ps : List Text)
    → ((part : Text) → has_suffix part suffix ≡ true → bad_part part ≡ true)
    → any (λ q. has_suffix q suffix) ps ≡ true
    → any bad_part ps ≡ true
any-bad_part suffix [] h k = cc
any-bad_part suffix (p ∷ ps) h k = ground (arith, h p, any-bad_part suffix ps h)

bad_part_stub : (part : Text) → has_suffix part stub_suffix ≡ true → bad_part part ≡ true
unfolding bad_part
bad_part_stub part h = ground arith

bad_part_temp : (part : Text) → has_suffix part temp_suffix ≡ true → bad_part part ≡ true
unfolding bad_part
bad_part_temp part h = ground arith

-- No path of the server can be taken for pDrive's own files: a stub's or a temporary file's path is
-- never a valid one, whatever it stands for.
pub valid_path-suffix :
    (p : Text) → (valid_path (p ++ stub_suffix) ≡ false) × (valid_path (p ++ temp_suffix) ≡ false)
unfolding valid_path has_byte
valid_path-suffix p =
    let stub =
      any-bad_part stub_suffix (split_on slash (p ++ stub_suffix)) bad_part_stub
        (any-split_on stub_suffix p refl) in
    let temp =
      any-bad_part temp_suffix (split_on slash (p ++ temp_suffix)) bad_part_temp
        (any-split_on temp_suffix p refl) in
    (ground (arith, stub), ground (arith, temp))
