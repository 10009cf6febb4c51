-- ===== src/Base/Strings/Cutting.antt =====
-- Prefixes, suffixes, and cutting a text at a byte.
use Prim.Native.Nat.{ℕ}
use mathlib.Core.Path.{◌≡◌, refl, ◌∙◌, ap}
use mathlib.Core.Logic.{◌≢◌, ◌⊎◌, inl, inr}
use mathlib.Core.Bool.{Bool, true, false, ◌||◌}
use mathlib.Core.Option.{Option, none, some}
use mathlib.Core.List.{List, [], ◌∷◌, ◌++◌}
use native.Mathlib.Omega.{arith}
use p_drive.Base.Tests.{◌==◌, Bool-cases, if◌then◌else◌}
use p_drive.Base.Lists.{All}
use p_drive.Base.Strings.Defs.{
  Text, has_prefix, has_suffix, has_byte, split_on, join_with, cut_last, or_here, onto_head,
}
use p_drive.Base.Strings.Equality.{text_eq_refl}

pub has_prefix-append : (p r : Text) → has_prefix (p ++ r) p ≡ true
unfolding has_prefix
has_prefix-append [] r = refl
has_prefix-append (c ∷ p) r = ground (arith, has_prefix-append p r)

pub has_suffix_refl : (s : Text) → has_suffix s s ≡ true
unfolding has_suffix
has_suffix_refl [] = refl
has_suffix_refl (c ∷ s) = ground (arith, text_eq_refl (c ∷ s))

pub has_suffix-append : (r s : Text) → has_suffix (r ++ s) s ≡ true
unfolding has_suffix
has_suffix-append [] s = has_suffix_refl s
has_suffix-append (c ∷ r) s = ground (arith, has_suffix-append r s)

pub has_byte-append : (c : ℕ) (s t : Text) → has_byte c (s ++ t) ≡ (has_byte c s || has_byte c t)
unfolding has_byte
has_byte-append c [] t = refl
has_byte-append c (x ∷ s) t = ground (arith, has_byte-append c s t)

-- The parts of a split, joined again, are the text.
join_with-onto_head :
    (c x : ℕ) (ps : List Text) → ps ≢ [] → join_with c (onto_head x ps) ≡ x ∷ join_with c ps
unfolding join_with
join_with-onto_head c x [] h = absurd (h refl)
join_with-onto_head c x (p ∷ []) h = refl
join_with-onto_head c x (p ∷ q ∷ ps) h = refl

join_with-nil : (c : ℕ) (ps : List Text) → ps ≢ [] → join_with c ([] ∷ ps) ≡ c ∷ join_with c ps
unfolding join_with
join_with-nil c [] h = absurd (h refl)
join_with-nil c (p ∷ ps) h = refl

pub split_on-ne-nil : (c : ℕ) (s : Text) → split_on c s ≢ []
unfolding split_on
split_on-ne-nil c [] h = cc
split_on-ne-nil c (x ∷ s) h = go (x == c) (split_on c s) h
  where
    go : (b : Bool) (ps : List Text) → (if b then [] ∷ ps else onto_head x ps) ≡ [] → ⊥
    go true ps e = cc
    go false [] e = cc
    go false (p ∷ ps) e = cc

pub join_with-split_on : (c : ℕ) (s : Text) → join_with c (split_on c s) ≡ s
unfolding split_on join_with
join_with-split_on c [] = refl
join_with-split_on c (x ∷ s) = ground (
  arith,
  join_with-split_on c s,
  split_on-ne-nil c s,
  join_with-nil c (split_on c s),
  join_with-onto_head c x (split_on c s),
)

-- No part of a split holds the byte that it was split at.
pub split_on-free : (c : ℕ) (s : Text) → All (λ p. has_byte c p ≡ false) (split_on c s)
unfolding split_on has_byte
split_on-free c [] = (refl, tt)
split_on-free c (x ∷ s) = go (split_on c s) (Bool-cases (x == c)) (split_on-free c s)
  where
    go :
        (ps : List Text)
        → ((x == c) ≡ true) ⊎ ((x == c) ≡ false)
        → All (λ p. has_byte c p ≡ false) ps
        → All (λ p. has_byte c p ≡ false) (if x == c then [] ∷ ps else onto_head x ps)
    go ps (inl e) h = rw e (refl, h)
    go [] (inr e) h = rw e (rw e refl, tt)
    go (p ∷ ps) (inr e) (hp, h) = rw e (rw e hp, h)

-- A cut rebuilds the text, and nothing behind it holds the byte.
pub cut_last-none : (c : ℕ) (s : Text) → has_byte c s ≡ false → cut_last c s ≡ none
unfolding cut_last has_byte
cut_last-none c [] h = refl
cut_last-none c (x ∷ s) h = ground (arith, cut_last-none c s)

pub cut_last-append :
    (c : ℕ) (a b : Text) → has_byte c b ≡ false → cut_last c (a ++ (c ∷ b)) ≡ some (a, b)
unfolding cut_last
cut_last-append c [] b h = rw (cut_last-none c b h, or_here) (ground arith)
cut_last-append c (x ∷ a) b h = rw (cut_last-append c a b h)

pub cut_last-free : (c : ℕ) (s : Text) → cut_last c s ≡ none → has_byte c s ≡ false
unfolding cut_last has_byte
cut_last-free c [] h = refl
cut_last-free c (x ∷ s) h = ground (arith, cut_last-free c s)

cut_last-cons :
    (c x : ℕ) (s a b : Text) (o : Option (Text × Text))
    → (o ≡ none → has_byte c s ≡ false)
    → ((a' b' : Text) → o ≡ some (a', b') → (s ≡ a' ++ (c ∷ b')) × (has_byte c b' ≡ false))
    → or_here c x s o ≡ some (a, b)
    → (x ∷ s ≡ a ++ (c ∷ b)) × (has_byte c b ≡ false)
cut_last-cons c x s a b none free ih h = ground (arith, free refl)
cut_last-cons c x s a b (some (a', b')) free ih h = ground (arith, ih a' b' refl)

pub cut_last_sound :
    (c : ℕ) (s a b : Text)
    → cut_last c s ≡ some (a, b)
    → (s ≡ a ++ (c ∷ b)) × (has_byte c b ≡ false)
unfolding cut_last
cut_last_sound c [] a b h = cc
cut_last_sound c (x ∷ s) a b h =
    cut_last-cons c x s a b (cut_last c s) (cut_last-free c s) (cut_last_sound c s) h

-- Splitting a join gives the parts back, if none holds the byte.
pub split_on-free_eq : (c : ℕ) (s : Text) → has_byte c s ≡ false → split_on c s ≡ s ∷ []
unfolding split_on has_byte
split_on-free_eq c [] h = refl
split_on-free_eq c (x ∷ s) h = ground (arith, split_on-free_eq c s)

split_on-cons :
    (c : ℕ) (s t : Text) → has_byte c s ≡ false → split_on c (s ++ (c ∷ t)) ≡ s ∷ split_on c t
unfolding split_on has_byte
split_on-cons c [] t h = ground arith
split_on-cons c (x ∷ s) t h = ground (arith, split_on-cons c s t)

pub split_on-join_with :
    (c : ℕ) (parts : List Text)
    → parts ≢ []
    → All (λ p. has_byte c p ≡ false) parts
    → split_on c (join_with c parts) ≡ parts
unfolding join_with
split_on-join_with c [] h a = absurd (h refl)
split_on-join_with c (p ∷ []) h a = split_on-free_eq c p a.0
split_on-join_with c (p ∷ q ∷ parts) h a =
    split_on-cons c p (join_with c (q ∷ parts)) a.0
    ∙ ap (λ r. p ∷ r) (split_on-join_with c (q ∷ parts) (λ e. cc) a.1)
