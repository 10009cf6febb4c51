-- ===== src/Base/Strings/Equality.antt =====
-- Equality of texts, with and without regard to case.
use mathlib.Core.Path.{◌≡◌, refl}
use mathlib.Core.Logic.{◌↔◌}
use mathlib.Core.Bool.{true}
use mathlib.Core.List.{[], ◌∷◌}
use native.Mathlib.Omega.{arith}
use p_drive.Base.Strings.Defs.{Text, text_eq, equal_fold}

pub text_eq_refl : (s : Text) → text_eq s s ≡ true
unfolding text_eq
text_eq_refl [] = refl
text_eq_refl (c ∷ s) = ground (arith, text_eq_refl s)

pub text_eq→≡ : (s t : Text) → text_eq s t ≡ true → s ≡ t
unfolding text_eq
text_eq→≡ [] [] h = refl
text_eq→≡ [] (b ∷ ys) h = cc
text_eq→≡ (a ∷ xs) [] h = cc
text_eq→≡ (a ∷ xs) (b ∷ ys) h = ground (arith, text_eq→≡ xs ys)

pub text_eq_iff : (s t : Text) → (text_eq s t ≡ true) ↔ (s ≡ t)
text_eq_iff s t = (text_eq→≡ s t, λ e. rw e (text_eq_refl t))

pub equal_fold_refl : (s : Text) → equal_fold s s ≡ true
unfolding equal_fold
equal_fold_refl [] = refl
equal_fold_refl (c ∷ s) = ground (arith, equal_fold_refl s)

pub equal_fold_sym : (s t : Text) → equal_fold s t ≡ equal_fold t s
unfolding equal_fold
equal_fold_sym [] [] = refl
equal_fold_sym [] (b ∷ ys) = refl
equal_fold_sym (a ∷ xs) [] = refl
equal_fold_sym (a ∷ xs) (b ∷ ys) = ground (arith, equal_fold_sym xs ys)

pub equal_fold_trans :
    (s t u : Text) → equal_fold s t ≡ true → equal_fold t u ≡ true → equal_fold s u ≡ true
unfolding equal_fold
equal_fold_trans [] [] u p q = q
equal_fold_trans [] (b ∷ ys) u p q = cc
equal_fold_trans (a ∷ xs) [] u p q = cc
equal_fold_trans (a ∷ xs) (b ∷ ys) [] p q = cc
equal_fold_trans (a ∷ xs) (b ∷ ys) (c ∷ zs) p q = ground (arith, equal_fold_trans xs ys zs)
