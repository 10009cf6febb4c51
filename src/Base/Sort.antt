-- ===== src/Base/Sort.antt =====
-- `sort.Slice`: insertion sort by a strict order. Where elements tie, Go leaves their order open,
-- and this is one of the orders that it allows.
use mathlib.Core.Bool.{Bool}
use mathlib.Core.List.{List, [], ◌∷◌}
use p_drive.Base.Tests.{if◌then◌else◌, if_elim}
use p_drive.Base.Lists.{All}

module _ {ℓ} {A : Type ℓ} (less : A → A → Bool) where
  unfoldable pub insert_sorted : A → List A → List A
  insert_sorted a [] = a ∷ []
  insert_sorted a (b ∷ ys) = if less b a then b ∷ insert_sorted a ys else a ∷ b ∷ ys

  unfoldable pub sort : List A → List A
  unfolding insert_sorted
  sort [] = []
  sort (a ∷ xs) = insert_sorted a (sort xs)

module _ {ℓ κ} {A : Type ℓ} (less : A → A → Bool) (P : A → Type κ) where
  insert_sorted-All : (a : A) (ys : List A) → P a → All P ys → All P (insert_sorted less a ys)
  unfolding insert_sorted
  insert_sorted-All a [] h k = (h, tt)
  insert_sorted-All a (b ∷ ys) h k =
      if_elim (All P) (less b a) _ _ (λ _. (k.0, insert_sorted-All a ys h k.1)) (λ _. (h, k))

  -- Sorting keeps what holds of all elements.
  pub sort-All : (xs : List A) → All P xs → All P (sort less xs)
  unfolding sort
  sort-All [] h = tt
  sort-All (a ∷ xs) h = insert_sorted-All a (sort less xs) h.0 (sort-All xs h.1)
