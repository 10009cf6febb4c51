-- ===== src/Daemon/Listing/Laws.antt =====
-- The daemon's side of the gate: delays, budgets, and the paths below the root.
use p_drive.Base.{
  any, length, ◌==◌, Bool-cases, as_path, ℕ, ◌*◌, ◌≤◌, ◌<◌, Text, codes, List, [], ◌∷◌, ◌++◌, Bool,
  true, false, none, some, text_eq, text_eq_iff, has_prefix, path_parts, write_parts, rel_path,
  rel_parts, IsNamed, path_parts-write_parts, rel_parts-append, append-longer, if◌then◌else◌, All,
  All-append, ◌≡◌, ◌≢◌, inl, inr, refl, sym, ap, ◌∙◌, subst, arith,
}
use p_drive.State.Rows.{ℤ, pos, negsuc, second}
use p_drive.Config.{Config, validate}
use p_drive.Config.Laws.{IsBetween, validate-IsSafeConfig}
use p_drive.Gate.{granted, effective}
use p_drive.Gate.Hold.{granted-exact}
use p_drive.Daemon.Listing.{next_backoff, delays, relative_to, refresh_budget}

-- One, two, four, eight, sixteen or thirty-two seconds.
abbrev pub IsDelay : ℕ → Type 0
IsDelay d = any (λ k. d == k * second) (1 ∷ 2 ∷ 4 ∷ 8 ∷ 16 ∷ 32 ∷ []) ≡ true

next_backoff-IsDelay : (d : ℕ) → IsDelay d → IsDelay (next_backoff d)
next_backoff-IsDelay d h = ground arith

-- The daemon waits one to thirty-two seconds, doubled from one to the next, before it looks for the
-- gate again, however many sessions failed or ended.
pub delays-IsDelay :
    (backoff : ℕ) (sessions : List Bool) → IsDelay backoff → All IsDelay (delays backoff sessions)
unfolding delays
delays-IsDelay backoff [] h = tt
delays-IsDelay backoff (true ∷ sessions) h =
    (refl, delays-IsDelay (next_backoff second) sessions refl)
delays-IsDelay backoff (false ∷ sessions) h =
    (h, delays-IsDelay (next_backoff backoff) sessions (next_backoff-IsDelay backoff h))

abbrev pub whole_ms : ℤ → ℕ
whole_ms (pos m) = m
whole_ms (negsuc m) = 0

-- The hold that validated settings ask for, in milliseconds. The gate is told it when the daemon
-- registers, while the budget is of the settings as they are now.
abbrev pub hold_ms : Config → ℕ
hold_ms c = whole_ms (validate c).freshness.max_block_ms

budget-less :
    (n : ℕ) (registered now : ℤ)
    → IsBetween 1 3000 registered
    → IsBetween 1 3000 now
    → whole_ms now ≤ whole_ms registered
    → refresh_budget now < effective n (granted n registered)
budget-less n registered now b c h =
    let (m, e, g, low, high) = granted-exact n registered b in
    let (k, f, g', low', high') = granted-exact n now c in
    let below : k ≤ m =
      subst (λ x. whole_ms x ≤ m) f (subst (λ x. whole_ms now ≤ whole_ms x) e h) in
    subst (λ x. refresh_budget x < effective n (granted n registered)) (sym f)
      (subst (λ x. refresh_budget (pos k) < effective n x) (sym g) (ground arith))

-- A refresh for a held listing is given up before the gate releases the listing, whatever
-- fallback the gate was started with, as long as no reload has raised the hold over the registered
-- one.
pub refresh_budget-granted :
    (n : ℕ) (registered now : Config)
    → hold_ms now ≤ hold_ms registered
    → refresh_budget (validate now).freshness.max_block_ms
      < effective n (granted n (validate registered).freshness.max_block_ms)
refresh_budget-granted n registered now h =
    budget-less n (validate registered).freshness.max_block_ms (validate now).freshness.max_block_ms
      (validate-IsSafeConfig registered).4 (validate-IsSafeConfig now).4 h

rel_path-below :
    (root rest : List Text)
    → root ≢ []
    → rest ≢ []
    → All IsNamed root
    → All IsNamed rest
    → rel_path (write_parts true root) (write_parts true (root ++ rest))
      ≡ some (write_parts false rest)
unfolding rel_path has_prefix
rel_path-below root rest n m r q = ap2 (path_parts-write_parts root n r) (
    path_parts-write_parts (root ++ rest) (λ e. longer root n e) (All-append IsNamed root rest r q))
  where
    longer : (root : List Text) → root ≢ [] → root ++ rest ≡ [] → ⊥
    longer [] n e = n refl
    longer (x ∷ root) n e = ground (arith, ap length e)

    ap2 :
        {a b : List Text}
        → a ≡ root
        → b ≡ root ++ rest
        → as_path (rel_parts a b) ≡ some (write_parts false rest)
    ap2 {b = b} e f =
        subst (λ a. as_path (rel_parts a b) ≡ some (write_parts false rest)) (sym e)
          (subst (λ b. as_path (rel_parts root b) ≡ some (write_parts false rest)) (sym f)
            (ap as_path (rel_parts-append root rest)))

below-root :
    (root rest : List Text)
    → root ≢ []
    → rest ≢ []
    → All IsNamed root
    → All IsNamed rest
    → text_eq (write_parts true (root ++ rest)) (write_parts true root) ≡ false
below-root root rest n m r q =
    elim (Bool-cases (text_eq (write_parts true (root ++ rest)) (write_parts true root)))
      as (λ _. text_eq (write_parts true (root ++ rest)) (write_parts true root) ≡ false) [
        | inr f ↦ f
        | inl e ↦ absurd (
            append-longer root rest m (
              sym (
                path_parts-write_parts (root ++ rest) (nonempty root n)
                  (All-append IsNamed root rest r q))
              ∙ (ap path_parts ((text_eq_iff _ _).0 e) ∙ path_parts-write_parts root n r)))
      ]
  where
    nonempty : (root : List Text) → root ≢ [] → root ++ rest ≢ []
    nonempty [] n e = n refl
    nonempty (x ∷ root) n e = ground (arith, ap length e)

-- A path below the root, of elements that name something, is translated to the path that the
-- database uses, but where that path begins with two dots: there it is taken to be outside.
pub relative_to-below :
    (root rest : List Text)
    → root ≢ []
    → rest ≢ []
    → All IsNamed root
    → All IsNamed rest
    → relative_to (write_parts true root) (write_parts true (root ++ rest)) ≡ (
        if has_prefix (write_parts false rest) (codes "..")
        then none
        else some (write_parts false rest))
unfolding relative_to
relative_to-below root rest n m r q =
    ground (arith, below-root root rest n m r q, rel_path-below root rest n m r q)
