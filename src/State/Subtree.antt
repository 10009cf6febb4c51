-- ===== src/State/Subtree.antt =====
-- `DeleteSubtree` and `escapeLike`. SQLite's operator LIKE is a parameter, with what its manual
-- says of the patterns that the statement uses.
use p_drive.Base.{
  ℕ, Text, codes, List, [], ◌∷◌, ◌++◌, Bool, true, false, not, ◌&&◌, ◌||◌, none, ◌≡◌, ◌≢◌, refl,
  arith, equal_fold, lower, text_eq, keep, ◌==◌, slash, if◌then◌else◌,
}
use p_drive.State.Rows.{Row}
use p_drive.State.Nodes.{IsTable, get_node, keep-IsTable, find_row-keep_path}

abbrev backslash : ℕ
backslash = 92

abbrev percent : ℕ
percent = b'%'

abbrev underscore : ℕ
underscore = b'_'

abbrev is_wild : ℕ → Bool
is_wild c = c == percent || c == underscore || c == backslash

-- `escapeLike`, on the code points of a text
unfoldable pub escape_like : Text → Text
escape_like [] = []
escape_like (c ∷ s) = if is_wild c then backslash ∷ c ∷ escape_like s else c ∷ escape_like s

-- `x LIKE y ESCAPE '\'` by SQLite's manual: an escaped character stands for itself, a last `%` for
-- any text, and other characters for themselves, upper and lower case of ASCII letters alike.
pub record IsLike (like : Text → Text → Bool) : Type 0 where
  pub at_end : (c : ℕ) (p : Text) → c ≢ percent → like (c ∷ p) [] ≡ false
  pub any_rest : (t : Text) → like (percent ∷ []) t ≡ true
  pub escaped :
      (c x : ℕ) (p t : Text) → like (backslash ∷ c ∷ p) (x ∷ t) ≡ (lower c == lower x && like p t)
  pub literal :
      (c x : ℕ) (p t : Text)
      → is_wild c ≡ false
      → like (c ∷ p) (x ∷ t) ≡ (lower c == lower x && like p t)

-- The start of a text, upper and lower case alike.
abbrev pub has_prefix_fold : Text → Text → Bool
has_prefix_fold t [] = true
has_prefix_fold [] (c ∷ s) = false
has_prefix_fold (x ∷ t) (c ∷ s) = lower c == lower x && has_prefix_fold t s

has_prefix_fold-append :
    (other path rest : Text)
    → equal_fold other path ≡ true
    → has_prefix_fold (other ++ (slash ∷ rest)) (path ++ codes "/") ≡ true
unfolding equal_fold
has_prefix_fold-append [] [] rest e = refl
has_prefix_fold-append [] (c ∷ path) rest e = cc
has_prefix_fold-append (x ∷ other) [] rest e = cc
has_prefix_fold-append (x ∷ other) (c ∷ path) rest e =
    ground (arith, has_prefix_fold-append other path rest)

module _ (like : Text → Text → Bool) where
  abbrev in_subtree : Text → Row → Bool
  in_subtree path r = text_eq r.path path || like (escape_like path ++ codes "/%") r.path

  -- `DeleteSubtree`
  unfoldable pub delete_subtree : Text → List Row → List Row
  unfolding escape_like
  delete_subtree path rows = keep (λ r. not (in_subtree path r)) rows

  module _ (L : IsLike like) where
    like_slash : (t : Text) → like (codes "/%") t ≡ has_prefix_fold t (codes "/")
    like_slash [] = L.at_end slash (percent ∷ []) (λ e. omega (arith, e))
    like_slash (x ∷ t) = ground (arith, L.literal slash x (percent ∷ []) t refl, L.any_rest t)

    -- The escaped path followed by `/%` matches what starts with the path and a slash, if upper and
    -- lower case count as the same; the wildcards in the path have no effect.
    pub like-escape_like :
        (path t : Text)
        → like (escape_like path ++ codes "/%") t ≡ has_prefix_fold t (path ++ codes "/")
    unfolding escape_like
    like-escape_like [] t = like_slash t
    like-escape_like (c ∷ path) [] = ground (
      arith,
      L.at_end backslash (c ∷ (escape_like path ++ codes "/%")),
      L.at_end c (escape_like path ++ codes "/%"),
    )
    like-escape_like (c ∷ path) (x ∷ t) = ground (
      arith,
      like-escape_like path t,
      L.escaped c x (escape_like path ++ codes "/%") t,
      L.literal c x (escape_like path ++ codes "/%") t,
    )

    -- Deleting a subtree removes exactly the path itself and what starts with the path and a slash,
    -- upper and lower case alike in that start, and keeps the primary key.
    pub get_node-delete_subtree :
        (path other : Text) (rows : List Row)
        → IsTable rows
        → (get_node other (delete_subtree path rows) ≡ (
            if text_eq other path || has_prefix_fold other (path ++ codes "/")
            then none
            else get_node other rows))
          × IsTable (delete_subtree path rows)
    unfolding get_node delete_subtree
    get_node-delete_subtree path other rows t = (
      ground (
        arith,
        like-escape_like path other,
        find_row-keep_path (λ q. not (text_eq q path || like (escape_like path ++ codes "/%") q))
            other rows,
      ),
      keep-IsTable _ rows t,
    )
