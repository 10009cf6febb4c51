-- ===== src/Base/PathLaws.antt =====
-- Writing the elements of an absolute path, and reading them back.
use mathlib.Core.Path.{◌≡◌, refl, ap, ◌∙◌}
use mathlib.Core.Logic.{◌≢◌}
use mathlib.Core.Bool.{true, false}
use mathlib.Core.Option.{some}
use mathlib.Core.List.{List, [], ◌∷◌, ◌++◌}
use native.Mathlib.Omega.{arith}
use p_drive.Base.Lists.{All, All-map, length, length-append}
use p_drive.Base.Strings.{
  Text, slash, text_eq_refl, has_byte, has_prefix, split_on, split_on-join_with,
}
use p_drive.Base.FilePaths.{clean_parts, backwards, path_parts, write_parts, rel_parts, IsNamed}

clean_parts-named :
    (kept parts : List Text)
    → All IsNamed parts
    → clean_parts true kept parts ≡ backwards parts kept
unfolding clean_parts backwards
clean_parts-named kept [] h = refl
clean_parts-named kept (part ∷ parts) ((e, h, a, b), hs) =
    ap (λ k. clean_parts true k parts) (ground (arith, e, h, a))
    ∙ clean_parts-named (part ∷ kept) parts hs

backwards-twice :
    (parts done rest : List Text)
    → backwards (backwards parts done) rest ≡ backwards done (parts ++ rest)
unfolding backwards
backwards-twice [] done rest = refl
backwards-twice (part ∷ parts) done rest = backwards-twice parts (part ∷ done) rest

append-nothing : (parts : List Text) → parts ++ [] ≡ parts
append-nothing [] = refl
append-nothing (part ∷ parts) = ap (λ ps. part ∷ ps) (append-nothing parts)

pub path_parts-write_parts :
    (parts : List Text)
    → parts ≢ []
    → All IsNamed parts
    → path_parts (write_parts true parts) ≡ parts
unfolding split_on clean_parts backwards has_prefix
path_parts-write_parts parts n h =
    ap (λ ps. backwards (clean_parts true [] ps) [])
      (split_on-join_with slash parts n
        (All-map IsNamed (λ p. has_byte slash p ≡ false) parts (λ p k. k.3) h))
    ∙ (ap (λ ps. backwards ps []) (clean_parts-named [] parts h)
        ∙ (backwards-twice parts [] [] ∙ append-nothing parts))

pub rel_parts-append : (base rest : List Text) → rel_parts base (base ++ rest) ≡ some rest
unfolding rel_parts
rel_parts-append [] rest = refl
rel_parts-append (b ∷ base) rest = ground (arith, rel_parts-append base rest, text_eq_refl b)

pub append-longer : (base rest : List Text) → rest ≢ [] → base ++ rest ≢ base
append-longer base [] n e = n refl
append-longer base (r ∷ rest) n e = omega (arith, ap length e, length-append base (r ∷ rest))
