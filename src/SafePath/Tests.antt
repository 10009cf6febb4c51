-- ===== src/SafePath/Tests.antt =====
-- Runs of the validators, and the theorems at concrete names.
use p_drive.Base.{Text, codes, List, [], ◌∷◌, ◌≡◌, refl, text_eq, has_prefix, split_on, slash, All}
use p_drive.SafePath.{
  ok, err, in_path, reserved_name, absolute_path, sanitize_component, sanitize_path,
}
use p_drive.SafePath.Laws.{IsSafe, sanitize_path_sound, descend, sanitize_path-descend}

abbrev photo : Text
photo = codes "a/b.c"

abbrev photo_parts : List Text
photo_parts = codes "a" ∷ codes "b.c" ∷ []

photo_accepted : sanitize_path photo ≡ ok photo_parts
unfolding sanitize_path sanitize_component has_prefix split_on
photo_accepted = refl

escape_refused :
    sanitize_path (codes "a/../b") ≡ err (in_path (codes "a/../b") (reserved_name (codes "..")))
unfolding sanitize_path sanitize_component has_prefix split_on
escape_refused = refl

absolute_refused : sanitize_path (codes "/etc") ≡ err (absolute_path (codes "/etc"))
unfolding sanitize_path has_prefix
absolute_refused = refl

photo-IsSafe : All IsSafe photo_parts
photo-IsSafe = (sanitize_path_sound photo photo_parts photo_accepted).2

sanitize_path-descend_example :
    descend (codes "root" ∷ []) (split_on slash photo) ≡ codes "b.c" ∷ codes "a" ∷ codes "root" ∷ []
unfolding text_eq
sanitize_path-descend_example =
    sanitize_path-descend photo photo_parts (codes "root" ∷ []) photo_accepted
