-- ===== src/SafePath.antt =====
-- internal/backup/safepath.go: names that the server chose, validated before they become local paths.
pub mod Laws
mod Tests
use p_drive.Base.{
  ℕ, Text, codes, List, [], ◌∷◌, ◌||◌, text_eq, has_byte, has_prefix, split_on, slash, length, ltb,
  if◌then◌else◌,
}

-- The errors of both functions. `in_path` wraps the error of a component.
pub data SanitizeError : Type 0 where
  empty_name : SanitizeError
  reserved_name : Text → SanitizeError
  nul_byte : SanitizeError
  path_separator : Text → SanitizeError
  too_long : ℕ → SanitizeError
  empty_path : SanitizeError
  absolute_path : Text → SanitizeError
  in_path : Text → SanitizeError → SanitizeError

pub data Checked (A : Type 0) : Type 0 where
  ok : A → Checked A
  err : SanitizeError → Checked A

-- `maxComponent`
abbrev pub max_component : ℕ
max_component = 255

-- `SanitizeComponent`
unfoldable pub sanitize_component : Text → Checked Text
unfolding text_eq has_byte
sanitize_component [] = err empty_name
sanitize_component (c ∷ name) =
    if text_eq (c ∷ name) (codes ".") || text_eq (c ∷ name) (codes "..")
    then err (reserved_name (c ∷ name))
    else if has_byte 0 (c ∷ name)
    then err nul_byte
    else if has_byte slash (c ∷ name)
    then err (path_separator (c ∷ name))
    else if ltb max_component (length (c ∷ name))
    then err (too_long (length (c ∷ name)))
    else ok (c ∷ name)

abbrev prepend : Text → Checked Text → Checked (List Text) → Checked (List Text)
prepend p (err e) rest = err (in_path p e)
prepend p (ok part) (err e) = err e
prepend p (ok part) (ok parts) = ok (part ∷ parts)

-- The loop of `SanitizePath` over the parts that are left.
sanitize_parts : Text → List Text → Checked (List Text)
sanitize_parts p [] = ok []
sanitize_parts p (part ∷ parts) = prepend p (sanitize_component part) (sanitize_parts p parts)

-- `SanitizePath`
unfoldable pub sanitize_path : Text → Checked (List Text)
unfolding sanitize_parts
sanitize_path [] = err empty_path
sanitize_path (c ∷ p) =
    if has_prefix (c ∷ p) (codes "/")
    then err (absolute_path (c ∷ p))
    else sanitize_parts (c ∷ p) (split_on slash (c ∷ p))
