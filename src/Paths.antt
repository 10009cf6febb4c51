-- ===== src/Paths.antt =====
-- The rules about names of internal/mirror: `Ignored` and `excluded` (scan.go), `validPath`
-- (mirror.go) and `ConflictName` (reconcile.go).
pub mod Laws
pub mod Conflicts
mod Tests
use p_drive.Base.{
  ℕ, Text, codes, List, [], ◌∷◌, ◌++◌, Option, none, some, Bool, true, false, not, ◌&&◌, ◌||◌,
  text_eq, has_byte, has_prefix, has_suffix, split_on, cut_last, trim_left, trim_right, slash, dot,
  any, is_empty, if◌then◌else◌,
}

-- `StubSuffix`, `TempSuffix` and `ScratchDir` of local.go
abbrev pub stub_suffix : Text
stub_suffix = codes ".pdrive-stub"

abbrev pub temp_suffix : Text
temp_suffix = codes ".pdrive-part"

abbrev pub scratch_dir : Text
scratch_dir = codes ".pdrive-tmp"

abbrev pub ignored_names : List Text
ignored_names = scratch_dir ∷ codes ".DS_Store" ∷ codes "Thumbs.db" ∷ []

abbrev pub ignored_suffixes : List Text
ignored_suffixes =
    stub_suffix
    ∷ temp_suffix
    ∷ codes ".part"
    ∷ codes ".crdownload"
    ∷ codes ".swp"
    ∷ codes ".swx"
    ∷ codes "~"
    ∷ []

abbrev pub ignored_prefixes : List Text
ignored_prefixes = codes ".goutputstream-" ∷ codes "~$" ∷ codes ".~lock." ∷ []

-- `Ignored`
unfoldable pub ignored : Text → Bool
ignored name =
    any (λ n. text_eq name n) ignored_names
    || any (λ s. has_suffix name s) ignored_suffixes
    || any (λ p. has_prefix name p) ignored_prefixes

-- One round of the loop of `excluded`.
unfoldable pub excludes_path : Text → Text → Bool
excludes_path path ex =
    let ex' = trim_right slash (trim_left slash ex) in
    if is_empty ex' then false else text_eq path ex' || has_prefix path (ex' ++ codes "/")

-- `excluded`, over `cfg.Selective.Exclude`
unfoldable pub excluded : List Text → Text → Bool
unfolding excludes_path
excluded exclude path = any (excludes_path path) exclude

-- The body of the loop of `validPath`: a part that is refused.
unfoldable pub bad_part : Text → Bool
bad_part part =
    is_empty part
    || text_eq part (codes ".")
    || text_eq part (codes "..")
    || has_byte 0 part
    || has_suffix part stub_suffix
    || has_suffix part temp_suffix

-- `validPath`
unfoldable pub valid_path : Text → Bool
unfolding bad_part
valid_path p =
    if is_empty p || has_prefix p (codes "/") then false else not (any bad_part (split_on slash p))

-- `path[:idx+1]` and `path[idx+1:]` at the last slash
abbrev pub dir_name : Option (Text × Text) → Text → Text × Text
dir_name none path = ([], path)
dir_name (some (dir, name)) path = (dir ++ (slash ∷ []), name)

-- The name before its extension, and the extension: `idx > 0`, so a leading dot starts none.
abbrev pub stem_ext : Option (Text × Text) → Text → Text × Text
stem_ext none name = (name, [])
stem_ext (some ([], ext)) name = (name, [])
stem_ext (some (c ∷ stem, ext)) name = (c ∷ stem, dot ∷ ext)

abbrev pub host_or_unknown : Text → Text
host_or_unknown host = if is_empty host then codes "unknown-host" else host

unfoldable pub marked : Text → Text → Text
marked stamp host =
    codes " (conflict " ++ (stamp ++ (codes " " ++ (host_or_unknown host ++ codes ")")))

-- `ConflictName`. `stamp` is `when.Format("2006-01-02 15-04-05")`.
unfoldable pub conflict_name : Text → Text → Text → Text
unfolding marked
conflict_name path stamp host =
    let (dir, name) = dir_name (cut_last slash path) path in
    let (stem, ext) = stem_ext (cut_last dot name) name in
    dir ++ (stem ++ (marked stamp host ++ ext))
