-- ===== src/Paths/Conflicts.antt =====
-- Where the kept copy of a conflict goes.
use p_drive.Base.{
  ◌+◌, Text, codes, ◌<◌, [], ◌∷◌, ◌++◌, Option, none, some, false, ◌≡◌, ◌≢◌, refl, sym, ap, ◌+◌,
  ◌∙◌, arith, has_byte, has_byte-append, cut_last, cut_last-append, cut_last_sound, slash, dot,
  length, length-append, append_assoc, append-nil,
}
use p_drive.Paths.{dir_name, stem_ext, host_or_unknown, marked, conflict_name}

-- The new last component.
abbrev kept_name : Text → Text → Text → Text
kept_name name stamp host =
    let (stem, ext) = stem_ext (cut_last dot name) name in stem ++ (marked stamp host ++ ext)

stem_ext-append :
    (name : Text) (o : Option (Text × Text))
    → ((a b : Text) → o ≡ some (a, b) → name ≡ a ++ (dot ∷ b))
    → (stem_ext o name).0 ++ (stem_ext o name).1 ≡ name
stem_ext-append name none h = append-nil name
stem_ext-append name (some ([], ext)) h = append-nil name
stem_ext-append name (some (c ∷ stem, ext)) h = sym (h (c ∷ stem) ext refl)

stem_ext-cut_last :
    (name : Text)
    → (stem_ext (cut_last dot name) name).0 ++ (stem_ext (cut_last dot name) name).1 ≡ name
stem_ext-cut_last name =
    stem_ext-append name (cut_last dot name) (λ a b e. (cut_last_sound dot name a b e).0)

length-kept_name :
    (name stamp host : Text)
    → length (kept_name name stamp host) ≡ length name + length (marked stamp host)
length-kept_name name stamp host =
    let (stem, ext) = stem_ext (cut_last dot name) name in
    omega (
      arith,
      length-append stem (marked stamp host ++ ext),
      length-append (marked stamp host) ext,
      length-append stem ext,
      ap length (stem_ext-cut_last name),
    )

marked-has_byte :
    (stamp host : Text)
    → has_byte slash stamp ≡ false
    → has_byte slash host ≡ false
    → has_byte slash (marked stamp host) ≡ false
unfolding marked has_byte
marked-has_byte stamp host s h = ground (
  arith,
  has_byte-append slash stamp (codes " " ++ (host_or_unknown host ++ codes ")")),
  has_byte-append slash (host_or_unknown host) (codes ")"),
)

pub length-marked : (stamp host : Text) → 12 < length (marked stamp host)
unfolding marked
length-marked stamp host = omega (
  arith,
  length-append stamp (codes " " ++ (host_or_unknown host ++ codes ")")),
  length-append (host_or_unknown host) (codes ")"),
)

has_byte-kept_name :
    (name stamp host : Text)
    → has_byte slash name ≡ false
    → has_byte slash stamp ≡ false
    → has_byte slash host ≡ false
    → has_byte slash (kept_name name stamp host) ≡ false
has_byte-kept_name name stamp host n s h =
    let (stem, ext) = stem_ext (cut_last dot name) name in
    ground (
      arith,
      marked-has_byte stamp host s h,
      has_byte-append slash stem (marked stamp host ++ ext),
      has_byte-append slash (marked stamp host) ext,
      has_byte-append slash stem ext,
      ap (has_byte slash) (stem_ext-cut_last name),
    )

length-kept_path :
    (o : Option (Text × Text)) (path : Text)
    → ((a b : Text) → o ≡ some (a, b) → path ≡ a ++ (slash ∷ b))
    → length ((dir_name o path).0) + length ((dir_name o path).1) ≡ length path
length-kept_path none path h = omega arith
length-kept_path (some (dir, name)) path h = omega (
  arith,
  length-append dir (codes "/"),
  length-append dir (slash ∷ name),
  ap length (h dir name refl),
)

-- The name of a copy is longer than the path by the mark.
pub length-conflict_name :
    (path stamp host : Text)
    → length (conflict_name path stamp host) ≡ length path + length (marked stamp host)
unfolding conflict_name
length-conflict_name path stamp host =
    let (dir, name) = dir_name (cut_last slash path) path in
    omega (
      arith,
      length-append dir (kept_name name stamp host),
      length-kept_name name stamp host,
      length-kept_path (cut_last slash path) path (λ a b e. (cut_last_sound slash path a b e).0),
    )

-- The copy of a conflict stays in the folder of the original, under another name, if neither the
-- time stamp nor the host's name holds a slash.
pub conflict_name-same_dir :
    (path dir name stamp host : Text)
    → cut_last slash path ≡ some (dir, name)
    → has_byte slash stamp ≡ false
    → has_byte slash host ≡ false
    → (kept : Text) × (cut_last slash (conflict_name path stamp host) ≡ some (dir, kept))
      × (kept ≢ name)
unfolding conflict_name
conflict_name-same_dir path dir name stamp host e s h = (
  kept_name name stamp host,
  rw e (
      ap (cut_last slash) (append_assoc dir (codes "/") _)
      ∙ cut_last-append slash dir _
          (has_byte-kept_name name stamp host (cut_last_sound slash path dir name e).1 s h)),
  λ same. omega (arith, ap length same, length-kept_name name stamp host, length-marked stamp host),
)

stem_ext-stem :
    (stem ext name : Text) → stem ≢ [] → stem_ext (some (stem, ext)) name ≡ (stem, dot ∷ ext)
stem_ext-stem [] ext name n = absurd (n refl)
stem_ext-stem (c ∷ stem) ext name n = refl

free-dotted : (ext : Text) → has_byte slash ext ≡ false → has_byte slash (dot ∷ ext) ≡ false
unfolding has_byte
free-dotted ext e = ground arith

-- The extension stays at the end, and the mark goes in front of it: for a name with a stem and an
-- extension in a folder, whatever the stem, the extension and the folder are.
pub conflict_name-keeps_ext :
    (dir stem ext stamp host : Text)
    → stem ≢ []
    → has_byte slash stem ≡ false
    → has_byte slash ext ≡ false
    → has_byte dot ext ≡ false
    → conflict_name (dir ++ (slash ∷ (stem ++ (dot ∷ ext)))) stamp host
      ≡ dir ++ (slash ∷ (stem ++ (marked stamp host ++ (dot ∷ ext))))
unfolding conflict_name
conflict_name-keeps_ext dir stem ext stamp host n s e d =
    let name = stem ++ (dot ∷ ext) in
    let free : has_byte slash name ≡ false =
      ground (arith, has_byte-append slash stem (dot ∷ ext), free-dotted ext e) in
    rw
      (
        cut_last-append slash dir name free,
        cut_last-append dot stem ext d,
        stem_ext-stem stem ext name n,
      )
      (append_assoc dir (codes "/") (stem ++ (marked stamp host ++ (dot ∷ ext))))
