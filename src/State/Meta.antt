-- ===== src/State/Meta.antt =====
-- The table `meta`, and `migrate`.
use p_drive.Base.{
  ℕ, Text, codes, List, [], ◌∷◌, ◌≡◌, refl, arith, ltb, ◌==◌, text_eq, text_eq_iff, if◌then◌else◌,
  ◌<◌, ◌⊎◌, ◌≢◌, ap, ◌∙◌, inl, inr, Bool-cases, ltb→lt, ==_iff, text_eq_refl,
}

abbrev pub Meta : Type 0
Meta = List (Text × Text)

-- `Key…`
abbrev pub key_schema_version : Text
key_schema_version = codes "schema_version"

abbrev pub key_event_cursor : Text
key_event_cursor = codes "event_cursor"

abbrev pub key_volume_id : Text
key_volume_id = codes "volume_id"

abbrev pub key_share_id : Text
key_share_id = codes "share_id"

abbrev pub key_root_link_id : Text
key_root_link_id = codes "root_link_id"

abbrev pub key_last_full_scan : Text
key_last_full_scan = codes "last_full_scan"

-- `GetMeta`: a missing key reads as the empty text.
unfoldable pub get_meta : Text → Meta → Text
get_meta key [] = []
get_meta key ((k, v) ∷ meta) = if text_eq k key then v else get_meta key meta

-- `SetMeta`
unfoldable pub set_meta : Text → Text → Meta → Meta
set_meta key value [] = (key, value) ∷ []
set_meta key value ((k, v) ∷ meta) =
    if text_eq k key then (k, value) ∷ meta else (k, v) ∷ set_meta key value meta

-- A value that was set is read back, and no other key is affected.
pub get_meta-set_meta :
    (key other value : Text) (meta : Meta)
    → get_meta other (set_meta key value meta)
      ≡ (if text_eq key other then value else get_meta other meta)
unfolding get_meta set_meta
get_meta-set_meta key other value [] = refl
get_meta-set_meta key other value ((k, v) ∷ meta) = ground (
  arith,
  get_meta-set_meta key other value meta,
  text_eq_iff k key,
  text_eq_iff k other,
  text_eq_iff key other,
)

-- `SchemaVersion`
abbrev pub schema_version : ℕ
schema_version = 1

pub data Migration : Type 0 where
  newer_schema : ℕ → Migration
  migrated : Meta → Migration

module _ (print : ℕ → Text) (parse : Text → ℕ) where
  abbrev scanned_int : Text → ℕ
  scanned_int [] = 0
  scanned_int (c ∷ v) = parse (c ∷ v)

  -- `GetMetaInt`: `parse` is `fmt.Sscanf(v, "%d", &n)`, 0 where that fails.
  unfoldable pub get_meta_int : Text → Meta → ℕ
  unfolding get_meta
  get_meta_int key meta = scanned_int (get_meta key meta)

  -- `SetMetaInt`: `print` is `fmt.Sprintf("%d", n)`.
  unfoldable pub set_meta_int : Text → ℕ → Meta → Meta
  unfolding set_meta
  set_meta_int key n meta = set_meta key (print n) meta

  -- `migrate`, behind `CREATE TABLE IF NOT EXISTS`
  unfoldable pub migrate : Meta → Migration
  unfolding get_meta_int set_meta_int
  migrate meta =
      let current = get_meta_int key_schema_version meta in
      if ltb schema_version current
      then newer_schema current
      else if current == schema_version
      then migrated meta
      else migrated (set_meta_int key_schema_version schema_version meta)

  scanned_int-print : (n : ℕ) → parse (print n) ≡ n → print n ≢ [] → scanned_int (print n) ≡ n
  scanned_int-print n p e = ground arith

  get_meta_int-set_meta_int :
      (key : Text) (n : ℕ) (meta : Meta)
      → parse (print n) ≡ n
      → print n ≢ []
      → get_meta_int key (set_meta_int key n meta) ≡ n
  unfolding get_meta_int set_meta_int
  get_meta_int-set_meta_int key n meta p e =
      ap scanned_int (get_meta-set_meta key key (print n) meta ∙ rw (text_eq_refl key))
      ∙ scanned_int-print n p e

  migrate-at_version :
      (meta : Meta)
      → get_meta_int key_schema_version meta ≡ schema_version
      → migrate meta ≡ migrated meta
  unfolding migrate
  migrate-at_version meta e = ground arith

  -- A database of a newer schema is refused. Any other one is at this program's version afterwards,
  -- and migrating it once more changes nothing. `print` and `parse` are assumed to be inverse at
  -- that version.
  pub migrate_lem :
      (meta : Meta)
      → parse (print schema_version) ≡ schema_version
      → print schema_version ≢ []
      → ((schema_version < get_meta_int key_schema_version meta)
          × (migrate meta ≡ newer_schema (get_meta_int key_schema_version meta)))
        ⊎ ((after : Meta) × (migrate meta ≡ migrated after)
            × (get_meta_int key_schema_version after ≡ schema_version)
            × (migrate after ≡ migrated after))
  unfolding migrate
  migrate_lem meta p n =
      let current = get_meta_int key_schema_version meta in
      elim (Bool-cases (ltb schema_version current)) [
        | inl newer ↦ inl (ltb→lt _ _ newer, rw newer)
        | inr fits ↦ elim (Bool-cases (current == schema_version)) [
          | inl same ↦ inr (
            meta,
            rw fits (rw same),
            (==_iff _ _).0 same,
            migrate-at_version meta ((==_iff _ _).0 same),
          )
          | inr older ↦
              let after = set_meta_int key_schema_version schema_version meta in
              let now = get_meta_int-set_meta_int key_schema_version schema_version meta p n in
              inr (after, rw fits (rw older), now, migrate-at_version after now)
        ]
      ]
