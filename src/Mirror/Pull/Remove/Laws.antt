-- ===== src/Mirror/Pull/Remove/Laws.antt =====
-- What a removal leaves.
use p_drive.Base.{
  ◌<◌, ◌≤◌, ◌∙◌, Text, List, [], ◌∷◌, ◌++◌, Bool, true, false, not, Option, none, some, ◌≡◌, refl,
  arith, ap, text_eq, text_eq_iff, text_eq_refl, length, length-append, has_prefix, slash,
  if◌then◌else◌, if_elim, equal_fold, is_empty,
}
use p_drive.State.Rows.{Node, Row}
use p_drive.State.Nodes.{get_node, get_node-delete_node}
use p_drive.Paths.{stub_suffix}
use p_drive.Reconcile.{Facts, upload, reconcile}
use p_drive.Mirror.Disk.{File, Disk, file_at, is_under}
use p_drive.Mirror.Disk.Laws.{file_at-write_at, file_at-keep, remove_empty_parents-none}
use p_drive.Mirror.World.{Settings, Env, World, world_of, emit}
use p_drive.Mirror.Pull.Remove.{
  trash_path, move_out, trash_local_path, trash_if_there, trash_candidate, delete_local, drop_rows,
}

text_eq-append : (s p q : Text) → text_eq (s ++ p) (s ++ q) ≡ text_eq p q
unfolding text_eq
text_eq-append [] p q = refl
text_eq-append (c ∷ s) p q = ground (arith, text_eq-append s p q)

text_eq-length : (s t : Text) → text_eq s t ≡ true → length s ≡ length t
text_eq-length s t h = ap length ((text_eq_iff s t).0 h)

text_eq-trash_path :
    (stamp p q : Text) → text_eq (trash_path stamp p) (trash_path stamp q) ≡ text_eq p q
unfolding text_eq
text_eq-trash_path stamp p q = ground (arith, text_eq-append stamp (slash ∷ p) (slash ∷ q))

abbrev or_trash : Option File → Option File → Option File
or_trash none old = old
or_trash (some f) old = some f

file_at-move_out :
    (stamp dir q : Text) (disk trash : Disk)
    → file_at (trash_path stamp q) (move_out stamp dir disk trash) ≡ (
        if is_under dir q
        then or_trash (file_at q disk) (file_at (trash_path stamp q) trash)
        else file_at (trash_path stamp q) trash)
unfolding move_out file_at
file_at-move_out stamp dir q [] trash = ground arith
file_at-move_out stamp dir q ((p, f) ∷ disk) trash = ground (
  arith,
  file_at-move_out stamp dir q disk trash,
  file_at-write_at (trash_path stamp p) (trash_path stamp q) f (move_out stamp dir disk trash),
  text_eq-trash_path stamp p q,
  text_eq_iff p q,
)

has_prefix-le : (s p : Text) → has_prefix s p ≡ true → length p ≤ length s
unfolding has_prefix
has_prefix-le s [] h = omega arith
has_prefix-le [] (c ∷ p) h = absurd (cc)
has_prefix-le (x ∷ s) (c ∷ p) h = ground (arith, has_prefix-le s p)

-- Nothing is beneath a longer path.
is_under-longer : (dir path : Text) → length path < length dir → is_under dir path ≡ false
is_under-longer dir path h = ground (
  arith,
  text_eq-length path dir,
  has_prefix-le path (dir ++ (slash ∷ [])),
  length-append dir (slash ∷ []),
)

is_under_self : (path : Text) → is_under path path ≡ true
is_under_self path = ground (arith, text_eq_refl path)

module _ (env : Env) {R : Type 0} (path : Text) (f : File) where
  IsTrashed : World R → Type 0
  IsTrashed w =
      (file_at (trash_path env.trash_stamp path) w.local_trash ≡ some f)
      × (file_at path w.disk ≡ none)

  trash_local_path-IsTrashed :
      (w : World R) → file_at path w.disk ≡ some f → IsTrashed (trash_local_path env path w)
  unfolding trash_local_path IsTrashed
  trash_local_path-IsTrashed w h =
      let u = is_under_self path in
      (
        ground (arith, file_at-move_out env.trash_stamp path path w.disk w.local_trash),
        ground (arith, file_at-keep (λ p. not (is_under path p)) path w.disk),
      )

  -- Trashing a path that is not above this one changes nothing of that.
  trash_if_there-IsTrashed :
      (o : Option File) (other : Text) (w : World R)
      → is_under other path ≡ false
      → IsTrashed w
      → IsTrashed (trash_if_there o env other w)
  unfolding trash_local_path IsTrashed
  trash_if_there-IsTrashed none other w u h = h
  trash_if_there-IsTrashed (some g) other w u h = (
    ground (arith, file_at-move_out env.trash_stamp other path w.disk w.local_trash),
    ground (arith, file_at-keep (λ p. not (is_under other p)) path w.disk),
  )

  trash_both-IsTrashed :
      (w : World R)
      → file_at path w.disk ≡ some f
      → IsTrashed (trash_candidate env (path ++ stub_suffix) (trash_candidate env path w))
  trash_both-IsTrashed w h =
      trash_if_there-IsTrashed _ (path ++ stub_suffix) (trash_candidate env path w)
        (is_under-longer (path ++ stub_suffix) path (omega (arith, length-append path stub_suffix)))
        (rw h (trash_local_path-IsTrashed w h))

rows_after :
    (like : Text → Text → Bool) (n : Node) (rows : List Row)
    → n.is_dir ≡ false
    → get_node n.path (drop_rows like n rows) ≡ none
rows_after like n rows d =
    if_elim (λ r. get_node n.path r ≡ none) n.is_dir _ _ (λ e. absurd (cc (d, e)))
      (λ _. get_node-delete_node n.path n.path rows ∙ rw (text_eq_refl n.path))

-- What is known of a tracked file that is gone remotely, over the hash of the local file.
abbrev pub gone_remotely : Node → Text → Facts
gone_remotely n sum = record {
  base_exists = true;
  base_hash = n.content_hash;
  base_is_dir = n.is_dir;
  local_exists = true;
  local_hash = sum;
  local_is_dir = false;
  remote_exists = false;
  remote_hash = [];
  remote_is_dir = false;
}

gone_remotely-upload :
    (n : Node) (sum : Text)
    → n.is_dir ≡ false
    → is_empty n.content_hash ≡ false
    → is_empty sum ≡ false
    → equal_fold sum n.content_hash ≡ false
    → reconcile (gone_remotely n sum) ≡ upload
unfolding reconcile
gone_remotely-upload n sum d b s e = ground arith

module _ (like : Text → Text → Bool) (settings : Settings) (env : Env) {R : Type 0} where
  -- A file that is removed because it is gone remotely can be recovered: whatever its content, it
  -- is in the trash directory as it was, and neither the folder nor the baseline holds it any more.
  pub delete_local-trashes :
      (n : Node) (f : File) (w : World R)
      → n.is_dir ≡ false
      → file_at n.path w.disk ≡ some f
      → let w' = world_of (delete_local like settings env n w) in
        (file_at (trash_path env.trash_stamp n.path) w'.local_trash ≡ some f)
        × (file_at n.path w'.disk ≡ none)
        × (get_node n.path w'.rows ≡ none)
  unfolding delete_local emit IsTrashed
  delete_local-trashes n f w d h =
      let t = trash_both-IsTrashed env n.path f w h in
      (t.0, remove_empty_parents-none n.path n.path _ t.1, rows_after like n _ d)

  -- A remote deletion is carried out even where the local file was edited since: for such a file
  -- `Reconcile` decides that it is uploaded, and yet it leaves the folder and the baseline.
  pub delete_local-edited :
      (sha1 : Text → Text) (n : Node) (f : File) (w : World R)
      → n.is_dir ≡ false
      → file_at n.path w.disk ≡ some f
      → is_empty n.content_hash ≡ false
      → is_empty (sha1 f.content) ≡ false
      → equal_fold (sha1 f.content) n.content_hash ≡ false
      → let w' = world_of (delete_local like settings env n w) in
        (reconcile (gone_remotely n (sha1 f.content)) ≡ upload)
        × (file_at n.path w'.disk ≡ none)
        × (get_node n.path w'.rows ≡ none)
  delete_local-edited sha1 n f w d h b s e =
      let t = delete_local-trashes n f w d h in
      (gone_remotely-upload n (sha1 f.content) d b s e, t.1, t.2)
