-- ===== src/Mirror/Push/Sent.antt =====
-- What `push_node` guarantees of a file that it sends.
use p_drive.Base.{
  ◌+◌, ◌<◌, Text, List, [], ◌∷◌, ◌++◌, Bool, true, false, Option, none, some, ◌≡◌, refl, arith, ap,
  ◌∙◌, text_eq_refl, equal_fold_refl,
}
use p_drive.State.Rows.{Node, Row, word, stored}
use p_drive.State.Nodes.{get_node, put_node, get_node-put_node}
use p_drive.Mirror.Disk.{File, Disk, file_at}
use p_drive.Mirror.World.{
  LocalNode, RemoteNode, Settings, Env, Source, World, done, ◌>>◌, emit, event_transfer_start,
  event_transfer_done, event_upload,
}
use p_drive.Mirror.World.Laws.{bind-done}
use p_drive.Mirror.Scan.{hash_if_needed, hash_file}
use p_drive.Mirror.Push.Parents.{name_of, remote_parent_id}
use p_drive.Mirror.Push.{
  push_node, push_hashed, same_content, is_stub, uploaded_row, upload_file, open_and_send,
  record_upload,
}

module _ (sha1 : Text → Text) (stub_text : RemoteNode → Text) (like : Text → Text → Bool)
    (settings : Settings) (env : Env) (S : Source) where
  -- The world after an upload that was answered.
  abbrev pub after_upload : Text → LocalNode → Text → Text → S.State → World S.State → World S.State
  after_upload path n parent link remote w = record w {
    remote = remote;
    rows = put_node env.now (uploaded_row n path link parent env.now) w.rows;
    result = record w.result {
      uploaded = w.result.uploaded + 1;
      uploaded_bytes = w.result.uploaded_bytes + n.size;
    };
    events =
        ((w.events
            ++ (record { kind = event_transfer_start; path = path; size = n.size; up = true } ∷ []))
          ++ (record { kind = event_transfer_done; path = path; size = 0; up = true } ∷ []))
        ++ (record { kind = event_upload; path = path; size = n.size; up = false } ∷ []);
  }

  upload_file-done :
      (path parent link : Text) (n : LocalNode) (f : File) (w : World S.State) (remote : S.State)
      → remote_parent_id env S path w ≡ done parent w
      → file_at path w.disk ≡ some f
      → S.upload parent (name_of path) n.mtime f.content w.remote ≡ (remote, some link)
      → upload_file sha1 stub_text like settings env S path n w
        ≡ done tt (after_upload path n parent link remote w)
  unfolding emit
  upload_file-done path parent link n f w remote h d m =
      bind-done (remote_parent_id env S path w) parent w
        (λ p v. open_and_send sha1 stub_text like settings env S path n p (file_at path v.disk) v) h
      ∙ (ap (λ file. open_and_send sha1 stub_text like settings env S path n parent file w) d
          ∙ ap
              (λ answer.
                (emit event_transfer_done path 0 true
                    >> record_upload sha1 stub_text like settings env S path n parent (answer.1))
                  (record w {
                    remote = answer.0;
                    result = w.result;
                    events =
                        w.events
                        ++ (record {
                          kind = event_transfer_start;
                          path = path;
                          size = n.size;
                          up = true;
                        }
                            ∷ []);
                  }))
              m)

  hash_if_needed-file :
      (n : LocalNode) (f : File) (disk : Disk)
      → n.is_dir ≡ false
      → file_at n.path disk ≡ some f
      → f.is_dir ≡ false
      → hash_if_needed sha1 disk none n ≡ some (record n { hash = sha1 f.content })
  unfolding hash_if_needed hash_file
  hash_if_needed-file n f disk d h e = ground arith

  -- A file that is sent: what `push_node` does behind its hash.
  push_node-hashed :
      (n m : LocalNode) (base : Option Node) (w : World S.State)
      → n.is_dir ≡ false
      → n.hash ≡ []
      → is_stub base ≡ false
      → hash_if_needed sha1 w.disk none n ≡ some m
      → push_node sha1 stub_text like settings env S n.path n base w
        ≡ push_hashed sha1 stub_text like settings env S n.path base (some m) w
  unfolding push_node
  push_node-hashed n m base w d e s h = ground arith

  push_hashed-same :
      (path : Text) (m : LocalNode) (base : Node) (w : World S.State)
      → base.content_hash ≡ m.hash
      → push_hashed sha1 stub_text like settings env S path (some base) (some m) w ≡ done tt w
  push_hashed-same path m base w e = ground (arith, equal_fold_refl m.hash)

  push_hashed-other :
      (path : Text) (m : LocalNode) (base : Option Node) (w : World S.State)
      → same_content base m.hash ≡ false
      → push_hashed sha1 stub_text like settings env S path base (some m) w
        ≡ upload_file sha1 stub_text like settings env S path m w
  push_hashed-other path m base w e = ground arith

  abbrev with_content : LocalNode → File → LocalNode
  with_content n f = record n { hash = sha1 f.content }

  sent_row :
      (n : LocalNode) (f : File) (parent link : Text) (rows : List Row)
      → n.inode < word
      → get_node n.path
          (put_node env.now (uploaded_row (with_content n f) n.path link parent env.now) rows)
        ≡ some (stored env.now (uploaded_row (with_content n f) n.path link parent env.now))
  unfolding uploaded_row
  sent_row n f parent link rows i = ground (
    arith,
    get_node-put_node env.now (uploaded_row (with_content n f) n.path link parent env.now) n.path
        rows i,
    text_eq_refl n.path,
  )

  push_node-known :
      (n : LocalNode) (f : File) (base : Node) (w : World S.State)
      → n.is_dir ≡ false
      → n.hash ≡ []
      → file_at n.path w.disk ≡ some f
      → f.is_dir ≡ false
      → is_stub (some base) ≡ false
      → base.content_hash ≡ sha1 f.content
      → push_node sha1 stub_text like settings env S n.path n (some base) w ≡ done tt w
  push_node-known n f base w d e h g s c =
      push_node-hashed n (with_content n f) (some base) w d e s
        (hash_if_needed-file n f w.disk d h g)
      ∙ push_hashed-same n.path (with_content n f) base w c

  -- A file that the scan found and that is no stub and not the baseline's content is uploaded where
  -- its remote folder is known and the remote side takes it, and recorded, so that pushing it again
  -- sends nothing.
  pub push_node-sends_once :
      (n : LocalNode) (f : File) (base : Option Node) (parent link : Text) (remote : S.State)
      (w : World S.State)
      → n.is_dir ≡ false
      → n.hash ≡ []
      → n.inode < word
      → file_at n.path w.disk ≡ some f
      → f.is_dir ≡ false
      → is_stub base ≡ false
      → same_content base (sha1 f.content) ≡ false
      → remote_parent_id env S n.path w ≡ done parent w
      → S.upload parent (name_of n.path) n.mtime f.content w.remote ≡ (remote, some link)
      → let w' = after_upload n.path (record n { hash = sha1 f.content }) parent link remote w in
        (push_node sha1 stub_text like settings env S n.path n base w ≡ done tt w')
        × (push_node sha1 stub_text like settings env S n.path n (get_node n.path w'.rows) w'
            ≡ done tt w')
  unfolding uploaded_row
  push_node-sends_once n f base parent link remote w d e i h g s c p u = (
    push_node-hashed n (with_content n f) base w d e s (hash_if_needed-file n f w.disk d h g)
        ∙ (push_hashed-other n.path (with_content n f) base w c
            ∙ upload_file-done n.path parent link (with_content n f) f w remote p h u),
    ap
          (λ b.
            push_node sha1 stub_text like settings env S n.path n b
              (after_upload n.path (with_content n f) parent link remote w))
          (sent_row n f parent link w.rows i)
        ∙ push_node-known n f
            (stored env.now (uploaded_row (with_content n f) n.path link parent env.now))
            (after_upload n.path (with_content n f) parent link remote w) d e h g refl refl,
  )
