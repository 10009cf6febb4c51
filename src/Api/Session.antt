-- ===== src/Api/Session.antt =====
-- internal/api/session.go: the session, encrypted at rest. secretbox, the coding as JSON and the
-- random nonce are arguments; failing disks are not modelled.
use p_drive.Base.{
  ℕ, zero, suc, Bool, true, false, not, ◌&&◌, ◌==◌, Text, [], ◌∷◌, ◌++◌, Option, none, some, length,
  length-append, take, drop, if◌then◌else◌, if_elim, ltb, ◌≡◌, refl, sym, ap, subst, arith,
}

-- `Session`
pub record Session : Type 0 where
  pub uid : Text
  pub access_token : Text
  pub refresh_token : Text
  pub login_email : Text
  pub salted_key_pass : Text

abbrev pub empty_session : Session
empty_session = record {
  uid = [];
  access_token = [];
  refresh_token = [];
  login_email = [];
  salted_key_pass = [];
}

-- What may follow a byte that begins a character of UTF-8: the number of bytes, and the bounds of the
-- first of them.
abbrev pub after_lead : ℕ → Option (ℕ × ℕ × ℕ)
after_lead b =
    if ltb b 128
    then some (0, 128, 191)
    else if ltb b 194
    then none
    else if ltb b 224
    then some (1, 128, 191)
    else if b == 224
    then some (2, 160, 191)
    else if b == 237
    then some (2, 128, 159)
    else if ltb b 240
    then some (2, 128, 191)
    else if b == 240
    then some (3, 144, 191)
    else if ltb b 244
    then some (3, 128, 191)
    else if b == 244
    then some (3, 128, 143)
    else none

abbrev pub utf8_from : ℕ → ℕ → ℕ → Text → Bool
utf8_from k low high [] = k == 0
utf8_from zero low high (b ∷ bytes) = elim (after_lead b) [
  | none ↦ false
  | some (k, l, h) ↦ utf8_from k l h bytes
]
utf8_from (suc k) low high (b ∷ bytes) =
    not (ltb b low) && not (ltb high b) && utf8_from k 128 191 bytes

-- Whether bytes are UTF-8, by the table of RFC 3629.
abbrev pub is_utf8 : Text → Bool
is_utf8 bytes = utf8_from 0 128 191 bytes

-- What the coding as JSON needs to give a session back: it replaces what is not UTF-8. The key
-- passphrase is stored as base64 for this reason.
abbrev pub IsUtf8 : Session → Type 0
IsUtf8 s =
    (is_utf8 s.uid ≡ true)
    × (is_utf8 s.access_token ≡ true)
    × (is_utf8 s.refresh_token ≡ true)
    × (is_utf8 s.login_email ≡ true)
    × (is_utf8 s.salted_key_pass ≡ true)

abbrev pub nonce_size : ℕ
nonce_size = 24

-- What `Load` gives.
pub data Loaded : Type 0 where
  no_session too_short undecryptable unreadable : Loaded
  loaded : Session → Loaded

pub take-append : (a b : Text) → take (length a) (a ++ b) ≡ a
take-append [] b = refl
take-append (x ∷ a) b = ap (λ t. x ∷ t) (take-append a b)

pub drop-append : (a b : Text) → drop (length a) (a ++ b) ≡ b
drop-append [] b = refl
drop-append (x ∷ a) b = drop-append a b

-- `seal` and `unseal` are secretbox under the key of the machine, of a nonce and a text.
module _ (encode : Session → Text) (decode : Text → Option Session) (seal : Text → Text → Text)
    (unseal : Text → Text → Option Text) where
  -- `Save`: the file that it writes, the nonce first
  unfoldable pub save : Text → Session → Option Text
  save nonce s = some (nonce ++ seal nonce (encode s))

  abbrev pub decoded : Option Session → Loaded
  decoded none = unreadable
  decoded (some s) = loaded s

  abbrev pub opened : Option Text → Loaded
  opened none = undecryptable
  opened (some plain) = decoded (decode plain)

  -- `Load`
  unfoldable pub load : Option Text → Loaded
  load none = no_session
  load (some content) =
      if ltb (length content) nonce_size
      then too_short
      else opened (unseal (take nonce_size content) (drop nonce_size content))

  abbrev pub session_or_empty : Loaded → Session
  session_or_empty (loaded s) = s
  session_or_empty _ = empty_session

  -- `UpdateTokens`
  unfoldable pub update_tokens : Text → Text → Text → Text → Option Text → Option Text
  unfolding save load
  update_tokens nonce uid access refresh file = save nonce (record (session_or_empty (load file)) {
    uid = uid;
    access_token = access;
    refresh_token = refresh;
  })

  module _ (decode-encode : (s : Session) → IsUtf8 s → decode (encode s) ≡ some s)
      (unseal-seal : (nonce plain : Text) → unseal nonce (seal nonce plain) ≡ some plain) where
    load-save :
        (nonce : Text) (s : Session)
        → IsUtf8 s
        → length nonce ≡ nonce_size
        → load (save nonce s) ≡ loaded s
    unfolding load save
    load-save nonce s u l =
        let sealed : Text = seal nonce (encode s) in
        if_elim (λ r. r ≡ loaded s) (ltb (length (nonce ++ sealed)) nonce_size) _ _
          (λ short. absurd (ground (arith, length-append nonce sealed)))
          (λ _.
            subst
              (λ n.
                opened (unseal (take n (nonce ++ sealed)) (drop n (nonce ++ sealed))) ≡ loaded s)
              l
              (cc (
                take-append nonce sealed,
                drop-append nonce sealed,
                unseal-seal nonce (encode s),
                decode-encode s u,
              )))

    -- A rotation of the tokens is stored: what is loaded after it has the new tokens, and the login
    -- email and the key passphrase of the session that was saved before, under whatever nonces both
    -- were written, provided that all fields are UTF-8.
    pub load-update_tokens :
        (nonce nonce' uid access refresh : Text) (s : Session)
        → IsUtf8 s
        → (is_utf8 uid ≡ true) × (is_utf8 access ≡ true) × (is_utf8 refresh ≡ true)
        → length nonce ≡ nonce_size
        → length nonce' ≡ nonce_size
        → load (update_tokens nonce' uid access refresh (save nonce s))
          ≡ loaded (record s { uid = uid; access_token = access; refresh_token = refresh })
    unfolding update_tokens
    load-update_tokens nonce nonce' uid access refresh s v w l l' =
        subst
          (λ r.
            load (
              save nonce' (record (session_or_empty r) {
                uid = uid;
                access_token = access;
                refresh_token = refresh;
              }))
            ≡ loaded (record s { uid = uid; access_token = access; refresh_token = refresh }))
          (sym (load-save nonce s v l))
          (load-save nonce' (record s { uid = uid; access_token = access; refresh_token = refresh })
            (w.0, w.1, w.2, v.3, v.4) l')
