-- ===== src/Api/Tests.antt =====
-- The theorems on requests and on the stored session at concrete servers.
use p_drive.Base.{
  ℕ, suc, zero, ◌*◌, Text, codes, [], ◌∷◌, ◌++◌, true, false, Option, none, some, length, take,
  drop, ◌≡◌, refl,
}
use p_drive.State.Rows.{second}
use p_drive.Api.{
  Client, Tokens, Reply, success, refused, RefreshReply, new_tokens, do_request, request_error,
  retries_exceeded, is_auth_error, attempts,
}
use p_drive.Api.Laws.{IsHandedOn, do_request-IsHandedOn}
use p_drive.Api.Polite.{IsPolite, do_request-IsPolite}
use p_drive.Api.Dead.{IsRecent, do_request-EndsDead}
use p_drive.Api.Session.{
  Session, load, save, update_tokens, loaded, load-update_tokens, take-append, drop-append,
}

abbrev client : Client
client = record {
  on_token_refresh = true;
  tokens = record { uid = codes "u"; access_token = codes "old"; refresh_token = codes "r0" };
  last_refresh = none;
  sent = [];
  handed = [];
}

-- The first request finds the token expired.
abbrev server : ℕ → Text → Reply
server zero token = refused 401 401
server (suc n) token = success

abbrev renewal : ℕ → Text → RefreshReply
renewal n token = new_tokens (codes "new") (codes "r1")

abbrev clock : ℕ → ℕ
clock n = 5 * second

-- The expired token is refreshed, and the request sent again.
request-again : (do_request server renewal clock client).1 ≡ none
unfolding attempts p_drive.Api.refresh_tokens
request-again = refl

do_request-IsHandedOn_example : IsHandedOn (do_request server renewal clock client).0
do_request-IsHandedOn_example = do_request-IsHandedOn server renewal clock client (refl, refl)

do_request-IsPolite_example :
    IsPolite server renewal clock 8 client (do_request server renewal clock client).0
do_request-IsPolite_example = do_request-IsPolite server renewal clock client tt

abbrev dead : ℕ → Text → Reply
dead n token = refused 401 401

abbrev renewed : Client
renewed = record client { last_refresh = some (4 * second) }

renewed-IsRecent : IsRecent dead renewal clock renewed
renewed-IsRecent n = refl

do_request-EndsDead_example :
    ((do_request dead renewal clock renewed).1 ≡ some (retries_exceeded (request_error 401 401)))
    × (is_auth_error (retries_exceeded (request_error 401 401)) ≡ false)
    × (is_auth_error (request_error 401 401) ≡ true)
do_request-EndsDead_example =
    do_request-EndsDead dead renewal clock 401 renewed (λ m token. refl) renewed-IsRecent

abbrev session : Session
session = record {
  uid = codes "u";
  access_token = codes "a";
  refresh_token = codes "r";
  login_email = codes "me@x";
  salted_key_pass = codes "k";
}

-- A coding of the fields with their lengths before them, and a box that is the text itself.
abbrev write_field : Text → Text → Text
write_field x rest = length x ∷ (x ++ rest)

abbrev read_field : Text → Text × Text
read_field [] = ([], [])
read_field (n ∷ text) = (take n text, drop n text)

abbrev encode : Session → Text
encode s = write_field s.uid (
    write_field s.access_token
      (write_field s.refresh_token (write_field s.login_email (write_field s.salted_key_pass []))))

abbrev decode : Text → Option Session
decode t0 =
    let r1 = read_field t0 in
    let r2 = read_field r1.1 in
    let r3 = read_field r2.1 in
    let r4 = read_field r3.1 in
    let r5 = read_field r4.1 in
    some (record {
      uid = r1.0;
      access_token = r2.0;
      refresh_token = r3.0;
      login_email = r4.0;
      salted_key_pass = r5.0;
    })

decode-encode : (s : Session) → decode (encode s) ≡ some s
decode-encode s = simp (take-append, drop-append)

abbrev plain_box : Text → Text → Text
plain_box nonce text = text

abbrev plain_unbox : Text → Text → Option Text
plain_unbox nonce text = some text

abbrev nonce : Text
nonce = codes "abcdefghijklmnopqrstuvwx"

load-update_tokens_example :
    load encode decode plain_box plain_unbox (
      update_tokens encode decode plain_box plain_unbox nonce
        (codes "u")
        (codes "a2")
        (codes "r2")
        (save encode decode plain_box plain_unbox nonce session))
    ≡ loaded
        (record session { uid = codes "u"; access_token = codes "a2"; refresh_token = codes "r2" })
load-update_tokens_example =
    load-update_tokens encode decode plain_box plain_unbox (λ s u. decode-encode s)
      (λ nonce plain. refl) nonce nonce (codes "u") (codes "a2") (codes "r2") session
      (refl, refl, refl, refl, refl) (refl, refl, refl) refl refl
