-- ===== src/Api.antt =====
-- internal/api/client.go: authenticated requests, the refresh of tokens and the retries. The server
-- and the clock are arguments, by the number of requests sent before; waiting, cancellation and
-- the encoding of bodies are not modelled.
pub mod Session
pub mod Laws
pub mod Polite
pub mod Dead
mod Tests
use p_drive.Base.{
  ℕ, zero, suc, ◌+◌, ◌-◌, ◌*◌, Text, codes, List, [], ◌∷◌, Bool, true, false, ◌||◌, Option, none,
  some, is_empty, length, if◌then◌else◌, ltb, ◌==◌,
}
use p_drive.State.Rows.{Time, second}

-- The errors of `doRequest`: a `RequestError` with its status and its code, any other error of a
-- single request, and the ones that wrap these.
pub data ApiError : Type 0 where
  request_error : ℕ → ℕ → ApiError
  other_error no_refresh_token : ApiError
  refresh_failed : ApiError → ApiError → ApiError
  retries_exceeded : ApiError → ApiError

-- `RequestError.IsAuthError`
abbrev pub is_auth_code : ℕ → ℕ → Bool
is_auth_code status code = code == 10013 || code == 10002 || code == 10003 || status == 401

-- `IsAuthError`, which looks at the error itself and not at what it wraps
abbrev pub is_auth_error : ApiError → Bool
is_auth_error (request_error status code) = is_auth_code status code
is_auth_error _ = false

-- `IsRateLimit`
abbrev pub is_rate_limit : ApiError → Bool
is_rate_limit (request_error status code) = status == 429 || code == 2028
is_rate_limit _ = false

-- The tokens of `Client`, which the callback `OnTokenRefresh` is handed as well.
pub record Tokens : Type 0 where
  pub uid : Text
  pub access_token : Text
  pub refresh_token : Text

-- What a single request gives.
pub data Reply : Type 0 where
  success failure : Reply
  refused : ℕ → ℕ → Reply

pub data RefreshReply : Type 0 where
  new_tokens : Text → Text → RefreshReply
  refresh_failure : RefreshReply
  refresh_refused : ℕ → ℕ → RefreshReply

-- A request that was sent, with the token that it carries, and the status of the answer (0 for none,
-- 200 for success).
pub data Sent : Type 0 where
  called : Text → ℕ → Sent
  refreshed : Text → ℕ → Sent

-- `Client`, what it has sent and the tokens that it has handed on, the newest first; `on_token_refresh`
-- says that the callback is set.
pub record Client : Type 0 where
  pub on_token_refresh : Bool
  pub tokens : Tokens
  pub last_refresh : Time
  pub sent : List Sent
  pub handed : List Tokens

abbrev pub status_of : Reply → ℕ
status_of success = 200
status_of failure = 0
status_of (refused status code) = status

abbrev pub refresh_status : RefreshReply → ℕ
refresh_status (new_tokens a r) = 200
refresh_status refresh_failure = 0
refresh_status (refresh_refused status code) = status

-- `MaxRetries`
abbrev pub max_retries : ℕ
max_retries = 3

-- `minRefreshInterval`
abbrev pub min_refresh_interval : ℕ
min_refresh_interval = 10 * second

abbrev pub refreshed_lately : ℕ → Time → Bool
refreshed_lately now none = false
refreshed_lately now (some last) = ltb (now - last) min_refresh_interval

-- What `doRequest` tells apart.
pub data Class : Type 0 where
  expired limited busy fatal : Class

abbrev pub class_of : ℕ → Class
class_of status =
    if status == 401
    then expired
    else if status == 429
    then limited
    else if status == 503
    then busy
    else fatal

module _ (call : ℕ → Text → Reply) (exchange : ℕ → Text → RefreshReply) (clock : ℕ → ℕ) where
  abbrev count : Client → ℕ
  count c = length c.sent

  abbrev pub reply_to : Client → Reply
  reply_to c = call (count c) c.tokens.access_token

  -- `doSingleRequest`, for a call
  abbrev pub send : Client → Client
  send c = record c { sent = called c.tokens.access_token (status_of (reply_to c)) ∷ c.sent }

  abbrev pub exchanged : Client → RefreshReply → Client × Option ApiError
  exchanged c (new_tokens access refresh) =
      let tokens : Tokens = record c.tokens { access_token = access; refresh_token = refresh } in
      (
        record c {
          tokens = tokens;
          last_refresh = some (clock (count c));
          handed = if c.on_token_refresh then tokens ∷ c.handed else c.handed;
        },
        none,
      )
  exchanged c refresh_failure = (c, some other_error)
  exchanged c (refresh_refused status code) = (c, some (request_error status code))

  abbrev pub exchange_token : Client → Client × Option ApiError
  exchange_token c =
      let reply = exchange (count c) c.tokens.refresh_token in
      exchanged
        (record c { sent = refreshed c.tokens.refresh_token (refresh_status reply) ∷ c.sent }) reply

  -- `refreshTokens`; `none` is success.
  unfoldable pub refresh_tokens : Client → Client × Option ApiError
  refresh_tokens c =
      if refreshed_lately (clock (count c)) c.last_refresh
      then (c, none)
      else if is_empty c.tokens.refresh_token
      then (c, some no_refresh_token)
      else exchange_token c

  abbrev pub give_up : ApiError → ApiError → ApiError
  give_up original e = if is_auth_error e then e else refresh_failed e original

  abbrev pub Again : Type 0
  Again = ApiError → Client → Client × Option ApiError

  abbrev pub after_refresh : Again → ApiError → Client × Option ApiError → Client × Option ApiError
  after_refresh again original (c, none) = again original c
  after_refresh again original (c, some e) = (c, some (give_up original e))

  abbrev pub on_class : Again → ApiError → Client → Class → Client × Option ApiError
  on_class again e c expired = after_refresh again e (refresh_tokens c)
  on_class again e c limited = (c, some e)
  on_class again e c busy = again e c
  on_class again e c fatal = (c, some e)

  -- The body of the loop, after the request was sent; `again` is the next turn.
  abbrev pub on_reply : Again → Client → Reply → Client × Option ApiError
  on_reply again c success = (c, none)
  on_reply again c failure = again other_error c
  on_reply again c (refused status code) =
      on_class again (request_error status code) c (class_of status)

  -- The loop of `doRequest`, over the attempts that are left and the last error.
  unfoldable pub attempts : ℕ → ApiError → Client → Client × Option ApiError
  unfolding refresh_tokens
  attempts zero last c = (c, some (retries_exceeded last))
  attempts (suc n) last c = on_reply (attempts n) (send c) (reply_to c)

  -- `doRequest`; `none` is success.
  abbrev pub do_request : Client → Client × Option ApiError
  do_request c = attempts (max_retries + 1) other_error c
