-- ===== src/Api/Polite.antt =====
-- How much a request asks of the server.
use p_drive.Base.{
  ℕ, zero, suc, ◌+◌, ◌*◌, ◌≤◌, Text, List, [], ◌∷◌, Bool, true, false, Option, none, some, is_empty,
  length, All, if_elim, ◌==◌, ◌≡◌, refl, ap, arith,
}
use p_drive.Api.{
  ApiError, request_error, other_error, Reply, success, failure, refused, RefreshReply, new_tokens,
  refresh_failure, refresh_refused, Sent, called, refreshed, Client, status_of, refresh_status,
  refreshed_lately, Class, expired, limited, busy, fatal, class_of, reply_to, exchanged,
  refresh_tokens, Again, after_refresh, on_class, on_reply, attempts, do_request, count,
}

-- The answer was not 429.
abbrev pub IsCalm : Sent → Type 0
IsCalm (called token status) = (status == 429) ≡ false
IsCalm (refreshed token status) = (status == 429) ≡ false

abbrev pub AllButNewest : (Sent → Type 0) → List Sent → Type 0
AllButNewest P [] = Unit
AllButNewest P (s ∷ sent) = All P sent

weaken : (sent : List Sent) → All IsCalm sent → AllButNewest IsCalm sent
weaken [] h = tt
weaken (s ∷ sent) h = h.1

abbrev is_limited : Class → Bool
is_limited limited = true
is_limited _ = false

class_of-calm : (status : ℕ) → is_limited (class_of status) ≡ false → (status == 429) ≡ false
class_of-calm status h = ground arith

module _ (call : ℕ → Text → Reply) (exchange : ℕ → Text → RefreshReply) (clock : ℕ → ℕ) where
  -- So many requests more, and nothing after a 429.
  abbrev pub IsPolite : ℕ → Client → Client → Type 0
  IsPolite n c c' = AllButNewest IsCalm c'.sent × (length c'.sent ≤ length c.sent + n)

  abbrev Keeps : ℕ → Again call exchange clock → Type 0
  Keeps n again = (e : ApiError) (c : Client) → All IsCalm c.sent → IsPolite n c (again e c).0

  -- A refresh that succeeds leaves no 429; one that fails sends one request.
  abbrev AfterRefresh : Client → Client × Option ApiError → Type 0
  AfterRefresh c (c', none) = All IsCalm c'.sent × (length c'.sent ≤ length c.sent + 1)
  AfterRefresh c (c', some e) = IsPolite 1 c c'

  refresh_tokens-AfterRefresh :
      (c : Client) → All IsCalm c.sent → AfterRefresh c (refresh_tokens call exchange clock c)
  unfolding refresh_tokens
  refresh_tokens-AfterRefresh c h =
      if_elim (AfterRefresh c)
        (refreshed_lately (clock (count call exchange clock c)) c.last_refresh) _ _
        (λ _. (h, omega arith))
        (λ _.
          if_elim (AfterRefresh c) (is_empty c.tokens.refresh_token) _ _
            (λ _. (weaken c.sent h, omega arith))
            (λ _. on (exchange (length c.sent) c.tokens.refresh_token)))
    where
      on :
          (r : RefreshReply)
          → AfterRefresh c (
              exchanged call exchange clock
                (record c { sent = refreshed c.tokens.refresh_token (refresh_status r) ∷ c.sent })
                r)
      on (new_tokens a t) = ((refl, h), omega arith)
      on refresh_failure = (h, omega arith)
      on (refresh_refused status code) = (h, omega arith)

  after-IsPolite :
      (n : ℕ) (again : Again call exchange clock) (e : ApiError) (c : Client)
      (r : Client × Option ApiError)
      → Keeps n again
      → AfterRefresh c r
      → IsPolite (suc n) c (after_refresh call exchange clock again e r).0
  after-IsPolite n again e c (c', none) k (h, l) = let (p, q) = k e c' h in (p, omega arith)
  after-IsPolite n again e c (c', some x) k (p, q) = (p, omega arith)

  refused-IsPolite :
      (n status code : ℕ) (again : Again call exchange clock) (c : Client)
      → Keeps n again
      → All IsCalm c.sent
      → IsPolite
          (suc (suc n))
          c
          (on_reply call exchange clock again
            (record c { sent = called c.tokens.access_token status ∷ c.sent })
            (refused status code)).0
  refused-IsPolite n status code again c k h = on (class_of status) refl
    where
      on :
          (x : Class)
          → class_of status ≡ x
          → IsPolite
              (suc (suc n))
              c
              (on_class call exchange clock again
                (request_error status code)
                (record c { sent = called c.tokens.access_token status ∷ c.sent })
                x).0
      on expired e =
          let c' : Client = record c { sent = called c.tokens.access_token status ∷ c.sent } in
          let (p, q) =
            after-IsPolite n again (request_error status code) c'
              (refresh_tokens call exchange clock c') k
              (refresh_tokens-AfterRefresh c' (class_of-calm status (ap is_limited e), h)) in
          (p, omega arith)
      on limited e = (h, omega arith)
      on busy e =
          let c' : Client = record c { sent = called c.tokens.access_token status ∷ c.sent } in
          let (p, q) =
            k (request_error status code) c' (class_of-calm status (ap is_limited e), h) in
          (p, omega arith)
      on fatal e = (h, omega arith)

  reply-IsPolite :
      (n : ℕ) (again : Again call exchange clock) (c : Client) (r : Reply)
      → Keeps n again
      → All IsCalm c.sent
      → IsPolite
          (suc (suc n))
          c
          (on_reply call exchange clock again
            (record c { sent = called c.tokens.access_token (status_of r) ∷ c.sent })
            r).0
  reply-IsPolite n again c success k h = (h, omega arith)
  reply-IsPolite n again c failure k h =
      let (p, q) =
        k other_error (record c { sent = called c.tokens.access_token 0 ∷ c.sent }) (refl, h) in
      (p, omega arith)
  reply-IsPolite n again c (refused status code) k h = refused-IsPolite n status code again c k h

  attempts-IsPolite :
      (n : ℕ) (e : ApiError) (c : Client)
      → All IsCalm c.sent
      → IsPolite (n * 2) c (attempts call exchange clock n e c).0
  unfolding attempts
  attempts-IsPolite zero e c h = (weaken c.sent h, omega arith)
  attempts-IsPolite (suc n) e c h =
      let (p, q) =
        reply-IsPolite (n * 2) (attempts call exchange clock n) c (reply_to call exchange clock c)
          (attempts-IsPolite n) h in
      (p, omega arith)

  -- A request that nothing before it was limited for sends at most eight requests, refreshes included,
  -- and none after an answer of 429.
  pub do_request-IsPolite :
      (c : Client) → All IsCalm c.sent → IsPolite 8 c (do_request call exchange clock c).0
  do_request-IsPolite c h = attempts-IsPolite 4 other_error c h
