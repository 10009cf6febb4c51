-- ===== src/Api/Laws.antt =====
-- The rotation of the tokens.
use p_drive.Base.{
  ℕ, zero, suc, ◌+◌, Text, [], ◌∷◌, Option, none, some, is_empty, length, if_elim, if◌then◌else◌,
  true, ◌≡◌, refl, sym, subst,
}
use p_drive.Api.{
  ApiError, request_error, other_error, Reply, success, failure, refused, RefreshReply, new_tokens,
  refresh_failure, refresh_refused, refreshed, Client, refresh_status, max_retries,
  refreshed_lately, Class, expired, limited, busy, fatal, class_of, reply_to, send, exchanged,
  refresh_tokens, Again, after_refresh, on_class, on_reply, attempts, do_request, count,
}

-- The callback is set, and the tokens handed on last are those that the client holds; where none
-- were handed on there was no rotation.
abbrev pub IsHandedOn : Client → Type 0
IsHandedOn c =
    (c.on_token_refresh ≡ true)
    × elim c.handed [ [] ↦ c.last_refresh ≡ none | t ∷ ts ↦ t ≡ c.tokens ]

module _ (call : ℕ → Text → Reply) (exchange : ℕ → Text → RefreshReply) (clock : ℕ → ℕ) where
  exchanged-IsHandedOn :
      (c : Client) (r : RefreshReply)
      → IsHandedOn c
      → IsHandedOn (exchanged call exchange clock c r).0
  exchanged-IsHandedOn c (new_tokens a r) h = (
    h.0,
    subst
        (λ b.
          elim (if b
            then record c.tokens { access_token = a; refresh_token = r } ∷ c.handed
            else c.handed) [
              | [] ↦ some (clock (length c.sent)) ≡ none
              | t ∷ ts ↦ t ≡ record c.tokens { access_token = a; refresh_token = r }
            ])
        (sym h.0) refl,
  )
  exchanged-IsHandedOn c refresh_failure h = h
  exchanged-IsHandedOn c (refresh_refused status code) h = h

  refresh_tokens-IsHandedOn :
      (c : Client) → IsHandedOn c → IsHandedOn (refresh_tokens call exchange clock c).0
  unfolding refresh_tokens
  refresh_tokens-IsHandedOn c h =
      if_elim (λ (r : Client × Option ApiError). IsHandedOn r.0)
        (refreshed_lately (clock (count call exchange clock c)) c.last_refresh) _ _ (λ _. h)
        (λ _.
          if_elim (λ (r : Client × Option ApiError). IsHandedOn r.0)
            (is_empty c.tokens.refresh_token) _ _ (λ _. h)
            (λ _.
              exchanged-IsHandedOn
                (record c {
                  sent =
                      refreshed c.tokens.refresh_token
                        (refresh_status (exchange (length c.sent) c.tokens.refresh_token))
                      ∷ c.sent;
                })
                (exchange (length c.sent) c.tokens.refresh_token) h))

  after-IsHandedOn :
      (again : Again call exchange clock) (e : ApiError) (r : Client × Option ApiError)
      → ((e : ApiError) (c : Client) → IsHandedOn c → IsHandedOn (again e c).0)
      → IsHandedOn r.0
      → IsHandedOn (after_refresh call exchange clock again e r).0
  after-IsHandedOn again e (c, none) k h = k e c h
  after-IsHandedOn again e (c, some x) k h = h

  reply-IsHandedOn :
      (again : Again call exchange clock) (c : Client) (r : Reply)
      → ((e : ApiError) (c : Client) → IsHandedOn c → IsHandedOn (again e c).0)
      → IsHandedOn c
      → IsHandedOn (on_reply call exchange clock again c r).0
  reply-IsHandedOn again c success k h = h
  reply-IsHandedOn again c failure k h = k other_error c h
  reply-IsHandedOn again c (refused status code) k h = on (class_of status)
    where
      on :
          (x : Class)
          → IsHandedOn (on_class call exchange clock again (request_error status code) c x).0
      on expired =
          after-IsHandedOn again _ (refresh_tokens call exchange clock c) k
            (refresh_tokens-IsHandedOn c h)
      on limited = h
      on busy = k _ c h
      on fatal = h

  attempts-IsHandedOn :
      (n : ℕ) (e : ApiError) (c : Client)
      → IsHandedOn c
      → IsHandedOn (attempts call exchange clock n e c).0
  unfolding attempts
  attempts-IsHandedOn zero e c h = h
  attempts-IsHandedOn (suc n) e c h =
      reply-IsHandedOn (attempts call exchange clock n) (send call exchange clock c)
        (reply_to call exchange clock c) (attempts-IsHandedOn n) h

  -- With the callback OnTokenRefresh set no rotation of the tokens is lost: if the tokens handed on last
  -- were the client's before a request, they are after it, however often the request refreshed them and
  -- however it ended.
  pub do_request-IsHandedOn :
      (c : Client) → IsHandedOn c → IsHandedOn (do_request call exchange clock c).0
  do_request-IsHandedOn c h = attempts-IsHandedOn (max_retries + 1) other_error c h
