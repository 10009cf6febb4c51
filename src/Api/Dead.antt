-- ===== src/Api/Dead.antt =====
-- A session that is dead.
use p_drive.Base.{
  ℕ, zero, suc, Text, true, false, Option, some, length, if_elim, ◌≡◌, refl, sym, subst, arith,
}
use p_drive.Api.{
  ApiError, request_error, retries_exceeded, is_auth_error, Reply, refused, RefreshReply, Client,
  refreshed_lately, reply_to, send, refresh_tokens, Again, after_refresh, on_reply, attempts,
  do_request,
}

module _ (call : ℕ → Text → Reply) (exchange : ℕ → Text → RefreshReply) (clock : ℕ → ℕ) where
  -- While the last refresh counts as recent.
  abbrev pub IsRecent : Client → Type 0
  IsRecent c = (n : ℕ) → refreshed_lately (clock n) c.last_refresh ≡ true

  abbrev EndsDead : ℕ → Client × Option ApiError → Type 0
  EndsDead code r = r.1 ≡ some (retries_exceeded (request_error 401 code))

  -- One turn that is answered 401: the refresh is taken for done, and the next turn decides.
  turn-EndsDead :
      (code : ℕ) (again : Again call exchange clock) (c : Client) (r : Reply)
      → r ≡ refused 401 code
      → IsRecent c
      → EndsDead code (again (request_error 401 code) c)
      → EndsDead code (on_reply call exchange clock again c r)
  unfolding refresh_tokens
  turn-EndsDead code again c r always recent h =
      subst (λ r. EndsDead code (on_reply call exchange clock again c r)) (sym always)
        (if_elim
          (λ r. EndsDead code (after_refresh call exchange clock again (request_error 401 code) r))
          (refreshed_lately (clock (length c.sent)) c.last_refresh) _ _ (λ _. h)
          (λ f. absurd (ground (arith, recent (length c.sent)))))

  attempts-EndsDead :
      (code n : ℕ) (c : Client)
      → ((m : ℕ) (token : Text) → call m token ≡ refused 401 code)
      → IsRecent c
      → EndsDead code (attempts call exchange clock n (request_error 401 code) c)
  unfolding attempts
  attempts-EndsDead code zero c always recent = refl
  attempts-EndsDead code (suc n) c always recent =
      let c' : Client = send call exchange clock c in
      turn-EndsDead code (attempts call exchange clock n) c' (reply_to call exchange clock c)
        (always (length c.sent) c.tokens.access_token) recent
        (attempts-EndsDead code n c' always recent)

  -- A dead session is not recognised: a client whose token was just refreshed and whose every
  -- request is answered 401 ends with an error that does not count as one of authentication, though
  -- the answer itself does.
  pub do_request-EndsDead :
      (code : ℕ) (c : Client)
      → ((m : ℕ) (token : Text) → call m token ≡ refused 401 code)
      → IsRecent c
      → ((do_request call exchange clock c).1 ≡ some (retries_exceeded (request_error 401 code)))
        × (is_auth_error (retries_exceeded (request_error 401 code)) ≡ false)
        × (is_auth_error (request_error 401 code) ≡ true)
  unfolding attempts
  do_request-EndsDead code c always recent =
      let c' : Client = send call exchange clock c in
      (
        turn-EndsDead code (attempts call exchange clock 3) c' (reply_to call exchange clock c)
            (always (length c.sent) c.tokens.access_token) recent
            (attempts-EndsDead code 3 c' always recent),
        refl,
        ground arith,
      )
