-- ===== src/RateLimit/Laws.antt =====
-- Nothing is sent while a cooldown runs.
use p_drive.Base.{
  ℕ, ◌+◌, ◌<◌, ◌≤◌, List, [], ◌∷◌, Option, none, some, ◌≡◌, refl, sym, ap, ◌∙◌, subst, arith, All,
  lt→ltb, ltb, if◌then◌else◌,
}
use p_drive.State.Rows.{ℤ, pos, negsuc}
use p_drive.RateLimit.{
  max_cooldown, Limiter, limited_for, clamped, enter_cooldown, parse_retry_after, Response, Request,
  round_trip, round_trips, armed, local_answer, Net,
}

-- A cooldown is neither empty nor longer than half an hour.
clamped-bounds : (d : ℤ) → (0 < clamped d) × (clamped d ≤ max_cooldown)
unfolding clamped
clamped-bounds (pos n) = (ground arith, ground arith)
clamped-bounds (negsuc n) = (ground arith, ground arith)

limited_for-enter_cooldown :
    (now later : ℕ) (d : ℤ) (l : Limiter)
    → later < now + clamped d
    → 0 < limited_for later (enter_cooldown now d l)
unfolding limited_for enter_cooldown
limited_for-enter_cooldown now later d l h = ground arith

abbrev pub IsRefused : Option Response → Type 0
IsRefused none = ⊥
IsRefused (some r) = r.status ≡ 429

module _ {Q N : Type 0} (base : Q → N → N × Option Response) where
  refused :
      (q : Request Q) (l : Limiter) (net : N)
      → 0 < limited_for q.start l
      → round_trip base q (l, net) ≡ ((l, net), some (local_answer (limited_for q.start l)))
  unfolding round_trip
  refused q l net h =
      ap
        (λ b. if b then ((l, net), some (local_answer (limited_for q.start l))) else (
          (armed base q.answered (base q.payload net).1 l, (base q.payload net).0),
          (base q.payload net).1,
        ))
        (lt→ltb 0 (limited_for q.start l) h)

  -- What a run of requests that are all refused leaves.
  abbrev pub IsSilent : Net base → Net base × List (Option Response) → Type 0
  IsSilent s (s', answers) = (s' ≡ s) × All IsRefused answers

  IsSilent-step :
      (q : Request Q) (qs : List (Request Q)) (s : Net base) (o : Net base × Option Response)
      (r : Response)
      → o ≡ (s, some r)
      → r.status ≡ 429
      → IsSilent s (round_trips base qs s)
      → IsSilent s ((round_trips base qs (o.0)).0, (o.1) ∷ (round_trips base qs (o.0)).1)
  IsSilent-step q qs s o r e k rest =
      subst (λ p. IsSilent s ((round_trips base qs (p.0)).0, (p.1) ∷ (round_trips base qs (p.0)).1))
        (sym e) (rest.0, (k, rest.1))

  IsSilent-run :
      (l : Limiter) (net : N) (qs : List (Request Q))
      → All (λ q. 0 < limited_for q.start l) qs
      → IsSilent (l, net) (round_trips base qs (l, net))
  unfolding round_trips
  IsSilent-run l net [] a = (refl, tt)
  IsSilent-run l net (q ∷ qs) (h, a) =
      IsSilent-step q qs (l, net) (round_trip base q (l, net)) _ (refused q l net h) refl
        (IsSilent-run l net qs a)

  limited-All :
      (now : ℕ) (d : ℤ) (l : Limiter) (qs : List (Request Q))
      → All (λ q. q.start < now + clamped d) qs
      → All (λ q. 0 < limited_for q.start (enter_cooldown now d l)) qs
  limited-All now d l [] a = tt
  limited-All now d l (q ∷ qs) (h, a) =
      (limited_for-enter_cooldown now q.start d l h, limited-All now d l qs a)

  -- A request that is let through and answered 429 starts a cooldown, of the time that the answer
  -- asks for but more than nothing and at most half an hour; of all the requests that start before
  -- it ends none reaches the wrapped transport, and each is answered 429.
  pub round_trips-IsSilent :
      (q : Request Q) (qs : List (Request Q)) (l : Limiter) (net net' : N) (r : Response)
      → limited_for q.start l ≡ 0
      → base q.payload net ≡ (net', some r)
      → r.status ≡ 429
      → All (λ p. p.start < q.answered + clamped (parse_retry_after q.answered r.retry_after)) qs
      → let d = parse_retry_after q.answered r.retry_after in
        (0 < clamped d)
        × (clamped d ≤ max_cooldown)
        × (round_trip base q (l, net) ≡ ((enter_cooldown q.answered d l, net'), some r))
        × IsSilent
            (enter_cooldown q.answered d l, net')
            (round_trips base qs (enter_cooldown q.answered d l, net'))
  unfolding round_trip
  round_trips-IsSilent q qs l net net' r h b k a = (
    (clamped-bounds (parse_retry_after q.answered r.retry_after)).0,
    (clamped-bounds (parse_retry_after q.answered r.retry_after)).1,
    passed_on
        ∙ (ap (λ x. ((armed base q.answered (x.1) l, x.0), x.1)) b
            ∙ ap (λ m. ((m, net'), some r)) cooling),
    IsSilent-run (enter_cooldown q.answered (parse_retry_after q.answered r.retry_after) l) net' qs
        (limited-All q.answered (parse_retry_after q.answered r.retry_after) l qs a),
  )
    where
      passed_on : round_trip base q (l, net) ≡ (
        (armed base q.answered (base q.payload net).1 l, (base q.payload net).0),
        (base q.payload net).1,
      )
      passed_on =
          ap
            (λ n. if ltb 0 n then ((l, net), some (local_answer n)) else (
              (armed base q.answered (base q.payload net).1 l, (base q.payload net).0),
              (base q.payload net).1,
            ))
            h

      cooling :
          armed base q.answered (some r) l
          ≡ enter_cooldown q.answered (parse_retry_after q.answered r.retry_after) l
      cooling = ground arith
