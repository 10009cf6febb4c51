-- ===== src/RateLimit/Tests.antt =====
-- The rate limiter at a concrete run.
use p_drive.Base.{ℕ, suc, ◌<◌, ◌≤◌, [], ◌∷◌, Option, none, some, ◌≡◌, refl, arith}
use p_drive.State.Rows.{pos}
use p_drive.RateLimit.{
  max_cooldown, Limiter, limited_for, clamped, enter_cooldown, parse_retry_after, seconds, Response,
  Request, round_trip, round_trips,
}
use p_drive.RateLimit.Laws.{IsSilent, round_trips-IsSilent}

-- A transport that counts the requests, and refuses all of them for five seconds.
abbrev busy : ℕ → ℕ → ℕ × Option Response
busy payload sent = (suc sent, some (record { status = 429; retry_after = seconds 5 }))

abbrev first : Request ℕ
first = record { payload = 1; start = 100; answered = 200 }

abbrev second_try : Request ℕ
second_try = record { payload = 2; start = 300; answered = 400 }

abbrev idle : Limiter
idle = record { until = none }

abbrev cooling : Limiter
cooling = enter_cooldown 200 (pos 5000000000) idle

round_trips-IsSilent_example :
    (0 < clamped (pos 5000000000))
    × (clamped (pos 5000000000) ≤ max_cooldown)
    × (round_trip busy first (idle, 0)
        ≡ ((cooling, 1), some (record { status = 429; retry_after = seconds 5 })))
    × IsSilent busy (cooling, 1) (round_trips busy (second_try ∷ []) (cooling, 1))
unfolding limited_for clamped parse_retry_after
round_trips-IsSilent_example =
    round_trips-IsSilent busy first (second_try ∷ []) idle 0 1
      (record { status = 429; retry_after = seconds 5 }) refl refl refl (omega arith, tt)
