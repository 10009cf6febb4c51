-- ===== src/RateLimit.antt =====
-- internal/api/ratelimit.go: the cooldown after Proton answers 429. Times are nanoseconds; a
-- duration is an int64.
pub mod Laws
mod Tests
use p_drive.Base.{
  ℕ, ◌+◌, ◌-◌, ◌*◌, ◌/◌, ◌%◌, List, [], ◌∷◌, Bool, true, false, Option, none, some, ltb, ◌==◌,
  if◌then◌else◌,
}
use p_drive.State.Rows.{Time, ℤ, pos, negsuc, second, word, half_word}

abbrev pub default_cooldown : ℕ
default_cooldown = 120 * second

abbrev pub max_cooldown : ℕ
max_cooldown = 1800 * second

-- `Limiter`
pub record Limiter : Type 0 where
  pub until : Time

-- `LimitedFor`; the zero time has passed.
unfoldable pub limited_for : ℕ → Limiter → ℕ
limited_for now l = elim l.until [ none ↦ 0 | some until ↦ until - now ]

abbrev at_most : ℕ → ℕ
at_most d = if ltb max_cooldown d then max_cooldown else d

-- The first lines of `enterCooldown`.
unfoldable pub clamped : ℤ → ℕ
clamped (negsuc n) = default_cooldown
clamped (pos n) = if n == 0 then default_cooldown else at_most n

abbrev later_of : ℕ → Time → Time
later_of t none = some t
later_of t (some until) = if ltb until t then some t else some until

-- `enterCooldown`
unfoldable pub enter_cooldown : ℕ → ℤ → Limiter → Limiter
unfolding clamped
enter_cooldown now d l = record l { until = later_of (now + clamped d) l.until }

-- `Clear`
unfoldable pub clear : Limiter → Limiter
clear l = record l { until = none }

-- What a Retry-After header holds, as `strconv.Atoi` and `http.ParseTime` read it.
pub data RetryAfter : Type 0 where
  no_header unparseable negative_seconds : RetryAfter
  seconds : ℕ → RetryAfter
  date : ℕ → RetryAfter

-- `time.Duration(secs) * time.Second`, which wraps around.
abbrev to_duration : ℕ → ℤ
to_duration n =
    let m = n * second % word in if ltb m half_word then pos m else negsuc (word - 1 - m)

-- `ParseRetryAfter`
unfoldable pub parse_retry_after : ℕ → RetryAfter → ℤ
parse_retry_after now no_header = pos 0
parse_retry_after now unparseable = pos 0
parse_retry_after now negative_seconds = pos 0
parse_retry_after now (seconds n) = to_duration n
parse_retry_after now (date t) = pos (t - now)

-- What the limiter reads of a response.
pub record Response : Type 0 where
  pub status : ℕ
  pub retry_after : RetryAfter

-- A request, with the times at which it starts and at which it is answered.
pub record Request (Q : Type 0) : Type 0 where
  pub payload : Q
  pub start : ℕ
  pub answered : ℕ

-- The answer that is made up on this machine.
abbrev pub local_answer : ℕ → Response
local_answer remaining = record { status = 429; retry_after = seconds (remaining / second + 1) }

-- `base` is the wrapped transport, over the state of what it talks to; `none` is an error.
module _ {Q N : Type 0} (base : Q → N → N × Option Response) where
  abbrev pub Net : Type 0
  Net = Limiter × N

  abbrev pub armed : ℕ → Option Response → Limiter → Limiter
  armed now none l = l
  armed now (some r) l =
      if r.status == 429 then enter_cooldown now (parse_retry_after now r.retry_after) l else l

  -- `RoundTrip`
  unfoldable pub round_trip : Request Q → Net → Net × Option Response
  unfolding limited_for enter_cooldown parse_retry_after
  round_trip q (l, net) =
      let remaining = limited_for q.start l in
      let (net', answer) = base q.payload net in
      if ltb 0 remaining
      then ((l, net), some (local_answer remaining))
      else ((armed q.answered answer l, net'), answer)

  -- Requests one after the other, with their answers.
  unfoldable pub round_trips : List (Request Q) → Net → Net × List (Option Response)
  unfolding round_trip
  round_trips [] s = (s, [])
  round_trips (q ∷ qs) s =
      let (s', answer) = round_trip q s in
      let (s'', answers) = round_trips qs s' in (s'', answer ∷ answers)
