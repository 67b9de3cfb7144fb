-- ===== src/Baidu/Retry.antt =====
-- internal/baidu/retry.go: which errors are tried again, after what delay, and how often. `W` is all
-- that the call and the clock act on. A duration is a number of nanoseconds.
pub mod Bounds
use baidu_drive_mover.Base.{
  ℕ, zero, suc, ◌+◌, ◌*◌, ◌^◌, Bool, true, false, not, Option, none, some, Result, ok, err,
  if◌then◌else◌, ltb, ◌==◌, [],
}
use baidu_drive_mover.Text.{Str}

abbrev pub default_retry_base : ℕ
default_retry_base = 500000000

abbrev pub max_retry_delay : ℕ
max_retry_delay = 30000000000

abbrev pub default_max_list_retries : ℕ
default_max_list_retries = 4

-- A TransientError without the error that it wraps; `retry_after` is 0 where it is not positive.
pub record TransientError : Type 0 where
  pub operation : Str
  pub status : ℕ
  pub retry_after : ℕ

-- An error as IsTransient and RetryDelay see it: the TransientError in its chain, a net.Error
-- there with its Timeout() || Temporary(), or neither.
pub data ReadError : Type 0 where
  transient : TransientError → ReadError
  network : Bool → ReadError
  other : Str → ReadError

unfoldable pub is_transient : ReadError → Bool
is_transient (ReadError.transient _) = true
is_transient (ReadError.network retry) = retry
is_transient (ReadError.other _) = false

-- The attempt is an int; one below 0 counts as 0.
unfoldable pub fallback_retry_delay : ℕ → ℕ
fallback_retry_delay attempt =
    let capped = if ltb 5 attempt then 5 else attempt in
    let delay = default_retry_base * 2 ^ capped in
    if ltb max_retry_delay delay then max_retry_delay else delay

unfoldable pub retry_delay : ReadError → ℕ → ℕ
retry_delay (ReadError.transient t) attempt =
    if ltb 0 t.retry_after
    then (if ltb max_retry_delay t.retry_after then fallback_retry_delay attempt else t.retry_after)
    else fallback_retry_delay attempt
retry_delay _ attempt = fallback_retry_delay attempt

-- What retryRead is given: the call with its body and status, the clock, and ctx.Err().
pub record Read (W : Type 0) : Type 0 where
  pub fn : W → W × (Str × ℕ × Option ReadError)
  pub sleep : ℕ → W → W × Option ReadError
  pub cancelled : W → Option ReadError

-- The body, the status and the error that retryRead returns.
abbrev pub ReadResult : Type 0
ReadResult = Str × ℕ × Option ReadError

module _ {W : Type 0} (r : Read W) where
  -- The end of one turn after a call that failed: `more` says whether an attempt is left, and
  -- `again` is the rest of the loop.
  unfoldable pub after_failure :
      Bool → ℕ → ℕ → ReadError → (W → W × ReadResult) → W → W × ReadResult
  after_failure more attempt status e again w =
      if not (is_transient e)
      then (w, ([], status, some e))
      else if not more
      then (w, ([], status, some e))
      else (let (w1, stopped) = r.sleep (retry_delay e attempt) w in
          elim stopped [ some x ↦ (w1, ([], status, some x)) | none ↦ again w1 ])

  unfoldable pub after_call :
      Bool → ℕ → W × (Str × ℕ × Option ReadError) → (W → W × ReadResult) → W × ReadResult
  after_call more attempt (w, (body, status, none)) again = (w, (body, status, none))
  after_call more attempt (w, (body, status, some e)) again =
      after_failure more attempt status e again w

  unfoldable pub one_attempt : Bool → ℕ → (W → W × ReadResult) → W → W × ReadResult
  one_attempt more attempt again w = elim (r.cancelled w) [
    | some e ↦ (w, ([], 0, some e))
    | none ↦ after_call more attempt (r.fn w) again
  ]

  -- `for attempt := 0; attempt < attempts; attempt++`, with the number of attempts left.
  unfoldable pub retry_loop : ℕ → ℕ → W → W × ReadResult
  retry_loop zero attempt w = (w, ([], 0, some (ReadError.other [])))
  retry_loop (suc left) attempt w =
      one_attempt (not (left == 0)) attempt (λ w1. retry_loop left (attempt + 1) w1) w

  -- `max_list_retries` is 0 where it is not positive.
  unfoldable pub retry_read : ℕ → W → W × ReadResult
  retry_read max_list_retries w =
      if max_list_retries == 0
      then retry_loop default_max_list_retries 0 w
      else retry_loop max_list_retries 0 w
