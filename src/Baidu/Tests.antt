-- ===== src/Baidu/Tests.antt =====
-- Retries at concrete calls: the state is the list of the answers to come.
use baidu_drive_mover.Base.{ℕ, ◌+◌, ◌≤◌, ◌<◌, ◌≡◌, refl, List, [], ◌∷◌, Option, none, some}
use baidu_drive_mover.Text.{Str, bytes}
use baidu_drive_mover.Baidu.Retry.{
  max_retry_delay, ReadError, is_transient, fallback_retry_delay, retry_delay, Read, after_failure,
  after_call, one_attempt, retry_loop, retry_read,
}
use baidu_drive_mover.Baidu.Retry.Bounds.{counted, retry_delay_bounds, retry_read-calls}

retrying : Unit {0}
unfolding is_transient fallback_retry_delay retry_delay after_failure after_call one_attempt
    retry_loop retry_read
retrying = tt

abbrev busy : ReadError
busy = ReadError.transient (record { operation = bytes "list"; status = 503; retry_after = 0 })

-- Two answers fail, and the third has a body. The delays are added up.
abbrev answer : List (Str × ℕ × Option ReadError) → Str × ℕ × Option ReadError
answer [] = ([], 0, some (ReadError.other []))
answer (x ∷ xs) = x

abbrev rest : List (Str × ℕ × Option ReadError) → List (Str × ℕ × Option ReadError)
rest [] = []
rest (x ∷ xs) = xs

abbrev scripted : Read (List (Str × ℕ × Option ReadError) × ℕ)
scripted = record {
  fn = λ (xs, slept). ((rest xs, slept), answer xs);
  sleep = λ delay (xs, slept). ((xs, slept + delay), none);
  cancelled = λ _. none;
}

abbrev script : List (Str × ℕ × Option ReadError)
script = ([], 503, some busy) ∷ ([], 503, some busy) ∷ (bytes "ok", 200, none) ∷ []

third_succeeds : retry_read scripted 0 (script, 0) ≡ (([], 1500000000), (bytes "ok", 200, none))
unfolding retrying
third_succeeds = refl

second_is_last :
    retry_read scripted 2 (script, 0)
    ≡ (((bytes "ok", 200, none) ∷ [], 500000000), ([], 503, some busy))
unfolding retrying
second_is_last = refl

retry_delay_bounds_example : (0 < retry_delay busy 9) × (retry_delay busy 9 ≤ max_retry_delay)
retry_delay_bounds_example = retry_delay_bounds busy 9

retry_read-calls_example : (retry_read (counted scripted) 2 ((script, 0), 0)).0.1 ≤ 2
retry_read-calls_example = retry_read-calls scripted 2 (script, 0)
