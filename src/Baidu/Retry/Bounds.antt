-- ===== src/Baidu/Retry/Bounds.antt =====
-- The bounds of internal/baidu/retry.go: how long a delay is, and how many calls are made.
use baidu_drive_mover.Base.{
  Option-cases, ℕ, zero, suc, ◌+◌, ◌*◌, ◌^◌, ◌≤◌, ◌<◌, Bool, not, Bool-cases, inl, inr, Option,
  none, some, arith, if◌then◌else◌, ltb, ◌==◌,
}
use baidu_drive_mover.Text.{Str}
use baidu_drive_mover.Baidu.Retry.{
  default_retry_base, max_retry_delay, ReadError, is_transient, fallback_retry_delay, retry_delay,
  Read, ReadResult, after_failure, after_call, one_attempt, retry_loop, retry_read, [],
}

abbrev capped : ℕ → ℕ
capped attempt = if ltb 5 attempt then 5 else attempt

power_positive : (n : ℕ) → 1 ≤ 2 ^ n
power_positive zero = omega arith
power_positive (suc n) = omega (arith, power_positive n)

cap_bounds :
    (delay : ℕ)
    → 0 < delay
    → (0 < (if ltb max_retry_delay delay then max_retry_delay else delay))
      × ((if ltb max_retry_delay delay then max_retry_delay else delay) ≤ max_retry_delay)
cap_bounds delay h = ground arith

fallback_bounds :
    (attempt : ℕ)
    → (0 < fallback_retry_delay attempt) × (fallback_retry_delay attempt ≤ max_retry_delay)
unfolding fallback_retry_delay
fallback_bounds attempt =
    cap_bounds (default_retry_base * 2 ^ capped attempt)
      (omega (arith, power_positive (capped attempt)))

-- The delay before a read is tried again is positive, and at most 30 seconds, whatever the error,
-- the delay that the server asks for, and the attempt.
pub retry_delay_bounds :
    (e : ReadError) (attempt : ℕ)
    → (0 < retry_delay e attempt) × (retry_delay e attempt ≤ max_retry_delay)
unfolding retry_delay
retry_delay_bounds (ReadError.transient t) attempt = ground (arith, fallback_bounds attempt)
retry_delay_bounds (ReadError.network retry) attempt = fallback_bounds attempt
retry_delay_bounds (ReadError.other m) attempt = fallback_bounds attempt

module _ {W : Type 0} (r : Read W) where
  -- The same call, with the number of its calls beside what it acts on.
  abbrev pub counted : Read (W × ℕ)
  counted = record {
    fn = λ (w, n). let (w1, x) = r.fn w in ((w1, n + 1), x);
    sleep = λ delay (w, n). let (w1, x) = r.sleep delay w in ((w1, n), x);
    cancelled = λ (w, n). r.cancelled w;
  }

  after_failure-calls :
      (more : Bool) (attempt status left : ℕ) (e : ReadError) (again : W × ℕ → (W × ℕ) × ReadResult)
      (w : W) (n : ℕ)
      → ((w1 : W) (n1 : ℕ) → (again (w1, n1)).0.1 ≤ n1 + left)
      → (after_failure counted more attempt status e again (w, n)).0.1 ≤ n + left
  unfolding after_failure
  after_failure-calls more attempt status left e again w n later =
      elim (Bool-cases (is_transient e)) [
        | inr lasting ↦ rw lasting (omega arith)
        | inl passing ↦ elim (Bool-cases more) [
          | inr last ↦ rw (passing, last) (omega arith)
          | inl left_over ↦ rw (passing, left_over) (go (r.sleep (retry_delay e attempt) w))
        ]
      ]
    where
      go :
          (x : W × Option ReadError)
          → (elim x.1 as (λ _. (W × ℕ) × ReadResult) [
            | some y ↦ ((x.0, n), ([], status, some y))
            | none ↦ again (x.0, n)
          ]).0.1
            ≤ n + left
      go (w1, some y) = omega arith
      go (w1, none) = later w1 n

  after_call-calls :
      (more : Bool) (attempt left n : ℕ) (x : W × (Str × ℕ × Option ReadError))
      (again : W × ℕ → (W × ℕ) × ReadResult)
      → ((w1 : W) (n1 : ℕ) → (again (w1, n1)).0.1 ≤ n1 + left)
      → (after_call counted more attempt ((x.0, n + 1), x.1) again).0.1 ≤ n + (left + 1)
  unfolding after_call
  after_call-calls more attempt left n (w, (body, status, none)) again later = omega arith
  after_call-calls more attempt left n (w, (body, status, some e)) again later =
      omega (arith, after_failure-calls more attempt status left e again w (n + 1) later)

  one_attempt-calls :
      (more : Bool) (attempt left : ℕ) (again : W × ℕ → (W × ℕ) × ReadResult) (w : W) (n : ℕ)
      → ((w1 : W) (n1 : ℕ) → (again (w1, n1)).0.1 ≤ n1 + left)
      → (one_attempt counted more attempt again (w, n)).0.1 ≤ n + (left + 1)
  unfolding one_attempt
  one_attempt-calls more attempt left again w n later = elim (Option-cases (r.cancelled w)) [
    | inr (e, stopped) ↦ rw (stopped, one_attempt) (omega arith)
    | inl running ↦
        rw (running, one_attempt) (after_call-calls more attempt left n (r.fn w) again later)
  ]

  retry_loop-calls :
      (left attempt : ℕ) (w : W) (n : ℕ) → (retry_loop counted left attempt (w, n)).0.1 ≤ n + left
  unfolding retry_loop
  retry_loop-calls zero attempt w n = omega arith
  retry_loop-calls (suc left) attempt w n = omega (
    arith,
    one_attempt-calls (not (left == 0)) attempt left (retry_loop counted left (attempt + 1)) w n
        (retry_loop-calls left (attempt + 1)),
  )

  -- retryRead makes at most as many calls as it is allowed to, and at most 4 where no number is
  -- set, whatever the calls and the sleeps do.
  pub retry_read-calls :
      (max_list_retries : ℕ) (w : W)
      → (retry_read counted max_list_retries (w, 0)).0.1
        ≤ (if max_list_retries == 0 then 4 else max_list_retries)
  unfolding retry_read
  retry_read-calls max_list_retries w = elim (Bool-cases (max_list_retries == 0)) [
    | inl unset ↦ rw unset (omega (arith, retry_loop-calls 4 0 w 0))
    | inr set ↦ rw set (omega (arith, retry_loop-calls max_list_retries 0 w 0))
  ]
