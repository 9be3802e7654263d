-- ===== src/Common/Retry/Delay.antt =====
-- When `retry_delay` asks for a retry, and how long it waits.
use cheti.Prelude.{
  ℕ, zero, suc, ◌*◌, ◌^◌, ◌-◌, ◌≤◌, ◌<◌, ◌≡◌, ◌⊎◌, Bool, true, false, Option, none, some, arith,
  ltb, if◌then◌else◌,
}
use cheti.Text.{Text}
use cheti.Common.Retry.{
  retry_delay, is_retryable, parsed_delay, retry_wait, retry_backoff, max_retry_wait, max_attempts,
}

backoff_bound : (attempt : ℕ) → attempt ≤ 2 → retry_backoff attempt ≤ 2000
unfolding retry_backoff
backoff_bound zero h = omega arith
backoff_bound (suc zero) h = omega arith
backoff_bound (suc (suc zero)) h = omega arith
backoff_bound (suc (suc (suc n))) h = absurd (omega arith)

retry_wait_bound :
    (o : Option ℕ) (attempt d : ℕ)
    → attempt ≤ 2
    → retry_wait o attempt ≡ some d
    → d ≤ max_retry_wait
unfolding retry_wait
retry_wait_bound none attempt d h e = ground (arith, backoff_bound attempt)
retry_wait_bound (some secs) attempt d h e = ground arith

-- Before the last attempt, a retry is only asked for after a 429, or after a 503 to an idempotent
-- request, and then the wait is at most 10 s, whatever the server asks for.
pub retry_delay_bounds :
    (idempotent : Bool) (status : ℕ) (retry_after : Option Text) (attempt d : ℕ)
    → attempt < max_attempts
    → retry_delay idempotent status retry_after attempt ≡ some d
    → (d ≤ max_retry_wait) × ((status ≡ 429) ⊎ (status ≡ 503) × (idempotent ≡ true))
unfolding retry_delay
retry_delay_bounds idempotent status retry_after attempt d h e = (
  ground (arith, retry_wait_bound (parsed_delay retry_after) attempt d),
  unfold is_retryable in ground arith,
)

-- After an answer that is retried, the delay that the server names, in whole seconds, is the one
-- that is waited, if it is at most 10 s; a longer one ends the retries; without one the wait is 1
-- s, doubled on each retry.
pub retry_delay_wait :
    (idempotent : Bool) (status : ℕ) (retry_after : Option Text) (attempt : ℕ)
    → is_retryable idempotent status ≡ true
    → retry_delay idempotent status retry_after attempt ≡ elim (parsed_delay retry_after) [
      | none ↦ some (1000 * 2 ^ (attempt - 1))
      | some secs ↦ if ltb 10 secs then none else some (secs * 1000)
    ]
unfolding retry_delay retry_wait
retry_delay_wait idempotent status retry_after attempt h = ground arith

pub not_retryable :
    (idempotent : Bool) (status : ℕ) (retry_after : Option Text) (attempt : ℕ)
    → is_retryable idempotent status ≡ false
    → retry_delay idempotent status retry_after attempt ≡ none
unfolding retry_delay
not_retryable idempotent status retry_after attempt h = rw h
