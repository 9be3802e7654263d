-- ===== src/Common/Retry.antt =====
-- `SendRetrying` and `retry_delay` of src/providers/common.rs. Durations are milliseconds.
pub mod Delay
pub mod Bounds
pub mod Rule
use cheti.Prelude.{
  ℕ, zero, suc, ◌+◌, ◌-◌, ◌*◌, ◌^◌, Bool, true, false, ◌&&◌, Option, none, some, List, [], ◌∷◌, ltb,
  leb, ◌==◌, if◌then◌else◌,
}
use cheti.Text.{Text, trim}
use cheti.Error.{Result, ok, err}
use cheti.Exec.{Exec, pure, ◌>>=◌}

-- The methods that the providers use.
pub data Method : Type 0 where
  get post put patch delete : Method

-- A request as it is built; `P` is the type of its JSON body.
pub record Request (P : Type 0) : Type 0 where
  pub method : Method
  pub url : Text
  pub query : List (Text × Text)
  pub payload : Option P

-- A response; `B` is the type of its body, not read yet.
pub record Response (B : Type 0) : Type 0 where
  pub status : ℕ
  pub retry_after : Option Text
  pub body : B

-- What the program uses of reqwest, http and tokio: `RequestBuilder::try_clone`, `send`,
-- `Method::is_idempotent` and `sleep`.
pub record Transport (W P B : Type 0) : Type 0 where
  pub try_clone : Request P → Option (Request P)
  pub is_idempotent : Method → Bool
  pub send : Request P → Exec W (Response B)
  pub sleep : ℕ → W → W

abbrev pub max_attempts : ℕ
max_attempts = 3

abbrev pub max_retry_wait : ℕ
max_retry_wait = 10000

abbrev pub retry_backoff_base : ℕ
retry_backoff_base = 1000

-- `str::parse::<u64>`: an optional plus sign, then digits, and no overflow.
parse_digits : ℕ → Text → Option ℕ
parse_digits n [] = some n
parse_digits n (c ∷ s) =
    let rest = parse_digits (n * 10 + (c - b'0')) s in
    if leb b'0' c && leb c b'9' then rest else none

unsigned : Text → Option ℕ
unfolding parse_digits
unsigned [] = none
unsigned (c ∷ s) = elim (parse_digits 0 (c ∷ s)) [
  | none ↦ none
  | some n ↦ if ltb n (2 ^ 64) then some n else none
]

pub parse_u64 : Text → Option ℕ
unfolding unsigned
parse_u64 [] = none
parse_u64 (c ∷ s) = if c == b'+' then unsigned s else unsigned (c ∷ s)

unfoldable pub retry_backoff : ℕ → ℕ
retry_backoff attempt = retry_backoff_base * 2 ^ (attempt - 1)

unfoldable pub is_retryable : Bool → ℕ → Bool
is_retryable idempotent status =
    if status == 429 then true else if status == 503 then idempotent else false

unfoldable pub parsed_delay : Option Text → Option ℕ
unfolding parse_u64
parsed_delay none = none
parsed_delay (some v) = parse_u64 (trim v)

unfoldable pub retry_wait : Option ℕ → ℕ → Option ℕ
unfolding retry_backoff
retry_wait none attempt = some (retry_backoff attempt)
retry_wait (some secs) attempt =
    if ltb max_retry_wait (secs * 1000) then none else some (secs * 1000)

-- The wait before the next attempt, or `none` if the response is returned as it is.
unfoldable pub retry_delay : Bool → ℕ → Option Text → ℕ → Option ℕ
unfolding is_retryable retry_wait
retry_delay idempotent status retry_after attempt =
    if is_retryable idempotent status then retry_wait (parsed_delay retry_after) attempt else none

module _ {W P B : Type 0} (t : Transport W P B) where
  unfoldable pub wait_or_return :
      (Request P → Exec W (Response B))
      → Request P
      → Response B
      → W
      → Option ℕ
      → Result (Response B) × W
  wait_or_return again next response w none = (ok response, w)
  wait_or_return again next response w (some wait) = again next (t.sleep wait w)

  -- What follows a response, given the rest of the loop: `next` is the clone of the request.
  unfoldable pub retry_or_return :
      (Request P → Exec W (Response B))
      → ℕ
      → Option (Request P)
      → Method
      → Response B
      → Exec W (Response B)
  unfolding wait_or_return
  retry_or_return again attempt none method response w = (ok response, w)
  retry_or_return again attempt (some next) method response w =
      wait_or_return again next response w
        (retry_delay (t.is_idempotent method) response.status response.retry_after attempt)

  -- The loop, by the number of retries left: `attempt` is `max_attempts - left`, and the guard
  -- `attempt >= MAX_ATTEMPTS` is `left` being zero.
  unfoldable pub send_loop : ℕ → Request P → Exec W (Response B)
  unfolding retry_or_return
  send_loop zero request = t.send request
  send_loop (suc left) request =
      t.send request
      >>= retry_or_return (send_loop left) (max_attempts - suc left) (t.try_clone request)
          request.method

  unfoldable pub send_retrying : Request P → Exec W (Response B)
  unfolding send_loop
  send_retrying request = send_loop (max_attempts - 1) request
