-- ===== src/Common/Retry/Rule.antt =====
-- What holds after `send_retrying`, from what holds after each single request.
use cheti.Prelude.{
  subst, sym, ℕ, zero, suc, ◌-◌, ◌≡◌, ◌≢◌, refl, Bool, arith, Option, none, some, inl, inr,
  Option-cases, Bool-cases, true, false,
}
use cheti.Error.{ok}
use cheti.Exec.{Exec, Post, >>=_rule}
use cheti.Common.Retry.{
  Request, Response, Transport, send_loop, retry_or_return, wait_or_return, send_retrying,
  retry_delay, max_attempts, is_retryable,
}
use cheti.Common.Retry.Delay.{not_retryable}

module _ {W P B : Type 0} (t : Transport W P B) (r : Request P) where
  -- `P` holds before each attempt and `Q` after it; a pause after an answer that is retried leads
  -- back to `P`.
  pub record Attempt (P' : W → Type 0) (Q : Post W (Response B)) : Type 0 where
    pub same : (n : Request P) → t.try_clone r ≡ some n → n ≡ r
    pub sent : (w : W) → P' w → Q (t.send r w).0 (t.send r w).1
    pub paused :
        (a : Response B) (d : ℕ) (w : W)
        → is_retryable (t.is_idempotent r.method) a.status ≡ true
        → Q (ok a) w
        → P' (t.sleep d w)

  module _ (P' : W → Type 0) (Q : Post W (Response B)) (h : Attempt P' Q) where
    wait_rule :
        (again : Request P → Exec W (Response B)) (n : Request P) (attempt : ℕ) (a : Response B)
        (w : W)
        → ((w' : W) → P' w' → Q (again n w').0 (again n w').1)
        → Q (ok a) w
        → let delay : Option ℕ =
            retry_delay (t.is_idempotent r.method) a.status a.retry_after attempt in
          Q (wait_or_return t again n a w delay).0 (wait_or_return t again n a w delay).1
    unfolding wait_or_return
    wait_rule again n attempt a w k q =
        elim (Bool-cases (is_retryable (t.is_idempotent r.method) a.status)) [
          | inl y ↦
              go (retry_delay (t.is_idempotent r.method) a.status a.retry_after attempt)
                (λ d. h.paused a d w y q)
          | inr y ↦ rw (not_retryable (t.is_idempotent r.method) a.status a.retry_after attempt y) q
        ]
      where
        go :
            (delay : Option ℕ)
            → ((d : ℕ) → P' (t.sleep d w))
            → Q (wait_or_return t again n a w delay).0 (wait_or_return t again n a w delay).1
        go none p = q
        go (some d) p = k (t.sleep d w) (p d)

    retry_rule :
        (again : Request P → Exec W (Response B)) (attempt : ℕ) (o : Option (Request P))
        (a : Response B) (w : W)
        → ((n : Request P) → o ≡ some n → n ≡ r)
        → ((w' : W) → P' w' → Q (again r w').0 (again r w').1)
        → Q (ok a) w
        → Q
            (retry_or_return t again attempt o r.method a w).0
            (retry_or_return t again attempt o r.method a w).1
    unfolding retry_or_return
    retry_rule again attempt none a w same k q = q
    retry_rule again attempt (some n) a w same k q =
        wait_rule again n attempt a w
          (subst (λ (x : Request P). (w' : W) → P' w' → Q (again x w').0 (again x w').1)
            (sym (same n refl)) k)
          q

    loop_rule : (left : ℕ) (w : W) → P' w → Q (send_loop t left r w).0 (send_loop t left r w).1
    unfolding send_loop
    loop_rule zero w p = h.sent w p
    loop_rule (suc left) w p =
        >>=_rule Q Q (t.send r)
          (retry_or_return t (send_loop t left) (max_attempts - suc left) (t.try_clone r) r.method)
          w (h.sent w p) (λ e w' q. q)
          (λ a w' q.
            retry_rule (send_loop t left) (max_attempts - suc left) (t.try_clone r) a w' h.same
              (loop_rule left) q)

    -- What holds after every single attempt holds after the retries.
    pub send_retrying_rule : (w : W) → P' w → Q (send_retrying t r w).0 (send_retrying t r w).1
    unfolding send_retrying
    send_retrying_rule = loop_rule (max_attempts - 1)

  not_to_retry :
      (idempotent : Bool) (status : ℕ)
      → status ≢ 429
      → (status ≡ 503 → idempotent ≡ false)
      → is_retryable idempotent status ≡ false
  unfolding is_retryable
  not_to_retry idempotent status n m = ground arith

  -- An answer that is neither a 429, nor a 503 to an idempotent request, is returned after a
  -- single attempt.
  pub send_retrying_once :
      (a : Response B) (w w' : W)
      → t.send r w ≡ (ok a, w')
      → a.status ≢ 429
      → (a.status ≡ 503 → t.is_idempotent r.method ≡ false)
      → send_retrying t r w ≡ (ok a, w')
  unfolding send_retrying send_loop retry_or_return wait_or_return
  send_retrying_once a w w' e n m =
      let h = not_to_retry (t.is_idempotent r.method) a.status n m in
      elim (Option-cases (t.try_clone r)) [
        | inl none_left ↦ rw (e, none_left) refl
        | inr (next, c) ↦
            rw (e, c)
              (rw (not_retryable (t.is_idempotent r.method) a.status a.retry_after 1 h) refl)
      ]
