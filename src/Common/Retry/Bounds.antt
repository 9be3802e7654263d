-- ===== src/Common/Retry/Bounds.antt =====
-- How often `send_retrying` sends and how long it waits, on a transport that keeps a log.
use cheti.Prelude.{
  subst, sym, ℕ, zero, suc, ◌+◌, ◌-◌, ◌*◌, ◌≤◌, ◌<◌, ◌≡◌, refl, Option, none, some, List, [], ◌∷◌,
  arith,
}
use cheti.Error.{Result, ok, err}
use cheti.Exec.{Exec, >>=_rule}
use cheti.Common.Retry.{
  Request, Response, Transport, send_loop, retry_or_return, wait_or_return, send_retrying,
  retry_delay, max_attempts, max_retry_wait,
}
use cheti.Common.Retry.Delay.{retry_delay_bounds}

-- The newest event comes first.
pub data Event (P B : Type 0) : Type 0 where
  sent : Request P → Result (Response B) → Event P B
  slept : ℕ → Event P B

module _ {P B : Type 0} where
  abbrev pub sends : List (Event P B) → ℕ
  sends [] = 0
  sends (sent r a ∷ log) = suc (sends log)
  sends (slept d ∷ log) = sends log

  abbrev pub waited : List (Event P B) → ℕ
  waited [] = 0
  waited (sent r a ∷ log) = waited log
  waited (slept d ∷ log) = d + waited log

  -- The result is the answer of the newest request.
  abbrev pub IsNewest : Result (Response B) → List (Event P B) → Type 0
  IsNewest a [] = ⊥
  IsNewest a (sent r a' ∷ log) = a ≡ a'
  IsNewest a (slept d ∷ log) = ⊥

  abbrev pub recorded : {W : Type 0} → Transport W P B → Transport (W × List (Event P B)) P B
  recorded t = record {
    try_clone = t.try_clone;
    is_idempotent = t.is_idempotent;
    send = λ r s. ((t.send r s.0).0, ((t.send r s.0).1, sent r (t.send r s.0).0 ∷ s.1));
    sleep = λ d s. (t.sleep d s.0, slept d ∷ s.1);
  }

  module _ {W : Type 0} (t : Transport W P B) where
    -- With `left` retries to go: what the log has gained.
    abbrev Gained : ℕ → List (Event P B) → Result (Response B) → W × List (Event P B) → Type 0
    Gained left log a s =
        (sends s.1 ≤ sends log + (left + 1))
        × (suc (sends log) ≤ sends s.1)
        × (waited s.1 ≤ waited log + left * max_retry_wait)
        × IsNewest a s.1

    wait_gains :
        (left : ℕ) (again : Request P → Exec (W × List (Event P B)) (Response B)) (n r : Request P)
        (a : Response B) (w : W) (log : List (Event P B)) (d : Option ℕ)
        → ((k : ℕ) → d ≡ some k → k ≤ max_retry_wait)
        → ((w' : W) (log' : List (Event P B))
            → Gained left log' (again n (w', log')).0 (again n (w', log')).1)
        → Gained
            (suc left)
            log
            (wait_or_return (recorded t) again n a (w, sent r (ok a) ∷ log) d).0
            (wait_or_return (recorded t) again n a (w, sent r (ok a) ∷ log) d).1
    unfolding wait_or_return
    wait_gains left again n r a w log none short k = (omega arith, omega arith, omega arith, refl)
    wait_gains left again n r a w log (some d) short k =
        let (upper, lower, wait, newest) = k (t.sleep d w) (slept d ∷ sent r (ok a) ∷ log) in
        (omega arith, omega arith, omega (arith, short d refl), newest)

    retry_gains :
        (left : ℕ) (again : Request P → Exec (W × List (Event P B)) (Response B)) (r : Request P)
        (o : Option (Request P)) (a : Response B) (w : W) (log : List (Event P B))
        → suc left < max_attempts
        → ((n : Request P) (w' : W) (log' : List (Event P B))
            → Gained left log' (again n (w', log')).0 (again n (w', log')).1)
        → Gained
            (suc left)
            log
            (retry_or_return
              (recorded t)
              again
              (max_attempts - suc left)
              o
              r.method
              a
              (w, sent r (ok a) ∷ log)).0
            (retry_or_return
              (recorded t)
              again
              (max_attempts - suc left)
              o
              r.method
              a
              (w, sent r (ok a) ∷ log)).1
    unfolding retry_or_return
    retry_gains left again r none a w log h k = (omega arith, omega arith, omega arith, refl)
    retry_gains left again r (some n) a w log h k =
        wait_gains left again n r a w log
          (retry_delay (t.is_idempotent r.method) a.status a.retry_after (max_attempts - suc left))
          (λ d e.
            (retry_delay_bounds (t.is_idempotent r.method) a.status a.retry_after
              (max_attempts - suc left) d (omega arith) e).0)
          (k n)

    loop_gains :
        (left : ℕ) (r : Request P) (w : W) (log : List (Event P B))
        → left < max_attempts
        → Gained left log
            (send_loop (recorded t) left r (w, log)).0
            (send_loop (recorded t) left r (w, log)).1
    unfolding send_loop
    loop_gains zero r w log h = (omega arith, omega arith, omega arith, refl)
    loop_gains (suc left) r w log h =
        >>=_rule (λ a s. s.1 ≡ sent r a ∷ log) (Gained (suc left) log) ((recorded t).send r)
          (retry_or_return (recorded t) (send_loop (recorded t) left) (max_attempts - suc left)
            (t.try_clone r) r.method)
          (w, log) refl
          (λ e s p.
            subst (λ (l : List (Event P B)). Gained (suc left) log (err e) (s.0, l)) (sym p)
              (omega arith, omega arith, omega arith, refl))
          (λ a s p.
            subst
              (λ (l : List (Event P B)).
                Gained (suc left) log
                  (retry_or_return (recorded t) (send_loop (recorded t) left)
                    (max_attempts - suc left) (t.try_clone r) r.method a (s.0, l)).0
                  (retry_or_return (recorded t) (send_loop (recorded t) left)
                    (max_attempts - suc left) (t.try_clone r) r.method a (s.0, l)).1)
              (sym p)
              (retry_gains left (send_loop (recorded t) left) r (t.try_clone r) a s.0 log h
                (λ n w' log'. loop_gains left n w' log' (omega arith))))

    -- Whatever the server answers, `send_retrying` sends the request once at least and three times
    -- at most, waits 20 s at most in all, and returns the answer to the last request sent.
    pub send_retrying_bounds :
        (r : Request P) (w : W)
        → (sends (send_retrying (recorded t) r (w, [])).1.1 ≤ 3)
          × (1 ≤ sends (send_retrying (recorded t) r (w, [])).1.1)
          × (waited (send_retrying (recorded t) r (w, [])).1.1 ≤ 20000)
          × IsNewest
              (send_retrying (recorded t) r (w, [])).0
              (send_retrying (recorded t) r (w, [])).1.1
    unfolding send_retrying
    send_retrying_bounds r w = loop_gains 2 r w [] (omega arith)
