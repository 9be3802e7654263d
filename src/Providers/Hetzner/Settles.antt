-- ===== src/Providers/Hetzner/Settles.antt =====
-- `wait_for_action` of src/providers/hetzner.rs ends, and reports an action that succeeds in time.
use cheti.Prelude.{
  ℕ, zero, suc, ◌+◌, ◌-◌, ◌*◌, ◌≤◌, ◌≡◌, refl, ap, inl, inr, false, Bool-cases, Option, none, some,
  ltb, ltb-eq_false, le→ltb_false, arith,
}
use cheti.Error.{Result, ok, err}
use cheti.Exec.{Post, >>=_rule}
use cheti.Common.Names.{PercentEncode}
use cheti.Common.Retry.{Request, Transport, get, send_retrying}
use cheti.Common.Retry.Rule.{send_retrying_rule}
use cheti.Providers.Http.{plain}
use cheti.Providers.Hetzner.{
  HetznerRecordsWrite, HetznerAction, HetznerReader, settled, still_running, fetch_action,
  after_fetch, before_deadline, poll_again, wait_loop, wait_for_action,
}
use cheti.Providers.Hetzner.Config.{HetznerConfig, rounds, action_timeout, action_poll_interval}

polls_take : (k t : ℕ) → 1000 ≤ t → k * 1000 ≤ k * t
polls_take zero t h = omega arith
polls_take (suc k) t h =
    let split : suc k * t ≡ k * t + t = ground arith in omega (arith, polls_take k t h)

module _ {S B : Type 0} (api : Transport S HetznerRecordsWrite B) (now : S → ℕ) where
  -- A clock that never goes back, and a sleep that lasts as long as asked.
  pub record Forward : Type 0 where
    pub cloned : (r n : Request HetznerRecordsWrite) → api.try_clone r ≡ some n → n ≡ r
    pub sent : (r : Request HetznerRecordsWrite) (s : S) → now s ≤ now (api.send r s).1
    pub slept : (d : ℕ) (s : S) → now s + d ≤ now (api.sleep d s)

  module _ (forward : Forward) (config : HetznerConfig) (encode : PercentEncode)
      (reader : HetznerReader B) where
    abbrev Later : {A : Type 0} → S → Post S A
    Later s r s' = now s ≤ now s'

    fetch_action_later :
        (id : ℕ) (s : S) → now s ≤ now (fetch_action config encode api now reader id s).1
    unfolding fetch_action
    fetch_action_later id s =
        let request = plain get _ in
        >>=_rule (Later s) (Later s) (send_retrying api request) _ s
          (send_retrying_rule api request (λ w. now s ≤ now w) (Later s)
            (record {
              same = forward.cloned request;
              sent = λ w h. omega (arith, forward.sent request w);
              paused = λ a d w y h. omega (arith, forward.slept d w);
            })
            s (omega arith))
          (λ e t h. h) (λ a t h. h)

    abbrev polled : HetznerAction → S → Result HetznerAction × S
    polled action s =
        fetch_action config encode api now reader action.id (api.sleep action_poll_interval s)

    polled_later : (action : HetznerAction) (s : S) → now s + 1000 ≤ now (polled action s).1
    polled_later action s = omega (
      arith,
      fetch_action_later action.id (api.sleep action_poll_interval s),
      forward.slept action_poll_interval s,
    )

    abbrev Ends : Option (Result (Unit {0}) × S) → Type 0
    Ends o = (r : Result (Unit {0})) × (s' : S) × (o ≡ some (r, s'))

    fetched-Ends :
        (next : HetznerAction → S → Option (Result (Unit {0}) × S)) (r : Result HetznerAction)
        (s : S)
        → ((b : HetznerAction) → Ends (next b s))
        → Ends (after_fetch config encode api now reader next r s)
    fetched-Ends next (err x) s k = (err x, s, refl)
    fetched-Ends next (ok b) s k = k b

    -- One turn of the loop ends it, or leaves it to the next one before the deadline.
    turn-Ends :
        (o : Option (Result (Unit {0}))) (next : HetznerAction → S → Option (Result (Unit {0}) × S))
        (deadline : ℕ) (action : HetznerAction) (s : S)
        → (now s + action_poll_interval ≤ deadline
            → (b : HetznerAction) → Ends (next b (polled action s).1))
        → Ends (poll_again config encode api now reader o next deadline action s)
    unfolding poll_again before_deadline
    turn-Ends (some r) next deadline action s k = (r, s, refl)
    turn-Ends none next deadline action s k =
        elim (Bool-cases (ltb deadline (now s + action_poll_interval))) [
          | inl l ↦ rw l (err (still_running action), s, refl)
          | inr l ↦ rw l (
              fetched-Ends next (polled action s).0 (polled action s).1
                (k (ltb-eq_false deadline (now s + action_poll_interval) l)))
        ]

    loop-Ends :
        (fuel deadline : ℕ) (action : HetznerAction) (s : S)
        → deadline ≤ now s + fuel * 1000
        → Ends (wait_loop config encode api now reader (suc fuel) deadline action s)
    unfolding wait_loop
    loop-Ends zero deadline action s h =
        turn-Ends (settled action) _ deadline action s (λ l. absurd (omega arith))
    loop-Ends (suc fuel) deadline action s h =
        turn-Ends (settled action) _ deadline action s (λ l b.
          loop-Ends fuel deadline b (polled action s).1 (omega (arith, polled_later action s)))

    -- With a clock that never goes back and a sleep that lasts as long as asked, waiting for an
    -- action ends, whatever the server answers: 61 rounds are enough for the 60 seconds.
    pub wait_for_action-Ends :
        (action : HetznerAction) (s : S)
        → Ends (wait_for_action config encode api now reader action s)
    unfolding wait_for_action
    wait_for_action-Ends action s =
        loop-Ends (rounds - 1) (now s + action_timeout) action s (omega arith)

    -- An action that is seen to succeed at the `k`-th poll, and to run before that.
    pub data SucceedsAfter : ℕ → HetznerAction → S → Type 0 where
      at_once :
          (action : HetznerAction) (s : S)
          → settled action ≡ some (ok tt)
          → SucceedsAfter 0 action s
      running :
          (k : ℕ) (action b : HetznerAction) (s s' : S)
          → settled action ≡ none
          → polled action s ≡ (ok b, s')
          → SucceedsAfter k b s'
          → SucceedsAfter (suc k) action s

    loop_reports :
        (t : ℕ)
        → 1000 ≤ t
        → ((action : HetznerAction) (s : S) → now (polled action s).1 ≤ now s + t)
        → (fuel k deadline : ℕ) (action : HetznerAction) (s : S) → SucceedsAfter k action s
        → k ≤ fuel
        → now s + k * t ≤ deadline
        → (s' : S) × (wait_loop config encode api now reader (suc fuel) deadline action s
            ≡ some (ok tt, s'))
    unfolding wait_loop poll_again before_deadline
    loop_reports t low most fuel _ deadline action s (SucceedsAfter.at_once _ _ e) f h =
        (s, rw e refl)
    loop_reports t low most zero _ deadline action s (SucceedsAfter.running k _ b _ s' e p next) f
          h =
        absurd (omega arith)
    loop_reports t low most (suc fuel) _ deadline action s
          (SucceedsAfter.running k _ b _ s' e p next) f h =
        let split : suc k * t ≡ k * t + t = ground arith in
        let after : now (polled action s).1 ≡ now s' =
          ap (λ (d : Result HetznerAction × S). now d.1) p in
        let guard : ltb deadline (now s + action_poll_interval) ≡ false =
          le→ltb_false deadline (now s + action_poll_interval) (omega arith) in
        let (u, q) =
          loop_reports t low most fuel k deadline b s' next (omega arith)
            (omega (arith, most action s)) in
        (u, rw (e, guard, p) q)

    -- Where no poll takes longer than `t` milliseconds, an action that succeeds at the `k`-th poll
    -- is reported as a success, if `k` such polls fit into the timeout of 60 seconds.
    pub wait_for_action-reports :
        (t k : ℕ) (action : HetznerAction) (s : S)
        → 1000 ≤ t
        → ((a : HetznerAction) (s : S) → now (polled a s).1 ≤ now s + t)
        → k * t ≤ action_timeout
        → SucceedsAfter k action s
        → (s' : S) × (wait_for_action config encode api now reader action s ≡ some (ok tt, s'))
    unfolding wait_for_action
    wait_for_action-reports t k action s low most fits after =
        loop_reports t low most (rounds - 1) k (now s + action_timeout) action s after
          (omega (arith, polls_take k t low)) (omega arith)
