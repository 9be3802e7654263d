-- ===== src/Examples/Hetzner.antt =====
-- An action of the server of src/providers/hetzner.rs that takes two polls.
use cheti.Prelude.{ℕ, zero, suc, ◌+◌, ◌≤◌, ◌≡◌, refl, true, none, some, [], arith}
use cheti.Text.{text}
use cheti.Error.{Result, ok}
use cheti.Dns.Client.{answered}
use cheti.Common.Names.{PercentEncode}
use cheti.Common.Retry.{
  Transport, send_retrying, send_loop, retry_or_return, wait_or_return, retry_delay, is_retryable,
}
use cheti.Providers.Hetzner.{
  HetznerRecordsWrite, HetznerAction, HetznerReader, settled, fetch_action, action_of, check_error,
  wait_for_action,
}
use cheti.Providers.Hetzner.Config.{new}
use cheti.Providers.Hetzner.Settles.{
  Forward, SucceedsAfter, wait_for_action-reports, wait_for_action-Ends,
}

-- The time, and how many polls are left until the action succeeds. A request takes 5 milliseconds.
abbrev World : Type 0
World = ℕ × ℕ

abbrev action : ℕ → HetznerAction
action zero = record { id = 7; command = []; status = text "success"; error = none }
action (suc n) = record { id = 7; command = []; status = text "running"; error = none }

abbrev less : ℕ → ℕ
less zero = 0
less (suc n) = n

abbrev api : Transport World HetznerRecordsWrite HetznerAction
api = record {
  try_clone = λ r. some r;
  is_idempotent = λ m. true;
  send = λ r w. (
    ok (record { status = 200; retry_after = none; body = action (less w.1) }),
    (w.0 + 5, less w.1),
  );
  sleep = λ d w. (w.0 + d, w.1);
}

abbrev now : World → ℕ
now w = w.0

abbrev reader : HetznerReader HetznerAction
reader = record {
  text_of = record { body_text = λ b. answered []; json = λ b. answered b; status_text = λ n. [] };
  zones_json = λ b. answered [];
  rrset_json = λ b. answered [];
  ratelimit_reset = λ b. none;
}

abbrev encode : PercentEncode
encode must s = s

forward : Forward api now
forward = record { cloned = λ r n e. cc; sent = λ r w. omega arith; slept = λ d w. omega arith }

two_polls : SucceedsAfter api now forward (new []) encode reader 2 (action 2) (0, 2)
unfolding settled fetch_action send_retrying send_loop retry_or_return wait_or_return retry_delay
    is_retryable action_of check_error new text
two_polls =
    SucceedsAfter.running 1 (action 2) (action 1) (0, 2) (1005, 1) refl refl
      (SucceedsAfter.running 0 (action 1) (action 0) (1005, 1) (2010, 0) refl refl
        (SucceedsAfter.at_once (action 0) (2010, 0) refl))

poll_time :
    (a : HetznerAction) (w : World)
    → now (fetch_action (new []) encode api now reader a.id (api.sleep 1000 w)).1 ≤ now w + 1005
unfolding fetch_action send_retrying send_loop retry_or_return wait_or_return retry_delay
    is_retryable
poll_time a w = omega arith

wait_for_action-reports_example :
    (w : World) × (wait_for_action (new []) encode api now reader (action 2) (0, 2)
      ≡ some (ok tt, w))
wait_for_action-reports_example =
    wait_for_action-reports api now forward (new []) encode reader 1005 2 (action 2) (0, 2)
      (omega arith) poll_time (omega arith) two_polls

wait_for_action-Ends_example :
    (r : Result (Unit {0})) × (w : World) × (wait_for_action
        (new [])
        encode
        api
        now
        reader
        (action 9)
        (0, 9)
      ≡ some (r, w))
wait_for_action-Ends_example =
    wait_for_action-Ends api now forward (new []) encode reader (action 9) (0, 9)
