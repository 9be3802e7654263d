-- ===== src/Dns/Poll.antt =====
-- `poll_until_all_confirm` of src/dns/propagation.rs.
pub mod Confirmed
pub mod Termination
use cheti.Prelude.{
  ℕ, zero, suc, ◌-◌, ◌/◌, Bool, true, false, Option, none, some, List, [], ◌∷◌, leb, if◌then◌else◌,
}
use cheti.Text.{Text, is_empty}
use cheti.Error.{Result, ok, err, propagation_timeout}
use cheti.Dns.Client.{PropagationTiming}

-- The clock of `tokio::time`.
pub record Clock (E : Type 0) : Type 0 where
  pub now : E → ℕ
  pub sleep : ℕ → E → E

abbrev pub keep_pending {ℓ} : {T : Type ℓ} → T → Bool → List T → List T
keep_pending target true still = still
keep_pending target false still = target ∷ still

module _ {E T : Type 0} (check : T → E → Bool × E) where
  -- One round: the targets that are not confirmed, in order.
  unfoldable pub check_all : List T → E → List T × E
  check_all [] e = ([], e)
  check_all (target ∷ targets) e =
      let answer = check target e in
      let rest = check_all targets answer.1 in (keep_pending target answer.0 rest.0, rest.1)

  -- `none`: the fuel ran out.
  unfoldable pub poll_loop :
      Clock E → Text → PropagationTiming → ℕ → ℕ → List T → E → Option (Result (Unit {0}) × E)
  poll_loop clock fqdn timing start zero pending e = none
  poll_loop clock fqdn timing start (suc fuel) pending e =
      let round = check_all pending e in
      let again =
        poll_loop clock fqdn timing start fuel round.0 (clock.sleep timing.interval round.1) in
      if is_empty round.0
      then some (ok tt, round.1)
      else if leb timing.timeout (clock.now round.1 - start)
      then some (err (propagation_timeout fqdn (timing.timeout / 1000)), round.1)
      else again

  unfoldable pub poll_until_all_confirm :
      Clock E → ℕ → List T → Text → PropagationTiming → E → Option (Result (Unit {0}) × E)
  poll_until_all_confirm clock fuel targets fqdn timing e =
      poll_loop clock fqdn timing (clock.now e) fuel targets e
