-- ===== src/Solver/Environment.antt =====
-- What the solver calls: the `ChallengeDriver` of src/solver.rs, the `DnsProvider` of
-- src/provider.rs, the poll of src/dns and the clock.
use cheti.Prelude.{ℕ, Option, List}
use cheti.Text.{Text}
use cheti.Error.{Result}
use cheti.Dns.Client.{PropagationTiming}

-- `Dns01Challenge`.
pub record Challenge : Type 0 where
  pub domain : Text
  pub fqdn : Text
  pub dns_value : Text
  pub token : ℕ

pub record PlacedRecord : Type 0 where
  pub fqdn : Text
  pub value : Text

pub record Env (E : Type 0) : Type 0 where
  -- `none` ends the iteration.
  pub next_dns01 : E → Option (Result Challenge) × E
  pub set_ready : List ℕ → E → Result (Unit {0}) × E
  -- The certificate chain and the private key.
  pub finalize : E → Result (Text × Text) × E
  pub present : Text → Text → E → Result (Unit {0}) × E
  pub cleanup : Text → Text → E → Result (Unit {0}) × E
  pub timing : PropagationTiming
  -- `none`: the fuel of the poll ran out.
  pub wait_for_propagation :
      Text → Text → List Text → PropagationTiming → E → Option (Result (Unit {0}) × E)
  pub sleep : ℕ → E → E
