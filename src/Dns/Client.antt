-- ===== src/Dns/Client.antt =====
-- What src/dns uses of hickory-resolver, tokio and the standard library, and the constants.
use cheti.Prelude.{ℕ, Option, List, [], ◌∷◌}
use cheti.Text.{Text, text}

-- The answer of a foreign call: a value, or an error as it prints.
pub data Reply {ℓ} (A : Type ℓ) : Type ℓ where
  answered : A → Reply A
  failed : Text → Reply A

pub data RecordType : Type 0 where
  txt_type ns_type soa_type : RecordType

-- The data of a record: the character strings of a TXT record as bytes, the name of an NS record,
-- or something else.
pub data RData : Type 0 where
  txt : List (List ℕ) → RData
  ns : Text → RData
  another : RData

pub record SocketAddr (Ip : Type 0) : Type 0 where
  pub ip : Ip
  pub port : ℕ

-- `E` is the state of the world (network, clock), `R` a resolver and `Ip` an IP address.
pub record Client (E R Ip : Type 0) : Type 0 where
  -- `TokioResolver::builder_tokio()?.build()`, by its two steps.
  pub system_builder : E → Reply (Unit {0}) × E
  pub system_build : E → Reply R × E
  -- `OnceLock::get` and `get_or_init` of the shared resolver.
  pub cached : E → Option R
  pub cache : R → E → R × E
  pub lookup : R → Text → RecordType → E → Reply (List RData) × E
  pub lookup_ip : R → Text → E → Reply (List Ip) × E
  -- A resolver for these addresses, over UDP, that keeps no answer.
  pub builder_with_config : List (SocketAddr Ip) → E → Reply R × E
  pub parse_addr : Text → Reply (SocketAddr Ip)
  -- Milliseconds of the monotonic clock.
  pub now : E → ℕ
  pub sleep : ℕ → E → E

-- src/provider.rs: how long and how often a record is polled, in milliseconds.
pub record PropagationTiming : Type 0 where
  pub timeout : ℕ
  pub interval : ℕ

abbrev pub default_timing : PropagationTiming
default_timing = record { timeout = 120000; interval = 5000 }

abbrev pub default_resolvers : List Text
default_resolvers = text "1.1.1.1:53" ∷ text "8.8.8.8:53" ∷ []
