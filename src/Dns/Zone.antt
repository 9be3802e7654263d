-- ===== src/Dns/Zone.antt =====
-- src/dns/zone.rs: the walk from a name to its zone.
pub mod Nearest
use cheti.Prelude.{
  ℕ, zero, suc, Bool, true, false, not, ◌||◌, Option, none, some, List, [], ◌∷◌, ◌++◌, length, ◌==◌,
  if◌then◌else◌,
}
use cheti.Text.{Text, text, is_empty, contains, split_once, trim_end_matches}
use cheti.Error.{Result, ok, err, zone_not_found, resolver}
use cheti.Exec.{Exec, ◌>>=◌}
use cheti.Dns.Client.{Reply, answered, failed, RecordType, soa_type, RData, Client}

-- `str::starts_with` of a character.
abbrev pub starts_with_dot : Text → Bool
starts_with_dot [] = false
starts_with_dot (c ∷ s) = c == b'.'

-- `map_err` of a foreign error into `DnsError::Resolver`.
abbrev pub resolver_error {ℓ} : {A : Type ℓ} → Text → Reply A → Result A
resolver_error label (answered a) = ok a
resolver_error label (failed m) = err (resolver (label ++ m))

abbrev pub has_answer : Reply (List RData) → Bool
has_answer (answered rs) = not (is_empty rs)
has_answer (failed m) = false

abbrev pub parent_of : Option (Text × Text) → Option Text
parent_of none = none
parent_of (some (label, rest)) = if is_empty rest || starts_with_dot rest then none else some rest

-- What is left of a candidate for the next turn; `none` ends the walk.
pub parent : Text → Option Text
parent candidate = parent_of (split_once b'.' candidate)

module _ {E R Ip : Type 0} (c : Client E R Ip) where
  unfoldable pub build_shared : Exec E R
  build_shared e =
      let built = c.system_builder e in
      elim (resolver_error (text "read system DNS configuration: ") built.0) [
        | err x ↦ (err x, built.1)
        | ok u ↦
            let made = c.system_build built.1 in
            elim (resolver_error (text "build system DNS resolver: ") made.0) [
              | err x ↦ (err x, made.1)
              | ok r ↦ let kept = c.cache r made.1 in (ok kept.0, kept.1)
            ]
      ]

  unfoldable pub shared_resolver : Exec E R
  unfolding build_shared
  shared_resolver e = elim (c.cached e) [ some r ↦ (ok r, e) | none ↦ build_shared e ]

  -- The loop. Each turn drops at least one character, so the fuel, the length of the first
  -- candidate, runs out on the empty candidate only, where the loop ends with this error too.
  pub walk : R → Text → ℕ → Text → Exec E Text
  walk r fqdn zero candidate e = (err (zone_not_found fqdn), e)
  walk r fqdn (suc fuel) candidate e =
      if is_empty candidate || not (contains b'.' candidate)
      then (err (zone_not_found fqdn), e)
      else (let answer = c.lookup r candidate soa_type e in
          if has_answer answer.0 then (ok candidate, answer.1) else elim (parent candidate) [
            | none ↦ (err (zone_not_found fqdn), answer.1)
            | some rest ↦ walk r fqdn fuel rest answer.1
          ])

  pub find_zone : Text → Exec E Text
  unfolding shared_resolver
  find_zone fqdn = do
    r ← shared_resolver
    walk r fqdn (length (trim_end_matches b'.' fqdn)) (trim_end_matches b'.' fqdn)
