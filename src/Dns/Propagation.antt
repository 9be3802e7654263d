-- ===== src/Dns/Propagation.antt =====
-- src/dns/propagation.rs: the nameservers to poll, and the poll for a TXT value.
use cheti.Prelude.{
  ℕ, Bool, true, false, ◌||◌, ◌&&◌, Option, some, List, [], ◌∷◌, ◌++◌, map, any, ◌==◌, ltb,
  if◌then◌else◌,
}
use cheti.Text.{Text, text, text_eq, is_empty, trim_end_matches, to_ascii_lowercase}
use cheti.Text.Utf8.{encode}
use cheti.Error.{Result, ok, err, resolver, ◌>>=◌ as and_then}
use cheti.Exec.{Exec, pure, lift, ◌>>=◌}
use cheti.Dns.Client.{
  Reply, answered, failed, txt_type, ns_type, RData, txt, ns, another, SocketAddr, Client,
  PropagationTiming,
}
use cheti.Dns.Poll.{poll_until_all_confirm}
use cheti.Dns.Zone.{find_zone, resolver_error}

-- `&str` in the order of their bytes, which is the order of their characters.
abbrev pub text_le : Text → Text → Bool
text_le [] t = true
text_le (c ∷ s) [] = false
text_le (c ∷ s) (d ∷ t) = ltb c d || (c == d && text_le s t)

-- `Vec::sort`: names that compare equal are the same, so any sort gives this list.
pub insert_sorted : Text → List Text → List Text
insert_sorted n [] = n ∷ []
insert_sorted n (m ∷ ms) =
    let rest = insert_sorted n ms in if text_le n m then n ∷ m ∷ ms else m ∷ rest

unfoldable pub sort : List Text → List Text
unfolding insert_sorted
sort [] = []
sort (n ∷ rest) = insert_sorted n (sort rest)

-- `Vec::dedup`: of equal neighbours only the first stays.
abbrev dedup_onto : Text → List Text → List Text
dedup_onto n [] = n ∷ []
dedup_onto n (m ∷ ms) = if text_eq n m then m ∷ ms else n ∷ m ∷ ms

unfoldable pub dedup : List Text → List Text
dedup [] = []
dedup (n ∷ rest) = dedup_onto n (dedup rest)

abbrev ns_name : RData → List Text → List Text
ns_name (ns name) rest = to_ascii_lowercase name ∷ rest
ns_name (txt strings) rest = rest
ns_name another rest = rest

ns_names : List RData → List Text
ns_names [] = []
ns_names (r ∷ rs) = ns_name r (ns_names rs)

abbrev txt_matches : Text → RData → Bool
txt_matches expected (txt strings) = any (λ bytes. text_eq bytes (encode expected)) strings
txt_matches expected (ns name) = false
txt_matches expected another = false

abbrev any_matches : Text → Reply (List RData) → Bool
any_matches expected (answered rs) = any (txt_matches expected) rs
any_matches expected (failed m) = false

module _ {E R Ip : Type 0} (c : Client E R Ip) where
  build_resolver : List (SocketAddr Ip) → Exec E R
  build_resolver addrs e =
      let built = c.builder_with_config addrs e in
      (resolver_error (text "resolver build: ") built.0, built.1)

  -- One nameserver: skipped if its name does not resolve, or to nothing.
  add_nameserver : List R → Reply (List Ip) → Exec E (List R)
  unfolding build_resolver
  add_nameserver servers (failed m) = pure servers
  add_nameserver servers (answered []) = pure servers
  add_nameserver servers (answered (ip ∷ ips)) = do
    r ← build_resolver (map (λ i. record { ip = i; port = 53 }) (ip ∷ ips))
    pure (servers ++ (r ∷ []))

  collect_nameservers : R → List Text → List R → Exec E (List R)
  unfolding add_nameserver
  collect_nameservers default [] servers e = (ok servers, e)
  collect_nameservers default (name ∷ names) servers e =
      let found = c.lookup_ip default name e in
      (do more ← add_nameserver servers found.0; collect_nameservers default names more) found.1

  system_resolver : Exec E R
  system_resolver e =
      let built = c.system_builder e in
      elim (resolver_error (text "system resolver init: ") built.0) [
        | err x ↦ (err x, built.1)
        | ok u ↦
            let made = c.system_build built.1 in
            (resolver_error (text "system resolver build: ") made.0, made.1)
      ]

  lookup_ns : R → Text → Exec E (List RData)
  lookup_ns default zone e =
      let answer = c.lookup default zone ns_type e in
      (resolver_error (text "NS lookup for " ++ (zone ++ text ": ")) answer.0, answer.1)

  pub authoritative_nameservers : Text → Exec E (List R)
  unfolding system_resolver lookup_ns ns_names collect_nameservers
  authoritative_nameservers fqdn = do
    zone ← find_zone c fqdn
    default ← system_resolver
    answers ← lookup_ns default zone
    servers ← collect_nameservers default (dedup (sort (ns_names answers))) []
    if is_empty servers
        then lift (err (resolver (text "no authoritative NS found for zone " ++ zone)))
        else pure servers

  parse_resolvers : List Text → Result (List (SocketAddr Ip))
  parse_resolvers [] = ok []
  parse_resolvers (addr ∷ addrs) =
      and_then
        (resolver_error (text "invalid resolver address " ++ (addr ++ text ": "))
          (c.parse_addr addr))
        (λ a. and_then (parse_resolvers addrs) (λ rest. ok (a ∷ rest)))

  pub serves_value : Text → Text → R → E → Bool × E
  serves_value fqdn expected r e =
      let answer = c.lookup r fqdn txt_type e in (any_matches expected answer.0, answer.1)

  -- The authoritative nameservers, or one resolver over the fallback addresses.
  pub targets : Text → List Text → Exec E (List R)
  unfolding parse_resolvers build_resolver
  targets fqdn fallback e =
      let found = authoritative_nameservers fqdn e in
      elim found.0 [
        | ok servers ↦ (ok servers, found.1)
        | err x ↦
            (do addrs ← lift (parse_resolvers fallback); r ← build_resolver addrs; pure (r ∷ []))
              found.1
      ]

  -- `none`: the fuel of the poll ran out.
  pub wait_for_propagation :
      ℕ → Text → Text → List Text → PropagationTiming → E → Option (Result (Unit {0}) × E)
  unfolding targets
  wait_for_propagation fuel fqdn expected fallback timing e =
      let name = trim_end_matches b'.' fqdn in
      let chosen = targets name fallback e in
      elim chosen.0 [
        | err x ↦ some (err x, chosen.1)
        | ok servers ↦
            poll_until_all_confirm (serves_value name expected)
              (record { now = c.now; sleep = c.sleep }) fuel servers fqdn timing chosen.1
      ]
