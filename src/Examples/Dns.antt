-- ===== src/Examples/Dns.antt =====
-- Runs of the poll and of the search for a zone of src/dns.
use cheti.Prelude.{
  ℕ, ◌+◌, ◌≡◌, refl, arith, some, List, [], ◌∷◌, Bool, true, false, leb, all, All, ◌≤◌,
}
use cheti.Text.{Text, text_eq, join, trim_end_by, trim_end_matches}
use cheti.Text.Utf8.{byte_length, len_utf8}
use cheti.Error.{Result, ok}
use cheti.Common.Validate.Hostname.{IsHostname, IsLabel}
use cheti.Common.Validate.{is_allowed}
use cheti.Dns.Client.{Reply, answered, failed, RData, another, Client, PropagationTiming}
use cheti.Dns.Poll.{Clock, check_all, poll_loop, poll_until_all_confirm}
use cheti.Dns.Poll.Termination.{poll_until_all_confirm_ends}
use cheti.Dns.Poll.Confirmed.{recorded, recorded_clock, Shown, poll_until_all_confirm-Shown}
use cheti.Dns.Zone.{find_zone, shared_resolver, has_answer}
use cheti.Dns.Zone.Nearest.{nearest, or_not_found, find_zone-nearest}

-- A target confirms from the time on that it names; the world is the time.
abbrev check : ℕ → ℕ → Bool × ℕ
check target e = (leb target e, e)

abbrev clock : Clock ℕ
clock = record { now = λ e. e; sleep = λ d e. e + d }

abbrev timing : PropagationTiming
timing = record { timeout = 3000; interval = 1000 }

abbrev targets : List ℕ
targets = 500 ∷ 0 ∷ 1500 ∷ []

abbrev poll_log : List (ℕ × Bool)
poll_log =
    (1500, true) ∷ (1500, false) ∷ (500, true) ∷ (1500, false) ∷ (0, true) ∷ (500, false) ∷ []

run_poll :
    poll_until_all_confirm (recorded check) (recorded_clock clock) 4 targets [] timing (0, [])
    ≡ some (ok tt, (2000, poll_log))
unfolding poll_until_all_confirm poll_loop check_all
run_poll = refl

poll_until_all_confirm-Shown_example :
    Shown check clock [] timing 0 targets (ok tt) (2000, poll_log)
poll_until_all_confirm-Shown_example =
    poll_until_all_confirm-Shown check clock [] timing 4 targets 0 (ok tt) (2000, poll_log) run_poll

poll_until_all_confirm_ends_example :
    (r : Result (Unit {0})) × (e' : ℕ) × (poll_until_all_confirm check clock 3001 targets [] timing
        0
      ≡ some (r, e'))
poll_until_all_confirm_ends_example =
    poll_until_all_confirm_ends check clock (λ t e. omega arith) (λ d e. omega arith) [] timing 3001
      targets 0 (omega arith) (omega arith)

-- `a.b` has an SOA record, and no other name.
abbrev label_a : Text
label_a = b'a' ∷ []

abbrev label_b : Text
label_b = b'b' ∷ []

abbrev zone : Text
zone = b'a' ∷ b'.' ∷ b'b' ∷ []

abbrev fqdn : Text
fqdn = b'b' ∷ b'.' ∷ b'a' ∷ b'.' ∷ b'b' ∷ b'.' ∷ []

abbrev has_soa : Text → Bool
has_soa name = text_eq name zone

abbrev soa_answer : Bool → Reply (List RData)
soa_answer true = answered (another ∷ [])
soa_answer false = failed []

abbrev pub client : Client ℕ ℕ ℕ
client = record {
  system_builder = λ e. (answered tt, e);
  system_build = λ e. (answered 0, e);
  cached = λ e. some 0;
  cache = λ r e. (r, e);
  lookup = λ r name type e. (soa_answer (has_soa name), e);
  lookup_ip = λ r name e. (answered [], e);
  builder_with_config = λ addrs e. (answered 0, e);
  parse_addr = λ s. failed [];
  now = λ e. e;
  sleep = λ d e. e + d;
}

IsLabel-ok : (c : ℕ) → byte_length (c ∷ []) ≡ 1 → all is_allowed (c ∷ []) ≡ true → IsLabel (c ∷ [])
IsLabel-ok c l a = record {
  lower_bound = omega (arith, l);
  upper_bound = omega (arith, l);
  characters = a;
}

labels_ok : All IsLabel (label_b ∷ label_a ∷ label_b ∷ [])
unfolding byte_length len_utf8
labels_ok =
    (IsLabel-ok b'b' refl refl, (IsLabel-ok b'a' refl refl, (IsLabel-ok b'b' refl refl, tt)))

spelled_ok : trim_end_matches b'.' fqdn ≡ join b'.' (label_b ∷ label_a ∷ label_b ∷ [])
unfolding trim_end_by join
spelled_ok = refl

short_ok : byte_length (trim_end_matches b'.' fqdn) ≤ 253
unfolding trim_end_by byte_length len_utf8
short_ok = omega arith

abbrev fqdn-IsHostname : IsHostname (trim_end_matches b'.' fqdn)
fqdn-IsHostname = record {
  first = label_b;
  others = label_a ∷ label_b ∷ [];
  spelled = spelled_ok;
  labels = labels_ok;
  short = short_ok;
}

client_agrees :
    (r : ℕ) (name : Text) (e : ℕ) → has_answer (soa_answer (has_soa name)) ≡ has_soa name
client_agrees r name e = go (has_soa name)
  where
    go : (b : Bool) → has_answer (soa_answer b) ≡ b
    go true = refl
    go false = refl

shared_client : shared_resolver client 0 ≡ (ok 0, 0)
unfolding shared_resolver
shared_client = refl

find_zone-nearest_example :
    (find_zone client fqdn 0).0
    ≡ or_not_found fqdn (nearest has_soa (label_b ∷ label_a ∷ label_b ∷ []))
find_zone-nearest_example =
    find_zone-nearest client has_soa client_agrees 0 fqdn 0 0 fqdn-IsHostname shared_client
