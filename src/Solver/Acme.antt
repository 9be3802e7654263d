-- ===== src/Solver/Acme.antt =====
-- `InstantAcmeDriver` of src/solver.rs, over what it uses of instant-acme.
pub mod Targets
use cheti.Prelude.{
  ℕ, zero, suc, ◌-◌, Bool, true, false, Option, none, some, List, [], ◌∷◌, ◌++◌, length, get_elem?,
  if◌then◌else◌,
}
use cheti.Text.{Text, text, text_eq, decimal}
use cheti.Error.{
  DnsError, Result, ok, err, acme, challenge_invalid, other, no_dns01_challenge,
  unexpected_order_status, ok_or, ◌>>=◌ as and_then,
}
use cheti.Dns.Client.{Reply, answered, failed}
use cheti.Exec.{Exec, ◌>>=◌, ◌>>◌, lift, pure}
use cheti.Solver.Environment.{Challenge}

pub data AuthorizationStatus : Type 0 where
  pending valid : AuthorizationStatus
  -- Any other, as `{:?}` prints it.
  unusable : Text → AuthorizationStatus

pub data Identifier : Type 0 where
  dns : Text → Identifier
  unsupported : Text → Identifier

-- A DNS-01 challenge offered: its URL and the value of the TXT record.
pub record Offered : Type 0 where
  pub url : Text
  pub dns_value : Text

pub record Authorization : Type 0 where
  pub status : AuthorizationStatus
  pub identifier : Identifier
  pub dns01 : Option Offered

pub data OrderStatus : Type 0 where
  ready : OrderStatus
  unready : Text → OrderStatus

-- The order, in the state of the world `E`.
pub record Order (E : Type 0) : Type 0 where
  -- The authorizations of one pass: `Authorizations::next` until it ends. Reading them changes
  -- nothing that the program can see.
  pub authorizations : E → List (Reply Authorization)
  pub challenge_set_ready : Text → E → Reply (Unit {0}) × E
  pub poll_ready : E → Reply OrderStatus × E
  pub finalize : E → Reply Text × E
  pub poll_certificate : E → Reply Text × E

-- The driver's own state: the challenges (or the error that ended the collection) not yielded yet,
-- and the URLs of all of them.
pub record InstantAcmeDriver : Type 0 where
  pub queue : Option (List (Result Challenge))
  pub challenge_urls : List Text

abbrev pub new : InstantAcmeDriver
new = record { queue = none; challenge_urls = [] }

-- `map_err(|e| DnsError::Acme(e.to_string()))`.
abbrev pub acme_error {ℓ} : {A : Type ℓ} → Reply A → Result A
acme_error (answered a) = ok a
acme_error (failed m) = err (acme m)

abbrev pub status_of : AuthorizationStatus → Result Bool
status_of pending = ok true
status_of valid = ok false
status_of (unusable shown) = err (challenge_invalid shown)

abbrev pub domain_of : Identifier → Result Text
domain_of (dns d) = ok d
domain_of (unsupported shown) = err (other (text "unsupported identifier type: " ++ shown))

challenge_of : Authorization → List Text → Result (Option Challenge × List Text)
challenge_of authz urls = and_then (domain_of authz.identifier) λ domain.
    and_then (ok_or (no_dns01_challenge domain) authz.dns01) λ offered. ok (
      some (record {
        domain = domain;
        fqdn = text "_acme-challenge." ++ domain;
        dns_value = offered.dns_value;
        token = length urls;
      }),
      urls ++ (offered.url ∷ []),
    )

-- The DNS-01 challenge of a pending authorization, `none` for one that is valid, and the URLs.
pub pending_challenge : Reply Authorization → List Text → Result (Option Challenge × List Text)
unfolding challenge_of
pending_challenge result urls = and_then (acme_error result) λ authz.
    and_then (status_of authz.status)
      λ is_pending. if is_pending then challenge_of authz urls else ok (none, urls)

abbrev queue_item : Option Challenge → List (Result Challenge) → List (Result Challenge)
queue_item none queue = queue
queue_item (some c) queue = ok c ∷ queue

-- Stops at the first error, which is queued after the challenges found before it.
pub collect : List (Reply Authorization) → List Text → List (Result Challenge) × List Text
collect [] urls = ([], urls)
collect (a ∷ as') urls = elim (pending_challenge a urls) [
  | err x ↦ (err x ∷ [], urls)
  | ok (found, urls') ↦ let rest = collect as' urls' in (queue_item found rest.0, rest.1)
]

abbrev pop_front {ℓ} : {A : Type ℓ} → List A → Option A × List A
pop_front [] = (none, [])
pop_front (x ∷ xs) = (some x, xs)

-- `targets.get(token)`, for each token.
pub look_up : List Text → List ℕ → Result (List Text)
look_up urls [] = ok []
look_up urls (token ∷ tokens) =
    and_then
      (ok_or (other (text "invalid challenge token " ++ decimal token)) (get_elem? urls token))
      λ url. and_then (look_up urls tokens) λ rest. ok (url ∷ rest)

-- `iter().position(…)`.
pub position : Text → List Text → Option ℕ
position url [] = none
position url (t ∷ ts) =
    let rest = position url ts in
    if text_eq t url then some 0 else elim rest [ none ↦ none | some n ↦ some (suc n) ]

-- `swap_remove(pos)`: the last item takes the place of the one removed.
abbrev last_or {ℓ} : {A : Type ℓ} → A → List A → A
last_or x [] = x
last_or x (y ∷ ys) = last_or y ys

abbrev init {ℓ} : {A : Type ℓ} → A → List A → List A
init x [] = []
init x (y ∷ ys) = x ∷ init y ys

pub swap_remove {ℓ} : {A : Type ℓ} → ℕ → List A → List A
swap_remove pos [] = []
swap_remove zero (x ∷ []) = []
swap_remove zero (x ∷ y ∷ ys) = last_or y ys ∷ init y ys
swap_remove (suc pos) (x ∷ xs) = x ∷ swap_remove pos xs

module _ {E : Type 0} (order : Order E) where
  abbrev queue_of : InstantAcmeDriver → E → List (Result Challenge) × List Text
  queue_of driver e = elim driver.queue [
    | some queue ↦ (queue, driver.challenge_urls)
    | none ↦ collect (order.authorizations e) driver.challenge_urls
  ]

  pub next_dns01 : InstantAcmeDriver × E → Option (Result Challenge) × (InstantAcmeDriver × E)
  unfolding collect
  next_dns01 (driver, e) =
      let found = queue_of driver e in
      let popped = pop_front found.0 in
      (popped.0, (record { queue = some popped.1; challenge_urls = found.1 }, e))

  -- `set_ready` of one challenge, if it is among the targets that are left.
  set_target : Offered → Option ℕ → List Text → Exec E (List Text)
  set_target offered none targets e = (ok targets, e)
  set_target offered (some pos) targets e =
      let answer = order.challenge_set_ready offered.url e in
      (and_then (acme_error answer.0) (λ u. ok (swap_remove pos targets)), answer.1)

  set_authorization : Option Offered → List Text → Exec E (List Text)
  unfolding set_target
  set_authorization none targets = pure targets
  set_authorization (some offered) targets =
      set_target offered (position offered.url targets) targets

  pub set_targets : List (Reply Authorization) → List Text → Exec E (List Text)
  unfolding set_authorization
  set_targets [] targets e = (ok targets, e)
  set_targets (a ∷ as') targets e =
      (do
        authz ← lift (acme_error a)
        rest ← set_authorization authz.dns01 targets
        set_targets as' rest)
        e

  abbrev all_set : List Text → Result (Unit {0})
  all_set [] = ok tt
  all_set (url ∷ urls) = err (other (text "challenge " ++ (url ++ text " disappeared from order")))

  pub set_ready : List ℕ → InstantAcmeDriver × E → Result (Unit {0}) × (InstantAcmeDriver × E)
  unfolding set_targets look_up
  set_ready tokens (driver, e) =
      let done =
        (do
          targets ← lift (look_up driver.challenge_urls tokens)
          rest ← set_targets (order.authorizations e) targets
          lift (all_set rest))
          e in
      (done.0, (driver, done.1))

  abbrev status_ready : OrderStatus → Result (Unit {0})
  status_ready ready = ok tt
  status_ready (unready shown) = err (unexpected_order_status shown)

  abbrev call : {A : Type 0} → (E → Reply A × E) → Exec E A
  call f e = (acme_error (f e).0, (f e).1)

  -- The certificate chain and the private key.
  pub finalize_order : Exec E (Text × Text)
  finalize_order = do
    status ← call order.poll_ready
    lift (status_ready status)
    private_key_pem ← call order.finalize
    cert_chain_pem ← call order.poll_certificate
    pure (cert_chain_pem, private_key_pem)
