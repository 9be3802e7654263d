-- ===== src/Lib.antt =====
-- Cheti obtains certificates from an ACME server by DNS-01 challenges: it places TXT records through
-- the API of a DNS provider, waits until the DNS serves them, tells the ACME server, fetches the
-- certificate and takes the records out again.
--
-- The parts, and the files that model them:
--
-- Solver (src/solver.rs, Dns01Solver). Solver.antt has the solver over an environment (Environment):
-- the calls to the ACME driver, the provider, the poll and the clock, which is how
-- solve_with_driver uses them. present_then_ready is place_all (the `while let` loop, place_next its
-- body), until_visible and set_ready; clean_after finalizes and runs the guard. Events wraps an
-- environment so that each call is kept in a log; Cleans, Order and Ready speak of that log, Ends
-- of runs that end, and Errors of failed cleanups. Solver/Acme.antt is InstantAcmeDriver over the calls of instant-acme.
--
-- Guard (src/cleanup.rs, CleanupGuard). Cleanup.antt is the guard as the solver runs it to its end;
-- Cleanup/Cancel.antt the same guard in single steps, where the future may be dropped between any two
-- of them (Drop) and a spawned task takes over.
--
-- TLS-ALPN (src/tls_alpn.rs, TlsAlpn01Solver). TlsAlpn.antt, over the calls of rcgen, the order of
-- instant-acme and a ChallengeResponder; present_one is the body of the loop of present_all. Events
-- keeps the calls in a log, and Cleans and Script speak of it; Built is about the certificates, Adds about
-- the log of single calls.
--
-- DNS (src/dns/propagation.rs, src/dns/zone.rs). Dns/Client.antt is what is used of the resolver,
-- Dns/Poll.antt is poll_until_all_confirm, Dns/Zone.antt find_zone, Dns/Propagation.antt the rest.
--
-- Provider helpers (src/providers/common.rs). Common/Validate.antt, Common/Names.antt,
-- Common/Body.antt and Common/Retry.antt have the functions of the same names; send_loop is the loop
-- of send_retrying. Common/Locks.antt is the lock table of KeyedMutex with the tasks that wait for a
-- lock or hold one: enter is what lock does under the lock of the table, acquire the grant, and leave
-- the drop of a guard or of a waiting task.
--
-- Gandi (src/providers/gandi.rs). Providers/Gandi.antt has the configuration and the calls;
-- add_value and remove_value are the parts of present and cleanup that run under the lock of the
-- name. What the API is relied on for is the record Server of Providers/Gandi/Server.antt: a store of
-- values by URL that no one else writes to in the meantime.
--
-- PowerDNS (src/providers/powerdns.rs). Providers/PowerDns.antt, likewise, with the walk for the zone
-- and its cache; Providers/Writes.antt is a request that reads, or that writes one item, with its
-- retries.
--
-- DigitalOcean and Cloudflare (src/providers/digitalocean.rs, src/providers/cloudflare.rs).
-- Providers/DigitalOcean.antt and Providers/Cloudflare.antt: their APIs keep one record per value, and
-- what they are relied on for is in Providers/Records.antt, with delete_each, the loop of both
-- cleanups. Deleted is one DELETE, Removes the loop of them, Adds one POST. The Listed files are about
-- the records listed; DigitalOcean's come in pages, the pages left being counted down from 49.
--
-- Hetzner (src/providers/hetzner.rs). Providers/Hetzner.antt: changes are actions of the server, which
-- wait_for_action polls; Settles is about this loop, on 61 rounds of fuel.
--
-- Scaleway and deSEC (src/providers/scaleway.rs, src/providers/desec.rs). Providers/Scaleway.antt and
-- Providers/Desec.antt: like Gandi, they read the values of a name and write them back as a whole. What
-- follows from such reads and writes alone is in Providers/Sets.antt; the Server files have what is
-- relied on of each API.
--
-- The Config files have the configuration of each of these; Gandi's is in Providers/Gandi.antt.
--
-- Providers/Contract.antt is what a provider promises: a set of values for each name. The Refined
-- files are about the calls of Gandi, PowerDNS and Scaleway against it; PowerDNS keeps disabled records,
-- which it does not serve (Served).
--
-- Renewal (src/renewal.rs). Renewal.antt, over a parser for PEM and X.509. The differences of
-- timestamps wrap at 64 bits; where exact ones are needed, timestamps are below 2^62.
--
-- Account store (src/account_store.rs). AccountStore.antt, over the calls of the file system; a path is
-- the list of its components, all of them names. AccountStore/Atomic.antt has what is relied on of the
-- file system, and keeps its state after each call in a log; AccountStore/Restored.antt is about a
-- load after a save.
--
-- Test doubles (src/testing.rs). Testing/Provider.antt and Testing/Responder.antt.
--
-- Shared: Prelude.antt (names, lists, Boolean tests, integers), Text.antt (the methods of str, over
-- lists of code points), Error.antt (src/error.rs and results), Exec.antt (calls that change the
-- world and may fail; the world comes back beside an error too). Examples.antt has concrete runs.
--
-- Loops. The loop over the challenges runs on fuel, one for each challenge and one more, the poll
-- on one for each millisecond of its timeout and one more, and Hetzner's wait on one for each second
-- of its timeout and one more; without fuel they give `none`.
-- send_retrying counts the retries that are left, the walk of find_zone the characters of the
-- candidate, so that neither runs out.
--
-- Not modelled: the other providers (src/providers/route53.rs, infomaniak.rs, ovh.rs, porkbun.rs,
-- bunny.rs, google_cloud_dns.rs, rfc2136.rs). The model of a call of
-- a provider does not take the lock of the name. Headers of requests and log output are left out.
-- Foreign crates (instant-acme, rcgen, reqwest, hickory-resolver, url, percent-encoding, x509-parser,
-- tokio) are records of the calls used.
pub mod Prelude
pub mod Text
pub mod TlsAlpn
pub mod Error
pub mod Exec
pub mod Common
pub mod Dns
pub mod Cleanup
pub mod Solver
pub mod Renewal
pub mod Providers
pub mod Testing
pub mod AccountStore
pub mod Examples
