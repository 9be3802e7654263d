-- ===== src/Dns.antt =====
-- src/dns: zone lookup and propagation polling, and the DNS client that both use.
pub mod Client
pub mod Poll
pub mod Zone
pub mod Propagation
