-- ===== src/Providers.antt =====
-- The DNS providers of src/providers.
pub mod Http
pub mod Writes
pub mod Records
pub mod Sets
pub mod Contract
pub mod Gandi
pub mod PowerDns
pub mod DigitalOcean
pub mod Cloudflare
pub mod Hetzner
pub mod Scaleway
pub mod Desec
