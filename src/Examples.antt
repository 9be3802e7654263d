-- ===== src/Examples.antt =====
-- Concrete runs of the program, and the theorems about it applied to them.
pub mod Solver
pub mod TlsAlpn
pub mod Dns
pub mod Common
pub mod Locks
pub mod Renewal
pub mod Gandi
pub mod PowerDns
pub mod Stores
pub mod Scaleway
pub mod Desec
pub mod RecordStore
pub mod DigitalOcean
pub mod Cloudflare
pub mod Hetzner
pub mod AccountStore
