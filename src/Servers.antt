-- ===== src/Servers.antt =====
-- internal/servers: the gRPC servers.
pub mod Tenants
pub mod Generic
pub mod Labels
mod Examples
