-- ===== src/Service.antt =====
-- cmd/server: the service around the handler.
pub mod Dispatch
pub mod Health
pub mod Providers
pub mod Listen
pub mod Main
pub mod Probes
pub mod Startup
