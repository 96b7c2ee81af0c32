-- ===== src/Server.antt =====
-- internal/server: the HTTP control plane.
pub mod Routes
pub mod Mux
pub mod Tenancy
mod Tests
