-- ===== src/Gateway.antt =====
-- The gateway daemon: packages/brewva-gateway/src/daemon.
pub mod Admission
