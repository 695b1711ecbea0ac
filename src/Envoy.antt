-- ===== src/Envoy.antt =====
-- The access log server of pkg/envoy_access_log_server: what it makes of log entries.
pub mod Common
pub mod Entries
pub mod Server
