-- ===== src/Proxy.antt =====
-- hostd/src/proxy: what the proxy reads of a connection before it forwards it.
pub mod Startup
pub mod Options
pub mod Target
