-- ===== src/Gateway.antt =====
-- services/gateway: the route view of each binding, for the proxy.
pub mod Service
pub mod History
mod Tests
