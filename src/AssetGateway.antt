-- ===== src/AssetGateway.antt =====
-- services/asset_gateway: which backend a connection is proxied to; and the table of routes, which
-- services/orchestrator/runtime_routes.py writes.
pub mod Select
pub mod Isolated
pub mod Load
pub mod Upsert
pub mod Ports
pub mod Bounds
pub mod Table
pub mod RouteKeys
pub mod Preserved
pub mod Chosen
pub mod Upgrade
pub mod Tests
