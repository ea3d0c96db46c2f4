-- ===== src/Entrypoint.antt =====
-- services/entrypoint: the HTTP requests that reach the honeynet, and the rules that make evidence of them.
pub mod Conditions
pub mod Holds
pub mod Truth
pub mod Rules
pub mod Matched
pub mod Redact
pub mod Hidden
pub mod Service
pub mod Capture
mod Tests
