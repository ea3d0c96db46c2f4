-- ===== src/Orchestrator.antt =====
-- services/orchestrator: carrying out the controller's actions.
pub mod Runtime
pub mod Routes
pub mod Steps
pub mod Service
pub mod Prewarm
pub mod Follows
pub mod Applied
pub mod Promise
pub mod Updates
pub mod Tests
