-- ===== src/Pipeline.antt =====
-- The controller (services/controller) and the orchestrator (services/orchestrator) together: a tick,
-- and the apply of its actions, as scripts/runtime/adaptive_controller_loop.py chains them.
pub mod Entitled
pub mod Tests
