-- ===== src/Feedback.antt =====
-- The reveal feedback of scripts/runtime/adaptive_controller_loop.py: what later evidence makes of a reveal.
pub mod Outcomes
pub mod Update
pub mod Tally
pub mod Settled
pub mod Waiting
pub mod Once
mod Tests
