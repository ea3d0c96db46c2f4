-- ===== src/Controller.antt =====
-- services/controller: which asset or configuration to expose next.
pub mod Settings
pub mod Signals
pub mod Gates
pub mod Upgrades
pub mod Variants
pub mod Options
pub mod Gain
pub mod Scores
pub mod Order
pub mod Records
pub mod Decisions
pub mod Tick
pub mod Selection
pub mod Eligible
pub mod Admission
pub mod Admitted
pub mod Candidates
pub mod Reveals
pub mod Opens
pub mod Guarantees
pub mod Explore
pub mod Best
pub mod Complete
pub mod Events
pub mod Tests
