-- ===== src/Profiler.antt =====
-- services/profiler: from the events of the sensors to the evidence and the profile of an attacker.
pub mod Tags
pub mod Events
pub mod Summary
pub mod Context
pub mod Repeats
pub mod Profile
pub mod Newest
pub mod Shown
pub mod Window
pub mod Service
pub mod Coherent
pub mod Tests
