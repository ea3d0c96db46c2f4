-- ===== src/Prior.antt =====
-- The technique prior of services/controller/repository.py: `FileAttackGroupTechniquePriorRepository`.
pub mod Groups
pub mod Recommend
pub mod Unseen
pub mod Tests
