-- ===== src/Binding.antt =====
-- services/binding_service: sticky bindings of an attacker to a backend.
pub mod Repository
pub mod Service
pub mod Lookup
pub mod Current
pub mod Sticky
pub mod Unlocks
pub mod Invariant
pub mod Extends
pub mod History
pub mod Holder
mod Tests
