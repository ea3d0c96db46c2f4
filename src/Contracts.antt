-- ===== src/Contracts.antt =====
-- libs/contracts/models.py: the records that the services exchange. A time is a number of
-- microseconds. The pydantic base (schema version, refusal of extra fields) is left out, and so are
-- the defaults, which every model value writes out.
pub mod Bindings
pub mod Assets
pub mod Actions
pub mod Evidence
pub mod Entrypoint
