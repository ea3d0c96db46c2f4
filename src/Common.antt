-- ===== src/Common.antt =====
-- libs/common: the helpers that the services share.
pub mod Iterables
pub mod Dict
pub mod Table
pub mod Floats
pub mod Text
pub mod Sorting
pub mod Attack
pub mod Json
pub mod Numbers
pub mod Clock
pub mod JsonStore
pub mod Tests
