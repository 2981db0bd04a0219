-- ===== src/Cmd/Change.antt =====
-- src/cmd/site/change.cpp: SITE CHANGE, which sets one field of the accounts that a mask names.
pub mod Apply
pub mod Assertions
pub mod Bounds
pub mod Checks
pub mod Fields
pub mod Flags
pub mod Gadmins
pub mod Table
pub mod Tests
pub mod Values
