-- ===== src/Acl.antt =====
-- Access control, src/acl: rules, users, groups, path permissions, strengths, and the lookups in
-- the configuration.
pub mod Rules
pub mod User
pub mod Group
pub mod Config
pub mod Access
pub mod Strength
pub mod Misc
