-- ===== src/Acl/User.antt =====
-- src/acl/user.cpp, user.hpp and userdata.hpp: the account of a user.
pub mod Data
pub mod GidList
pub mod Groups
pub mod Flags
pub mod Tests
pub mod Masks
pub mod Password
