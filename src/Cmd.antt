-- ===== src/Cmd.antt =====
-- src/cmd: the commands of a client.
pub mod Rfc
pub mod Change
pub mod Nuking
pub mod Grpchange
pub mod Site
