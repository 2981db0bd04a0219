-- ===== src/Util.antt =====
-- The helpers of util/util that the other parts call.
pub mod Wildcard
pub mod Passwd
pub mod FilePath
pub mod Segments
pub mod Map
