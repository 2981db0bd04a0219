-- ===== src/Ftp.antt =====
-- src/ftp: the parts of the server that clients share, and the X-DUPE replies.
pub mod Enums
pub mod Counters
pub mod Ports
pub mod Xdupe
pub mod Client
pub mod SpeedCounter
