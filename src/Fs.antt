-- ===== src/Fs.antt =====
-- src/fs: the file system, as far as it decides without asking the kernel.
pub mod Mode
