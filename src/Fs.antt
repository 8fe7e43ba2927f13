-- ===== src/Fs.antt =====
-- The file systems, fs/ of the kernel.
pub mod Permission
pub mod Mounts
pub mod Descriptors
