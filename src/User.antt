-- ===== src/User.antt =====
-- The user programs and their library, user/ of the repository.
pub mod Execvp
pub mod Malloc
pub mod Stdio
