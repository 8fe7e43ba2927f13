-- ===== src/Sync.antt =====
-- The locks of kernel/spinlock.c and kernel/sleeplock.c.
pub mod Spinlock
pub mod Sleeplock
