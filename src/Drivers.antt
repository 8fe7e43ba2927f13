-- ===== src/Drivers.antt =====
-- Device drivers, drivers/ of the kernel.
pub mod Keyboard
pub mod Tty
