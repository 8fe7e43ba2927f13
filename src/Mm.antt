-- ===== src/Mm.antt =====
-- Memory management, mm/ of the kernel.
pub mod SizeClass
pub mod SlabApi
pub mod Pages
pub mod Slab
pub mod Words
pub mod PageTable
pub mod UserCopy
pub mod TableCopy
