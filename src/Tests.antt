-- ===== src/Tests.antt =====
-- Runs of the model on small inputs, and the theorems at inputs that meet their hypotheses.
mod HashMap
mod Pages
mod Locks
mod Drivers
mod Slab
mod Fs
mod Descriptors
mod PageTables
mod UserMemory
mod SleepLocks
mod TableCopies
mod Malloc
mod Stdio
mod Execvp
