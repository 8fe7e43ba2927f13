-- ===== src/Lib.antt =====
-- A verification library for loeux, a RISC-V kernel written in C. It models components of the
-- kernel as functions on explicit states and proves what makes them correct. A call of the kernel
-- has an outcome (Base/Results): a value, `halt` (panic with PANIC_ERROR, which never returns) or
-- `spin` (a loop that never ends).
--
-- The parts, with the code that they model:
--
--   Base: shared names, Boolean tests on native numbers, arrays as lists, outcomes.
--
--   Sync/Spinlock: kernel/spinlock.c. `take` and `drop` are acquire and release without the
--     interrupt nesting, `push_off` and `pop_off` the nesting, `acquire` and `release` both. Each
--     is composed of the check, the exchange and the stores that it makes. Steps has the calls of
--     many harts interleaved by these parts, and Exclusion what follows for them; Interrupts is
--     about one hart.
--
--   Sync/Sleeplock: kernel/sleeplock.c. The nodes of the wait queue are numbers, with their
--     links. `acquire_turn` is one turn of the loop of acquire_sleep under the spinlock, the part
--     between two switches of the task. Ring and Waiting are about the queue, Progress about tasks
--     that contend. A task's own lock is left out: it is held from before the task sleeps until it
--     has left its processor.
--
--   User/Malloc, Syscall: malloc and free of user/malloc.c over sys_sbrk of
--     kernel/syscall_impl.c. A block is named by its address, and `sbrk` is an argument of malloc.
--     Chain has the links and sizes of a list of blocks; Merge has two blocks that become one,
--     Free and Freed the loops of free, Laws malloc over any lawful sbrk, Grow over sys_sbrk. The
--     loops are on fuel, one round for each block.
--
--   User/Stdio: numbers in user/stdio.c, int_to_str of printf and scanf_read_integer of scanf
--     for %d. The standard input is the list of the characters that read will give. int_digits has
--     fuel for 64 digits, and a 64-bit number has 20.
--
--   User/Execvp: execvp of user/ulib.c over the system call exec, a parameter. The loop is on
--     fuel, one round for each directory of the path, which is an argument.
--
--   Mm/SlabApi: what mm/slab.c offers to clients: allocation (NULL above 4096 bytes) and freeing
--     of slab objects. It is a parameter of the hash table. A run in which the allocator itself
--     panics, because no page is left for its own metadata, is outside this interface.
--
--   Mm/Pages: alloc_page and free_page of mm/memory.c, with the page array, the doubly linked
--     free list, the reference counts and the cleared bytes. Queue says which links a list of
--     pages has; Laws proves that the allocator is a queue.
--
--   Mm/Words, Mm/PageTable: the page tables of mm/vm.c (Sv39) as words of the memory of
--     Mm/Pages. View says which entry the tables have for an address; Shape which memories are
--     well-formed tables, with a ghost record of the level of each table; Fresh, Grow and Leaf
--     what the writes of pte_walk and of its callers do to that view; Mapping, Unmap, Boot and
--     Translate the operations. A table entry is a number; `|` of flags with an aligned address is
--     a sum.
--
--   Mm/UserCopy: page faults and the copies to and from a user, in mm/vm.c. The loops are on
--     fuel, one round for each byte to copy, and each round copies a byte at least. The source of
--     copy_to_user is a function from offsets to bytes, the destination of the other copies the
--     list of the bytes that they wrote. A read through the null pointer stops the kernel.
--
--   Mm/TableCopy: vm_pagetbl_copy and vm_pagetbl_copy_asign of mm/vm.c. Frame says what the
--     operations leave alone, so that the tables of two tasks can be told apart; OnePage has one
--     page, Laws the loop.
--
--   Mm/SizeClass, Mm/Slab: mm/slab.c over Mm/Pages. A `slab_t` is named by its address; `links`
--     is the first word of every free object and free `slab_t`, which is all the allocator reads
--     there. SizeClass has the rounding and `__ctzdi2`; Carve the lists through a page, Objects
--     allocation and freeing, Storage the page of a new slab. The loop of slab_alloc is on fuel,
--     one round for each slab of the class that it passes.
--
--   HashMap: utils/hashmap.c. Keys has the built-in functions and the rounding of the size,
--     Chain one conflict chain, Buckets the array and the move to a new one, Table the operations,
--     Life creation and destruction. Client operations take `ht` as an optional table (NULL is
--     `none`); the `_in` functions are the operations on a table, and the `_locked` ones their
--     critical sections, at the bucket index that the code computes beforehand. `panic_wrong` only
--     prints, so it is not an outcome.
--
--   Drivers/Keyboard: the ring of characters of drivers/keyboard.c under its lock, the key maps
--     and handle_key. Ring proves that the ring is a queue, Layout is a US keyboard by its rows,
--     and Typing says what an event adds to the ring. The state is that of the one keyboard with
--     `kb_buf_lk`.
--
--   Drivers/Tty: drivers/tty.c. `TtyOps` are the operations of the terminal under a session, a
--     parameter. Line has the line that is edited, Read and Write the system calls. A read and a
--     write are modelled without others in between.
--
--   Fs: fs/vfs.c. Permission has vfs_permission; Mounts the mount tree as the first-child and
--     next-sibling links make it, with vfs_find_mount, vfs_find_mount_exact and what vfs_mount
--     does to the tree once it has a super block. Its failures before that are not modelled.
--     Deepest is about trees whose mounts are nested. Descriptors has the descriptors of one task
--     and the counts of its files under their sleep locks; what other tasks hold is a number for
--     each file. FileLock has one count under its lock, Open the entries of the task under its
--     own, Busy a file that another task reads or writes.
--
--   Tests: runs on small inputs and the theorems at inputs that meet their hypotheses.
--
-- A component that holds its own lock takes it and releases it in the model too, so that a theorem
-- that a call returns says that the lock is free at the end. Between two harts the operations are
-- atomic where the code holds the lock throughout; the one exception, the stale bucket index, is a
-- theorem.
--
-- Bounds and fuel: 32-bit arithmetic wraps as in the code. The rounding loop has 32 rounds of
-- fuel, after which its value has left the 32 bits for good. The loop of tty_cdev_read, which ends
-- only when a line comes, is on fuel: one round for each character and one for the line. Every
-- other loop is a recursion on the list that it walks.
--
-- Not modelled: the boot path, traps, device registers, the rest of the file systems and of the
-- system calls, user programs but for malloc, free, execvp and the numbers of stdio, and the set-
-- up of the page array.
pub mod Base
pub mod Drivers
pub mod Fs
pub mod HashMap
pub mod Mm
pub mod Sync
pub mod Syscall
pub mod Tests
pub mod User
