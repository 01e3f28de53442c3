-- ===== src/Lib.antt =====
-- ATMKoala: a model of the kernel's core in the form of its sources, and theorems on it.
--
-- The parts of the program that are modelled, and where:
--   src/sched.c, src/sched.h (Kernel, Sched): the task table, the circular run queue through the `next`
--     links, sleeping, blocking, the timer tick, exit, wait, signals and process groups. The globals
--     of sched.c and the pipe pool are one record `Kernel`; a task pointer is its slot in
--     `task_pool`. The function that clears the descriptors of a dying task
--     (`native_fd_task_cleanup` and its kin) is a parameter of Sched/Exit.
--   src/native_pipe.c (Pipe): the pool of byte rings, the descriptors, and one round of the loops of
--     `native_pipe_read` and `native_pipe_write`; a round wakes a waiter by `task_unblock` of sched.c.
--   src/kmalloc.c (Heap): the first-fit allocator over a memory of block headers. The specification is
--     first fit over a list of blocks that tile the heap (Heap/Blocks).
--   src/paging.c, src/paging.h (Paging): page tables over a memory that holds the heap's block headers,
--     the 64-bit words of blocks by the block's address, and bytes by physical address. Pages and
--     tables come from Heap. The words of the tables and the bytes of user pages are apart: a page
--     that lies over a table does not change it here.
--   src/uaccess.c (Paging/Uaccess): the copies between kernel and user memory, page by page over the
--     translation of Paging.
--   src/config.c, src/config.h (Config): sections of keys and values with their lookup and setting, the
--     parser of configuration text and the printer.
--   src/users.c, src/users.h (Users): the account table, the session, the SHA-256 of passwords
--     (Users/Sha256) and their comparison, the operations on accounts (Users/Ops), and the loading of the table from its file
--     (Users/Load), which is read by Config. The calls of the file system are the interface `Files`.
--   src/atm_time.c, src/tzif.c (Time): the calendar between seconds and dates, and the weekday rules.
--   src/elf.c, src/elf.h (Elf): the loader of 64-bit programs into a space of Paging.
--   src/net_tcp.c, src/net_tcp.h (Tcp): receiving with the queue of early segments, sending with the window
--     and the tries, closing. The calls of src/net.c are the interface `Link`; frames are records of
--     their fields, and those that come in during a wait are a list.
--   src/partmgr.c, src/partmgr.h (Partmgr): MBR partition tables in memory.
--   src/catfs.c, src/catfs.h (Catfs): the bitmap, the journal records, the writing of metadata
--     (Catfs/Disk), lookup (Catfs/Path), create, unlink, rename and chmod (Catfs/Ops), the blocks of
--     files with read, write and truncate (Catfs/Data), formatting and syncing
--     (Catfs/Volume). The sector transfers of src/disk.c are the parameter `DiskOps`, which may fail at any transfer and is assumed to do nothing else; the
--     time is a parameter.
--
-- Base holds the names that all share: those of the libraries, Boolean tests, arrays as functions,
-- searches and lists. Machine integers are natural numbers with the wrap-around of their width
-- written out where the source can reach it; an `int` that is an index or -1 is an option or ℤ.
--
-- Bounds. The walks of sched.c have the bound `TASK_MAX` of the source, those of `kmalloc` and `coalesce`
-- the bound `HEAP_WALK_MAX`; the theorems on them show that these are enough. The search of the
-- tick for the next task has no bound in the source; here it has `TASK_MAX` rounds, and the
-- theorem on `sched_tick` shows that it ends within them. `heap_free_bytes` has the number of
-- rounds as an argument, and the theorem asks for more than there are blocks. The walk of
-- `catfs_lookup` has as many rounds as the path has bytes, of which each round takes one. The walk of
-- `catfs_rename` to the root has 257 rounds; one that needs more meets an inode twice. The loops of
-- `catfs_read` and `catfs_write` have as many rounds as bytes are asked for. The walk of
-- `paging_user_range` has as many rounds as the user window has pages, and the theorem on it shows
-- that this is enough. The copies of uaccess.c have one round more than bytes, and one takes a byte
-- at least. `next_uid` has one round more than there are accounts; the theorem on it shows that the
-- search ends within them. The years of a date are counted for as many rounds as there are days; the
-- theorem on times asks for seconds between -2 ^ 47 and 2 ^ 47, for which an `int` holds the years.
--
-- Not modelled: the context switch and the saved registers, port input and output, the printing of
-- tables, self tests, the transfer of a partition table to its sector, the mounting and checking of
-- CatFS, the flushing of the TLB, zones and hardware clocks, 32-bit programs, the paths of the
-- configuration files, TCP's handshake and the bytes and checksums of frames. The names and
-- paths of CatFS are lists of bytes, so the sizes of the buffers that `catfs_create` copies them to are
-- not seen; a string that does not fit its array in config.c sets a mark, and what the arrays hold
-- then is not followed. The rest of the sources, among them vfs.c, the descriptor tables, the system
-- calls, FAT32, ext2, Btrfs, the rest of the network stack, devices and the desktop, has no model here.
pub mod Base
pub mod Kernel
pub mod Sched
pub mod Pipe
pub mod Heap
pub mod Paging
pub mod Partmgr
pub mod Catfs
pub mod Config
pub mod Users
pub mod Time
pub mod Elf
pub mod Tcp
