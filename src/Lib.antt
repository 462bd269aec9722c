-- ===== src/Lib.antt =====
-- The xv6 kernel of cs350/cs350-18f-lab6-base: its pipes, page allocator, page tables, processes, block
-- cache, log, file system, file table, spin locks, sleep locks, string routines and the
-- arguments of system calls.
--
-- Each part is modelled by the file named for it, whose child modules hold the proofs. The names
-- of the C functions are kept.
--
--   Base      natural numbers with 32-bit wrap-around (`add32`, `sub32`), lists as arrays, and
--             `Outcome`: what a kernel routine does, it returns or it panics.
--   Pipe      pipe.c. A run of `pipewrite` or `piperead` goes from a point where the pipe lock is
--             held to its return or to its call of sleep. Pipe/Fifo is the specification, a bounded
--             queue of bytes, Pipe/Ring the window of the ring buffer, Pipe/Refine the refinement.
--   Kalloc    kalloc.c. The free list is threaded through the first word of each free page, in a
--             memory of words. The loop of `freerange` takes fuel: one more than its upper bound,
--             which is enough, as each round takes a page.
--   Vm        vm.c with the macros of mmu.h and memlayout.h, and growproc of proc.c: page
--             directories and page tables are pages of the allocator's memory of words, and
--             addresses below KERNBASE + PHYSTOP are mapped one to one. Vm/Tables has `entry`,
--             what the hardware finds for a page number, and the well-formed page table (`Valid`);
--             Vm/Users the well-formed process (`Space`). The fuel of the loops of mappages,
--             allocuvm and deallocuvm is the 2^20 pages of the address space (one more where the
--             last round only tests), as each round takes a page. An index is a division where the
--             source shifts, and an entry a sum where it joins bits that are apart.
--   Proc      proc.c and proc.h. The table has NPROC = 64 slots, and pointers to processes are slot
--             numbers. Proc/Life holds allocproc, fork, exit and wait, Proc/Services is the
--             interface to kalloc.c, vm.c, file.c and fs.c that they call, and Proc/System the step
--             relation of the critical sections: fork's claim of a slot, its new stack and the rest
--             of it are steps of their own, as are exit's change of its files and its locked part,
--             and others can come between them. The relation allows more than the kernel does: a
--             running process can go on with any EMBRYO slot. No slot is claimed when nextpid is
--             at the largest int.
--   Log       log.c. A `Store` has the blocks on disk, the blocks as bread returns them, and the
--             number of block writes that still reach the disk before the power fails. Log/Atomic
--             follows a commit through crashes and restarts, Log/Space the operations that share
--             the log, Log/TooBig the log that mkfs.c makes.
--   Bcache    bio.c, buf.h and memide.c: the buffers with their prev and next links. Bcache/Ring
--             and Bcache/Moves have the links as a list, Bcache/Sharing the calls of the processes
--             and what the cache keeps to between them, and Bcache/View and Bcache/Blocks compare
--             it with an array of blocks. The fuel of the loops of bget is one more than the NBUF
--             = 30 buffers.
--   Fs        fs.c and fs.h, over a `Volume`: the superblock, the blocks as bread returns them and
--             the blocks that were handed to log_write, in order: `log_block` only notes the call.
--             Fs/Logging makes those calls in the log of log.c, with its panics, for bmap, writei and dirlink
--             as they run in a transaction. Fs/Inode has an inode and its contents
--             (ilock, iupdate, bmap, readi, writei), Fs/Icache the table of NINODE = 50 inodes (iget,
--             idup, iput, ialloc, itrunc), Fs/Dir the directories and Fs/Paths the path names. There
--             is one device; the routines of `devsw` are a parameter (`Devsw`). Fs/Slots says which
--             blocks an inode owns, Fs/Extend what a well-formed file is, Fs/Tracked what the table
--             of inodes keeps to. The fuel of balloc is one more than the blocks of the disk, that
--             of readi and writei one more than the bytes asked for, that of the loops over a
--             directory one more than its size, and that of namex one more than the bytes of the
--             path: each round takes a byte at least, or 4096 blocks. A string is its bytes before
--             the NUL in Fs/Paths, and a buffer with a NUL in it in Fs/Dir.
--   Files     file.c and file.h: filealloc, filedup and fileclose over the NFILE = 100 slots. What the
--             last fileclose of a file closes is a result. Files/Io has filestat, fileread and
--             filewrite over the file's inode; the fuel of filewrite is one more than its bytes, as
--             each chunk has one at least.
--   Spinlock  spinlock.c: acquire, one round of its loop at a time, release, pushcli and popcli, over
--             all CPUs and locks. Spinlock/Exclusion is the step relation and its invariant.
--   Sleeplock sleeplock.c over the process table. A run of acquiresleep ends where it returns or
--             sleeps; Sleeplock/Safety is the step relation and its invariant.
--   Strings   string.c, and the string instructions of x86.h, over one memory of bytes. `strlen` takes
--             fuel: the bytes that may be read.
--   Syscall   syscall.c: the arguments of system calls, fetched from the memory of the process.
--
-- Processes call the pipe and the log through sleep and wakeup: where a C routine sleeps, the model
-- of it ends, and says which channels it has woken up; the process table's own model of sleep and
-- wakeup is in Proc. The loops over arrays are structural recursion on the rounds left.
--
-- Outside Spinlock, Sleeplock and Bcache, a lock is not a part of the state: what the kernel does
-- from acquire to release, or to a call of sleep, is one step. Registers and context switches are
-- not modelled, nor are setupkvm, copyuvm, inituvm, loaduvm, uva2ka and copyout of vm.c, and the
-- int counters of log.c, bio.c, fs.c, file.c and spinlock.c, the int sizes of file.c and the pids
-- of proc.c are natural numbers. Not modelled either are the other files of the kernel, the user
-- programs, cs350/cs350-18s-lab1-base, an earlier copy of the kernel, and the other courses'
-- directories.
pub mod Base
pub mod Kalloc
pub mod Log
pub mod Pipe
pub mod Proc
pub mod Strings
pub mod Files
pub mod Spinlock
pub mod Fs
pub mod Sleeplock
pub mod Syscall
pub mod Vm
pub mod Bcache
