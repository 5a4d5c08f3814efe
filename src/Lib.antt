-- ===== src/Lib.antt =====
-- The kernel of xv6-public: its process tables with threads and with a multi-level feedback queue, its
-- schedulers, spin locks, pipes, the buffer cache, the log and the files of the file system, the page
-- allocator, users and string functions. The parts meet in the process table (pipes, the log and `wait`
-- sleep and wake on it), in the pages that kalloc.c gives to allocproc, in the blocks that `bread` gives
-- to log.c and fs.c, and in the strings of the user table. The critical sections of the spin locks are
-- single steps of the other parts. Each part is a shallow embedding of its C file: a struct is a record,
-- a function is a function from the state before to the state after, and a sleep, a panic or an error
-- return is a value of the result. An `unsigned int` is a natural number below 2 ^ 32 with its
-- wrap-around written out, and an `int` is its bit pattern.
--
-- Base: lists by index, Boolean tests and 32-bit words, shared by all parts.
-- Pipe is xv6-public/pipe.c: the 512-byte ring of `struct pipe` with its two free-running counters.
--   A run of `pipewrite` or `piperead` goes from taking `p->lock` to the return or the next sleep; a
--   sleeping writer keeps the bytes it has left and starts again from there. Both are recursive on
--   the bytes, so they need no fuel. Pipe.Wakeup is a writer and a reader that run, sleep on their
--   channels and are woken there.
-- Mlfq is xv6-public/proc_MLFQ.c with xv6-public/proc.h: `ptable` is the record PTable, with the
--   number of levels MLFQ_K as an argument. Mlfq holds the records and the life of a slot, Mlfq.Queue
--   sleep, wakeup, kill, yield, degrade, boost and rst, Mlfq.Waiting exit and wait, Mlfq.Scheduler the
--   search of `scheduler` and its switch. A step is what runs under `ptable.lock` without a break. The
--   two nested loops of `scheduler` with their gotos run on fuel, one unit a turn;
--   the amounts that are enough are in
--   Mlfq.Search.Progress. Page tables, kernel stacks, open files and trap
--   frames are not modelled, and what they decide is an argument (whether a page was found, whether
--   the memory was copied).
-- Log is xv6-public/log.c with its sizes from xv6-public/param.h: `struct log`, and what `bread`
--   gives for each block. A run of the log is the list of its disk writes, each of them atomic, and a
--   crash leaves the disk after some first few of these. What `bread` gives is that of Bcache. The tests
--   of `log_write`, which come before it takes `log.lock`, and its update are two functions.
-- Bcache is xv6-public/bio.c with `iderw` of xv6-public/memide.c: a node of the list of buffers is its
--   number, 0 for `bcache.head`, and the pointers are functions from node to node. A walk along the
--   list runs on fuel, one unit a node, and has one more unit than there are buffers. A call that
--   waits for a buffer's sleep lock is the steps `bget` and `lock_buf`; the release of that lock by
--   `brelse` is one step with the rest of it. Bcache.Refine has the steps of
--   the kernel on the cache together with the contents that each of them gives the blocks.
-- Fs is xv6-public/fs.c with xv6-public/fs.h: the blocks of the disk as `bread` gives them, with what
--   `log_write` was called for. Fs.Alloc is the free map, Fs.Inode is bmap, readi and what writei writes,
--   for files that are no devices, Fs.Logged is writei with its calls of `log_write` on the log of Log,
--   and Fs.Path is skipelem and namex. What `namex`
--   asks of the inodes is the record Inodes, whose law is that `dirlookup` compares names as `strncmp`
--   does. The loops over the map have a round for each bit of a block and for each block of the disk,
--   namex one for each byte of the path, and readi and
--   writei one for each byte. `sb` is an argument, with a size below
--   2 ^ 31 - 4096, so that the `int` counters of balloc do not wrap, and the device is ROOTDEV.
-- Locks is xv6-public/spinlock.c: one spin lock, its CPUs, and for each CPU where it is in `acquire`
--   and `release`. A step is one access of one CPU to the lock, in any order of the CPUs, but that the
--   test `holding` of `acquire` or `release` is one step with what follows it, in `release` the write of
--   `lk->cpu`.
-- CString is xv6-public/string.c: a pointer is the list of the bytes from it to the end of its
--   array, and an access past that end is `none`.
-- Thread is xv6-public/proc.c: the process table of the build with threads and a round-robin scheduler.
--   Thread.Life is allocproc, userinit, growproc, fork and thread_create, Thread.Ending thread_clear,
--   clear_subthreads, kill_threads_except, exit and thread_exit, Thread.Waiting wait and thread_join.
--   allocproc, fork and thread_create give up `ptable.lock` on their way or write without it: each is
--   given as it runs alone, and in the parts between which other CPUs run. The steps of Thread.Reach are
--   these parts and the stretches under `ptable.lock` of the other functions. Two reads or writes of
--   `nexttid` that overlap, which thread_create does not rule out, are not steps of it; growproc, which
--   takes no lock, is one step, and so is the loop of kill_threads_except. The answers of the allocator
--   and of the page tables are arguments.
-- MultiLevel is the scheduler of xv6-public/proc_multiLevel.c, on the processes of Thread.
-- Kalloc is xv6-public/kalloc.c: the list of the free pages. `freerange` runs one round
--   for each page below its end, which is enough (Kalloc.Range). That the links of the list lie in the
--   free pages is not modelled.
-- Users is the user table of xv6-public/sysfile.c with login, whoami, chmod's test and checkmod. Whether
--   addUser's flushUsers writes /passwd is an argument there. Users.Passwd is loadUsers and flushUsers on
--   the bytes of that file, whose writes succeed.
--
-- The file table, the inode cache and directories, virtual memory and program loading are not modelled; nor are
-- drivers, start-up code and user programs, which are hardware access or run outside the kernel.
pub mod Base
pub mod Bcache
pub mod CString
pub mod Fs
pub mod Kalloc
pub mod Locks
pub mod Log
pub mod Mlfq
pub mod MultiLevel
pub mod Pipe
pub mod Thread
pub mod Users
