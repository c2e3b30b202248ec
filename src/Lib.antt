-- ===== src/Lib.antt =====
-- A kernel after xv6 with additional system calls, and simulations of scheduling algorithms.
--
-- The paths of the program are from the repository's root; `kernel/` and `user/` are folders of
-- "System Call Enhancements in xv6 OS/".
--
-- Base and its children are the shared names: Boolean tests, lists as C arrays, signed integers.
--
-- Kernel.Spinlock models kernel/spinlock.c function by function (initlock, acquire, release,
-- holding, push_off, pop_off) and `myproc`. A call takes the state of its CPU (`Hart`: the
-- fields of `struct cpu` and the interrupt-enable bit) and the lock, and comes to an `Outcome`:
-- a result, a panic, or a loop that only another CPU can end. Nesting has the laws of one CPU;
-- Exclusion is the same code as single memory accesses of any number of CPUs, in any
-- interleaving.
--
-- Kernel.Proc is the process table of kernel/proc.c: `struct proc`, the global variables
-- (`Kernel`), and the calls into the rest of the kernel as the record `Services`, an argument of
-- the functions that make them. Wakeup models wakeup, kill, setkilled and killed; Alloc models
-- allocpid, allocproc, freeproc, proc_pagetable and proc_freepagetable; Fork models fork,
-- growproc and the added call sfork. A pointer to a process is its index in the table, and a
-- null pointer is `none`. Every lock that the code takes is taken in the model, by the functions
-- of Kernel.Spinlock. Sleep models sched, yield, sleep and a round of the first scheduler, with
-- `swtch` as a parameter, and in `sleep_among` what other CPUs do once `sleep` has released its
-- lock; Exit models reparent, exit and wait. Kernel.Sysproc models the calls of
-- kernel/sysproc.c.
--
-- Kernel.Log models kernel/log.c. A block is its 256 words; the buffers of the block cache are a
-- function from block numbers to contents, and what `bwrite` sends to the disk is a list, so
-- that a crash leaves the disk after a prefix of it. Writes and Commit compute these lists,
-- Recovery is `initlog` on a disk, Crash puts them together, and Budgets and Reserve are the
-- step relation of many operations at once and its invariant.
--
-- Kernel.Pipe models kernel/pipe.c from one `sleep` to the next: Queue is the queue that a pipe
-- promises to be, Refinement shows that the ring is one, and Wakeup follows who sleeps.
-- Kernel.Namex models the paths of kernel/fs.c, skipelem and namex with dirlookup and the
-- reference counts; Names says which entry a name means. Kernel.File is the file table of
-- kernel/file.c with `pipealloc`, which works on it, and Piped its two ends, Kernel.Sysfile the
-- calls dup, close and pipe of kernel/sysfile.c, and Kernel.Bio the list of buffers of
-- kernel/bio.c with bget and brelse, which is told whether the caller holds the buffer's lock.
-- User.Grep models user/grep.c: Language says what a pattern matches without running it, and
-- Reads what a file's lines are. User.Shell is the parser of user/sh.c; Consumed says how much
-- its tokens take, and Ends follows how much each of its functions leaves.
--
-- Kernel.Kalloc models kernel/kalloc.c on the first words of the pages, and Kernel.Text models
-- kernel/string.c on a memory of bytes.
--
-- Kernel.Vm models kernel/vm.c with the macros of kernel/riscv.h: its own file has walk and
-- mappages, User the functions named uvm, and Copy the copies between the kernel and a process.
-- Roles says what each page is used for, which keeps tables apart, and what entry an address
-- has; Link, Walk, Leaf, Mapping and Mappages follow this through mappages, Freed, Unmap and
-- Unmaps through uvmdealloc, Lookup is walkaddr, Copyin is copyin, and Boot is kvmmake. The
-- entries of page tables and the bytes of other pages are apart in the model: that no copy is
-- into a page that serves as a page table is its premise. Kernel.Fs models blocks and inodes of
-- kernel/fs.c: its own file, Bits, Free and Balloc have the free map, Inode and Bmap the blocks
-- of an inode, Content and Read readi and writei, Itable and Iget the table of inodes.
-- Kernel.Sleeplock models kernel/sleeplock.c, with Waiting as the step relation of the processes
-- at a lock.
--
-- Scheduling.Lottery models schedulling_algorithms/sched_algo_lottery_improved.c with its main
-- loop; Scheduling.Mlfq models schedulling_algorithms/sched_algo_mlfq_existing.c, and
-- Scheduling.BubbleSort its bubble_sort, which needs a memory of nodes. Scheduling.MlfqImproved
-- models schedulling_algorithms/sched_algo_mlfqs_improved.c, where the value that the code reads
-- in front of its array is an argument. Scheduling.Annealing models
-- schedulling_algorithms/sched_algo_sa.c, where a list of what each round draws stands for
-- rand(), exp and the temperature; Assignments says what an assignment comes to. A division by a
-- number of processors that is 0, which C leaves undefined, is left to `%` here, and where it
-- would matter to a theorem the number is positive.
--
-- Bounds and fuel: a `uint64` keeps its wrap-around where the code adds to it. An `int` is an
-- integer without overflow: the model does not show what a signed overflow does, which C leaves
-- undefined. The loops over the table recurse on the table. The loops whose length depends on
-- the data run on fuel, and running out of it is a result of its own: the main loop of the
-- lottery, which takes as many rounds as the bursts add up to and those before the last arrival;
-- the loops of the feedback queue and of bubble_sort; and the loops of wait and sys_sleep, whose
-- passes through `sleep` have no bound; the loop of namex, for which more than the length of the
-- path is enough; those of grep and of the improved feedback queue; those of mappages, copyout,
-- copyin and copyinstr, for which the pages of the range or the bytes to copy are enough; and
-- the parser of the shell, for which twice the length of the line is. The loops of readi and
-- writei run on the bytes that are left, which a pass makes fewer; without fuel they end with
-- the bytes copied so far.
--
-- Not modelled: the disk driver under the block cache; of kernel/fs.c, dirlink and fsinit; the
-- other calls of kernel/sysfile.c, exec, the boot, traps and devices of the kernel; mkfs and the
-- user programs but grep and the parser of sh.c; the memory behind `Services`; interleavings of
-- CPUs outside Exclusion and the step relations of Kernel.Log, Kernel.Pipe and Kernel.Sleeplock,
-- so that a call on the process table is one that nobody interrupts; the second definition of
-- scheduler and sys_count_zombies in kernel/proc.c, which name functions and data that the
-- kernel lacks; the functions that only print; and sched_algo_lottery_existing.c, which has the
-- algorithm of the improved one.
pub mod Base
pub mod Kernel
pub mod Scheduling
pub mod User
