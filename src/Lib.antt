-- ===== src/Lib.antt =====
-- Verification of the kernel (xv6 for RISC-V with additions) and of parts of its user
-- library and programs: the core routines as functions on explicit states, with the theorems that
-- make them correct.
--
-- Cstring     kernel/string.c. Memory is a function from addresses to bytes. Each routine has its
--             name in the source; strlen has fuel for the bytes of the string.
-- Kalloc      kernel/kalloc.c: the free list, the reference counters (uint64) and the bytes of the
--             pages are the record Kmem; `kend` is the address `end` of kernel.ld. freerange and
--             krefinit have fuel for the pages below the end of memory, and kinit needs no more.
--             calculate_free_ram counts in ℕ: the memory of 128 MB fits in an int.
-- Log         kernel/log.c, over what bread and bwrite of kernel/bio.c do to a block. The record Log
--             has the header, the cache's view of each block, the disk, and every state the disk
--             has been in; a crash leaves one of these. Words are 32 bits; the size and the start of
--             the log come from the superblock.
-- Pipe        kernel/pipe.c: the ring of PIPESIZE bytes with its two uint counters. The user's memory
--             is the parameter copyin or copyout, by address.
-- Console     kernel/console.c: the input buffer, the command history and what was sent to the
--             screen. The loops of C('U') and of eraseCurrentLineOnScreen have fuel; the theorems
--             state how much is enough, or that none is.
-- Proc        kernel/proc.c and kernel/proc.h: the table of processes, where a pointer to a process
--             is an index. Proc.Sched is the scheduler, with swtch as a parameter; Proc.Sleep is
--             sleep; Proc.Life is allocproc, freeproc, fork, exit and wait over the interface
--             Services of their callees; Proc.Account is about the accounting of ticks; Proc.Yield
--             is sched and yield over Spinlock.
-- Spinlock    kernel/spinlock.c on one lock and the state of one CPU; a CPU is a number. acquire goes
--             up to its first swap, and answers that it spins if the lock is taken.
-- Sleeplock   kernel/sleeplock.c on one lock and the table of Proc.
-- Bio         kernel/bio.c: the buffers as a list in the order of use.
-- File        kernel/file.c: the table of open files and its reference counts; fileclose answers
--             what it goes on to do. File.Io has the reading and writing of a file, over Pipe, Fs
--             and the device switch; the loop of filewrite has fuel for the bytes to write.
-- Vm          kernel/vm.c: page tables as the words of the pages that hold them, over an interface of
--             page allocators, Pages, which Vm.Kernel fills with Kalloc. The theorems speak of the
--             map from addresses to entries (Vm.Tree). mappages has fuel for the pages below MAXVA;
--             the copying loops for the bytes to copy; freewalk for the three levels.
-- Fs          kernel/fs.c, over what bread answers: Fs the superblock and the block bitmap, Fs.Map
--             the blocks of a file, Fs.Itable the inodes in memory, Fs.Content reading and writing,
--             Fs.Path and Fs.Dir paths and directories. The calls of log_write are kept as a list;
--             copyout and copyin are parameters. namex has fuel for the bytes of the path.
-- Fd          kernel/sysfile.c: argfd, fdalloc, dup and close over the table of File; Fd.Pipes has
--             sys_pipe, with pipealloc of kernel/pipe.c.
-- Sysfile     kernel/sysfile.c: the system calls on names and inodes, over Fs, and read, write and fstat.
-- Exec        kernel/exec.c with proc_pagetable of kernel/proc.c, over Vm and Fs: Exec.Load the segments
--             and the whole call, Exec.Stack the arguments on the new stack. The loops have fuel for
--             the pages of a segment.
-- Trap        kernel/trap.c: usertrap with its copy of a copy-on-write page, over Vm; kerneltrap, devintr
--             and the clock. The registers that a trap reads are arguments.
-- Sysproc     kernel/sysproc.c: sys_sleep turn by turn against the clock of Trap, and sys_sbrk with growproc.
-- Syscall     kernel/syscall.c: the fetching of arguments, over Vm.Copy, and the dispatch.
-- Virtio      kernel/virtio_disk.c and kernel/virtio.h: the descriptors, a request up to its wait and from
--             there on, and the interrupt. What the device writes is a parameter. The loops over the
--             descriptors and the used ring have fuel for the NUM entries.
-- Printf      kernel/printf.c and user/printf.c: what is printed, as a list of bytes. printint has
--             fuel for as many digits as its number is large.
-- Ulib        user/ulib.c on the memory of Cstring, with atoi and gets on lists of bytes; the loops
--             over a string have fuel for its bytes.
-- Uart        kernel/uart.c: the ring of bytes to send; the readings of the device are a list.
-- Sh          user/sh.c: the parser of the shell, on the list of the bytes left; each loop has fuel for
--             these bytes.
-- Wc          user/wc.c: the counting, on the bytes that each read answers.
-- Umalloc     user/umalloc.c: the free list of malloc and free, by the addresses of its headers. Each loop
--             has fuel for the blocks of the list; sbrk is a parameter.
-- Grep        user/grep.c: the pattern matcher, on the bytes of C strings.
-- Prelude     what the components share: lists, options, Boolean tests, outcomes and integers.
--
-- A function that may panic, fault or run out of fuel answers an Outcome. Each function that
-- takes a lock is one step of the model, so interleavings inside a critical section are not
-- modelled; a function that sleeps answers that it does, and is called again.
--
-- Not modelled: the hardware, the devices and the trap entry; the layout of the kernel's own page
-- table; what a system call on files does after it has slept on the lock of an inode; the
-- running of commands by the shell, the other user programs and the tests; mkfs, but for its size of the log, which is a hypothesis.
pub mod Prelude
pub mod Cstring
pub mod Kalloc
pub mod Log
pub mod Pipe
pub mod Console
pub mod Proc
pub mod Spinlock
pub mod Sleeplock
pub mod Bio
pub mod File
pub mod Grep
pub mod Vm
pub mod Fs
pub mod Ulib
pub mod Printf
pub mod Fd
pub mod Sh
pub mod Uart
pub mod Virtio
pub mod Trap
pub mod Sysproc
pub mod Syscall
pub mod Sysfile
pub mod Exec
pub mod Wc
pub mod Umalloc
