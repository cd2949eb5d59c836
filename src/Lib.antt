-- ===== src/Lib.antt =====
-- Verification of cobj-os, a small kernel for x86-64 with its user programs.
--
-- The kernel keeps physical memory in pages (src/mm), runs threads of processes on one processor
-- (src/multi), passes messages between processes over ports (src/userspace), reads its programs from an
-- initial disk (src/fs), and has drivers for a keyboard and a clock (src/devices, src/arch). Its own C
-- library (src/misc, and a copy with some more in user/lib) stands below all of that. Each part below is
-- a module that translates one C file, function by function, with the names of the source; the modules
-- under it hold its theorems, and its Examples runs and applications at concrete inputs.
--
--   Prelude  helpers: tests and the conditional, lists, bit operations, panics, C's int
--   Pmm      src/mm/pmm.c: the page allocator, from the memory map to allocation and freeing
--   Mem      src/misc/mem.c: memset, memcpy, memmove, memcmp and their word-wise variants
--   Text     src/misc/util.c and user/lib/util.c: strings, and numbers as text
--   Kb       src/devices/kb.c: scan codes, modifiers, the event ring
--   Rtc      src/arch/rtc.c: dates against seconds since 1970
--   Thread   src/multi/thread.c: the run queue and the scheduler
--   Port     src/userspace/port.c: message ports; it uses Thread for the threads that it blocks and wakes
--   Heap     src/mm/heap.c: the slab heap; it takes its pages from Pmm
--   Tar      src/fs/tar.c: the initial disk; it uses Text for the comparison of names
--   Vfs      src/fs/vfs.c: paths to nodes; a file system is a record of operations, and what is relied on
--            is stated as its laws in Vfs/Resolve
--   Devfs    src/fs/dev_vfs.c: the table of devices
--   Tarfs    src/fs/tar_vfs.c: reading of a file of the archive
--   Vmm      src/mm/vmm.c: the page tables; Vmm/Tree states which tables hang together as an address space
--   Memory   the bytes of frames, beside the tables of Vmm
--   Elf      src/loader/elf.c: the segments of a program become pages; it uses Pmm, Vmm and Memory
--   Kernel   src/multi/process.h and src/fs/vfs.h: the state that the system calls share
--   Process  src/multi/process.c: processes are made, found and cleared away; it uses Elf, Vfs and Thread
--   Syscall  src/userspace/syscall.c, a module for each group of calls and Dispatch for their numbers; it
--            composes Process, Thread, Port, Vmm and Vfs
--   Printf   src/misc/printf.c: formatted text; it uses Text for the digits
--   Malloc   user/lib/malloc.c: the heap of a user program
--
-- State is a record of the file's static variables, passed on explicitly; a pointer to text is the list
-- of the bytes behind it, memory in Mem a function from address to byte, and a linked list the list of
-- its members. Machine integers are natural numbers with the wrap-around written out where the code can
-- reach it. A call of `panic` ends in a value of Outcome; a wait for an interrupt or for another process
-- ends the call in the model, with the state in which it waits.
--
-- Bounds and fuel. Loops over arrays and lists are structural recursions. The loops of `epoch_to_rtc`
-- have one round for each day and twelve months, and each year takes at least a day; `getchar_loop` has
-- as many rounds as the ring has places; `digit_loop` has one for each place of the buffer `tmp`, so that
-- running out of them is an overflow of the buffer; the loops over an archive have size / 512 + 1, and
-- each round goes on by 512 bytes or more; a walk along a path has its length; a copy to or from user memory
-- has a round for each byte; a format has a round for each of its bytes. In each case a theorem below
-- states that the call ends with a result or that more rounds change nothing, but for `kbd_getchar`,
-- `tar_listdir` and `itoa`.
--
-- Not modelled: assembly (context switches, interrupt and system call entries), port input and output,
-- the Limine boot protocol's structures but the memory map entry, the kernel's own threads, the archive
-- as a file system behind Vfs but for its reads, the console and the fonts, the paths of user/lib/fs.c, and the user
-- programs. The memory that ports, threads, processes and open files take from the heap is taken to be
-- there; new objects are named by the caller. A handler of Syscall that writes through a pointer from user
-- space, which the code does not check, gives what it writes as output; what such a write does to the kernel
-- itself is not followed.
pub mod Prelude
pub mod Pmm
pub mod Rtc
pub mod Kb
pub mod Mem
pub mod Text
pub mod Thread
pub mod Port
pub mod Tar
pub mod Vfs
pub mod Heap
pub mod Devfs
pub mod Vmm
pub mod Memory
pub mod Elf
pub mod Kernel
pub mod Process
pub mod Syscall
pub mod Printf
pub mod Malloc
pub mod Tarfs
