-- ===== src/Lib.antt =====
-- The MOS operating system of MOS-lab6-shell: memory, environments, scheduling, system calls,
-- shell variables, the file system server, pipes, formatted output and the string functions.
--
-- The kernel keeps physical pages with reference counts (kern/pmap.c), gives each environment (a
-- process) a two-level page table and an identifier (kern/env.c), shares the processor between
-- them in turn (kern/sched.c), and lets them act on memory, on each other and on devices through
-- system calls (kern/syscall_all.c). All paths are from MOS-lab6-shell/.
--
-- How C is modelled. A function of the kernel is a command on its state (Exec): it returns a
-- value, fails with a code of include/error.h and the state that it leaves, or panics. `try` is
-- a bind. Machine words are natural numbers, with the wrap-around written out as `% 2 ^ 32`; an
-- `int` that can be negative is its 32-bit pattern. A `struct Page *` is a page number, a
-- `struct Env *` an index into `envs`, a `Pte *` a page and an index in it. The kernel's lists
-- are the sequences of their elements, with the pointers of include/queue.h in a module of their
-- own (Queue); TAILQ_REMOVE of an element that is not in the list is modelled as no change,
-- which the C code guarantees only if the list has not changed since the element was removed.
--
-- Prelude: shared names, lists, membership, sums and bits.
--
-- Exec: commands, and `Ends`, which states how a command ends, panic excluded. Mmu: the macros
-- of include/mmu.h on addresses and page table entries.
--
-- Pmap: the pages and page tables of kern/pmap.c. Its invariant is Pmap.Space.IsGood: the free
-- list is distinct and holds unreferenced pages only, each directory entry leads to a table of
-- its own, and the count of each page is the number of its mappings plus what others hold.
--
-- Boot: the set-up of the page array, of the free list and of the environments, in the order of
-- init/init.c; Boot.Loops has the invariant of the set-up.
--
-- Tlb: the refill of kern/tlbex.c, whose loop runs on fuel; two rounds are enough.
--
-- Env.State: `struct Env` and the globals of kern/env.c. Env.Ids: asid_alloc, asid_free, mkenvid
-- and envid2env. Env.Alloc: env_setup_vm, env_alloc, env_free (as free_env) and env_destroy.
-- Env.Create: load_icode and env_create.
--
-- Elf: lib/elfloader.c, where the callback that maps a page is an argument; its loops run on the
-- number of bytes, which is enough.
--
-- Env.Sched: schedule and env_run, which end where env_pop_tf enters user mode; a run of the
-- timer is a sequence of ticks (Env.Sched.Fair).
--
-- Syscall: the system calls. `returned v` is a return to the caller, `switched` that the call
-- gave the processor away. A structure that a call reads from the caller's memory is an
-- argument.
--
-- Vars: the table of shell variables of kern/env.c and its system calls; a write behind an array
-- of the kernel is a panic. Vars.ReadOnly has the calls of several shells one after the other.
-- Str: lib/string.c on a memory of bytes. Pipe: the ring buffer of user/lib/pipe.c; a byte and
-- its position are transferred in one step.
--
-- Queue: the macros of include/queue.h on cells that hold pointers. Queue.Seg says which
-- sequence a head holds, Queue.Splice and Queue.Holds what an insertion and a removal do to it.
--
-- Serve: the requests of fs/serv.c, one round of the server at a time, with the replies in
-- order. How often a page of an open file is mapped is part of the state, since the clients
-- change it, too.
--
-- Shell: the tokens of a line of the shell, user/sh.c.
--
-- Fd: the descriptors of user/lib/fd.c, over the address space of a process; the functions of
-- the devices, which the code calls through pointers, are arguments.
--
-- Client: the file device of a process, user/lib/file.c and user/lib/fsipc.c. What the file
-- server does with a request is an argument. Client.Device joins it with the functions of Fd.
--
-- Rpath: parse_rpath of user/lib/file.c, on fuel for its loops over strings.
--
-- Fork: user/lib/fork.c on the page tables of parent and child. What the parent writes while it
-- copies its pages, and where it takes a write fault, is an argument.
--
-- Print: lib/print.c; what is passed to the callback `out` is a list of characters. Print.Buffer
-- and Print.Layout are the loops and the layout of print_num. The result is `undefined` where C
-- gives none.
--
-- Fs: the file system server of fs/fs.c. A block is 1024 words; the cache and the disk are
-- functions from the number of a word, and a `struct File *` is the number of its first word in
-- the cache. What the disk holds, how many pages the server can still get, and which blocks a
-- client has mapped, too, are part of the state. Fs.Block is the cache and the bitmap of free
-- blocks, Fs.File the blocks of a file, Fs.Dir the entries of a directory, Fs.Path the walk
-- along a path, and Fs.Update what the server does with a path.
--
-- Bounds. There are 1024 environments and 256 address space numbers, as in the source; loops
-- over them, over page tables, over counted bytes and over the blocks of a disk or a file are
-- structural recursion on what is left. Only the loops to the end of a string run on fuel, and
-- the theorems on them hold for every fuel above the length of the string; the walk along a
-- path, the loop over a format, the tokens of a line and the loop of readn run on the number of
-- bytes, which is enough.
--
-- Not modelled: the assembly code, device drivers, the dispatch of system calls, spawn, the
-- wrappers of system calls, fsipc_remove (it ends without a result), the commands of the shell
-- and the tools.
mod Prelude
pub mod Exec
pub mod Mmu
pub mod Pmap
pub mod Env
pub mod Tlb
pub mod Boot
pub mod Elf
pub mod Syscall
pub mod Str
pub mod Vars
pub mod Pipe
pub mod Fs
pub mod Serve
pub mod Print
pub mod Queue
pub mod Fd
pub mod Client
pub mod Fork
pub mod Rpath
pub mod Shell
