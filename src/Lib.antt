-- ===== src/Lib.antt =====
-- A verification library for three course projects on operating systems, in C: a kernel module
-- that intercepts system calls, a simulator of demand paging, and tools for ext2 disk images. The
-- projects do not call one another. Each has its own folder here, and Base holds what they share.
--
-- Base: the names of the library that all files use, Boolean tests, lists by native numbers,
-- point-wise updates of maps, and C's signed counters.
--
-- Interceptor, for System Calls and Monitoring Processes/interceptor.c and interceptor.h. State
-- holds the globals (table, sys_call_table, the page-table entry of the table's page, the two
-- spinlocks, the saved handlers, the log) as the record Kernel, and the operations on them as a
-- state monad with faults: a lock taken twice, a write to the read-only table, a NULL task and an
-- index outside table have no result. PidList is the list code on one entry of table
-- (add_pid_sysc, del_pid_sysc, the loop of del_pid, destroy_list, check_pid_monitored). Calls has
-- del_pid, my_exit_group, interceptor (as interceptor_fn) and the functions that my_syscall calls;
-- Requests has my_syscall, one function for each case of its switch; Init has init_function and
-- exit_function. A function pointer is a value of Handler, and a call that ends in a function of
-- the kernel returns that value. NR_syscalls and __NR_exit_group are the parameters nr and
-- exit_nr. The current task, the owners of the tasks and the result of kmalloc are the record Env,
-- given anew at each call. A call is one step: two calls that run at the same time on two
-- processors are not modelled, and neither is the printk of other messages. Members, Effect,
-- Invariant, Watch, Refinement, Exit, Logging, Lifetime and Memory hold the proofs. Watch has the
-- abstract view: a system call is intercepted or not and watches a set of pids.
--
-- Paging, for the simulator in Virtual Memory  /369a2-double loop for opt/. Bitmap is the bitmap
-- of swap.c (bitmap_create, bitmap_alloc, bitmap_mark, bitmap_unmark, bitmap_isset); a word is the
-- list of its 32 bits. Machine is the state: the globals of sim.c and pagetable.c as one record,
-- where a page table entry is named by its place in the two-level table and its frame word is kept
-- as the frame number and the four flags. Policies has the replacement algorithms of lru.c,
-- fifo.c, clock.c, opt.c and rand.c as functions on this state; a NULL pointer that is followed
-- has no result. The circular list of clock.c is the list once around from the head, and its loop
-- has length + 2 rounds as fuel, which is enough for a circle of distinct pages. Swap has
-- swap_pageout and swap_pagein, where lseek, read and write are the parameter Disk. PageTable has
-- allocate_frame, find_physpage, access_mem and replay_trace over the interface Policy (struct
-- functions of sim.h); a program that stops, by exit, by an assertion or by an access outside an
-- array, has no result. A frame number is not bounded there: the words of the source hold it if
-- memsize is less than 2^19; nor are the counters, which are ints in the source, so that the
-- theorems bound the number of accesses. Invariant says that page table and coremap agree, Filled
-- that memory has the content that access_mem checks, and Room that the swap file is enough for
-- the pages of a trace. Allocate, Kept and Coherence hold the proofs on allocate_frame, Hit,
-- Refilled and Miss those on find_physpage, Checks those on access_mem and replay_trace, Written,
-- Ready, Slots, Total, Reached and Replay those that they come to an end, and Moves, Counts,
-- Resident and Algs/Totals those on the counters over a trace; Leads puts such proofs together as
-- the code is. Algs has the table algs of sim.c, Own that each algorithm changes its own data
-- only, and Algs/Ends that rand and opt always pick a frame. Trace has sscanf on the lines of a
-- trace, which fgets has cut, and the lines that are printed in debug mode, and Printed the proof
-- that they are read back; Simulator has main, from the options that getopt gives; what it finds
-- in the system is the record World, and malloc is taken to give the coremap and the memory.
-- Simulator/Start, Outcome and Ends hold the proofs on a whole run. Printing has what
-- print_pagetbl and print_pagedirectory print, as a list of lines without addresses, and Told the
-- proof on it. Space, Create and Mark hold the proofs on the bitmap; Recency, Queue, Chance and
-- Farthest those on LRU, FIFO, the clock and OPT.
--
-- Ext2, for the tools in File System/ (ext2_ls.c, ext2_mkdir.c, ext2_rm.c, ext2_ln.c, ext2_cp.c,
-- ext2.h). Image has the mapped image of 128 KiB as a record: the counters, the two bitmaps as
-- functions to Bool, the inodes by number, and the directory entries, C strings and numbers of
-- indirect blocks by address; a program is a function from an image to an image with a result, to
-- the status with which it exits, or to a fault. A fault is an access outside the image, the inode
-- table or i_block, the use of a variable without a value, or a loop that does not end. The bitmap
-- of the blocks is one block, and to clear a bit outside it is a fault. Bytes are not modelled,
-- nor the NUL behind the name of an entry, nor that an entry, a string or an int overlaps another
-- or lies in a block of other use. Path has find_next_dir and the split of an argument, Directory
-- the loops over the entries of a directory and find_dir_inode, Alloc the functions on the bitmaps
-- and the loops that take an inode and a block, Insert the search for space and the new entry,
-- which ext2_mkdir.c, ext2_ln.c and ext2_cp.c each write out; Ls, Mkdir, Rm, Ln and Cp have the
-- rest of each main, from its arguments on. Cp takes ext2_cp.c as it would be without the
-- unresolved merge markers in its usage message and with sb as disk + 1024, since the file does
-- not compile; its main reads argv[4], which is NULL, so that what stands behind is never reached.
-- The bytes that it copies to a block are kept as a string at the block's address. The loop over a
-- directory has its size in bytes as fuel and that of find_dir_inode the length of the path: an
-- entry of a well-formed directory has at least one byte, and each round takes a slash. Whether
-- open and mmap succeed is an argument. Layout and Place describe a directory as a list of blocks
-- of entries, Resolve a path as a way through directories; Lookup, Commands, Listing, Places,
-- Grown, Blocks, Slots, Found, Outcome, Release, Last, Made, Ready, Taken, Cp/Blocks, Content and
-- Refused hold the proofs on the tools, and Keeps, Kept, First, Counted and Accounts those on the
-- counters.
--
-- Not modelled: closing the swap file, the printing of the counters, the test programs of the
-- kernel module, and the programs and the script that make traces.
pub mod Base
pub mod Ext2
pub mod Interceptor
pub mod Paging
