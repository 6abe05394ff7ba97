-- ===== src/Lib.antt =====
-- Nachos (nachos-3.4/code): an instructional operating system in C++ that runs MIPS programs on a
-- simulated machine. Modelled are the simulated processor and its memory, the clock with its
-- interrupts, the devices, demand paging with copy on write, the bitmap allocator, the file system,
-- lists, threads with their synchronization, processes, open files, system calls and the post office
-- of the network.
--
-- The parts, from the bottom up, and the files of the repository they model:
--   Base       tests on numbers, arrays as functions, binary digits, loops that search, C strings.
--   Utility    threads/utility.h: divRoundDown and divRoundUp.
--   Bitmap     userprog/bitmap.cc: BitMap. `mark`, `clear`, `test`, `find`, `num_clear` are Mark,
--              Clear, Test, Find and NumClear; `bit_map` is the constructor. Bitmap/Bits views a map
--              as a set of bits, Bitmap/Search and Bitmap/Counting say what a search and a count do.
--   Machine    machine/machine.h, machine.cc, translate.cc, mipssim.cc. Machine/State has the
--              registers and DelayedLoad, Machine/Translate is Machine::Translate, Machine/Memory has
--              ReadMem, WriteMem and RaiseException. Machine/Mips/Decode has the tables of mipssim.h
--              and Instruction::Decode, Machine/Mips/Decode/Encoding the numbers of the instructions
--              by the manual of the processor, apart from the tables. Machine/Mips/Execute is
--              OneInstruction, its switch cut into four functions in the order of the cases,
--              Machine/Mips/Mult is Mult.
--              Machine/Interrupt is machine/interrupt.cc: OneTick, Idle, Schedule, CheckIfDue and
--              SetLevel over the list of pending interrupts. Machine/Disk is the latency of disk.cc
--              and the UNIX file that holds the sectors, with its magic number. Machine/Devices has
--              the requests of the disk, the console and the timer with the kernel's handlers, and
--              what each interrupt calls.
--   Threads    threads/list.cc, synch.cc, scheduler.cc, thread.cc. Threads/LinkedList is List over a
--              store of cells, Threads/LinkedList/Cells the sequence that a list stands for.
--              Threads/Kernel has the ready list, semaphores, locks and conditions and every
--              operation on them, Threads/Kernel/Steps what may happen next, as a relation.
--   Userprog   userprog/memorymgr.cc and addrspace.cc. Userprog/Vm has the shared state: MemoryMgr,
--              the address spaces by process number (allPCB of processmgr.h) and the main memory.
--              Userprog/MemoryMgr has GetPage, ClearPage, UnsetShare and SetShare with the
--              PageOut and UnsetReadOnly that they call; Userprog/AddrSpace has the constructor,
--              PageIn, COW, Fork, ReleaseMemory, ReplaceMemory and Translate; Userprog/UserMemory has
--              ReadString and userReadWrite. Userprog/OpenFiles is SOFMgr, SOF, POF and the open files
--              of PCB, Userprog/Processes is ProcessMgr and the family of PCB. Userprog/System has the
--              state of a system call; Userprog/FileCalls and Userprog/ProcessCalls are the handlers of
--              exception.cc.
--   Filesys    filesys/filehdr.cc, openfile.cc, directory.cc, synchdisk.cc and machine/disk.cc.
--              Filesys/Disk reads and writes a sector as SynchDisk does, Filesys/FileHeader
--              allocates sectors,
--              Filesys/OpenFile is ReadAt and WriteAt, Filesys/OpenFile/Position is Seek, Read, Write
--              and Length, Filesys/Directory is Directory. Filesys/Image is FetchFrom and WriteBack
--              of headers, of the free map and of directories, as bytes. Filesys/FileSystem is
--              filesys/filesys.cc: the constructor, Create, Open and Remove.
--   Network    machine/network.cc and network/post.cc: Send and the interrupts of Network, MailBox and
--              PostOffice, with the headers in front of the data.
--   Witnesses  small states at which the theorems are applied.
--
-- How they interact: file headers and frames are both handed out by Bitmap; OpenFile reaches the
-- disk through the header; FileSystem reads the free map and the directory from their files, changes
-- copies and writes them back, so what it promises is said of the bytes of the disk; CheckIfDue calls
-- the handler of a device, which may call V of the kernel; GetPage calls back into the address space
-- of each process that has the victim, and COW and ReleaseMemory call UnsetShare, which calls back in the same way.
--
-- Conventions. An operation takes the state and returns it. The result `none` is a failed ASSERT, an
-- access through a null pointer or one outside an array. An answer -1 of a search is an inner
-- `none`; where -1 is stored as a page or a sector it is the pattern 2 ^ 32 - 1. An `int` that is
-- never negative is a natural number; a word is below 2 ^ 32, a byte below 256, and wrap-around is
-- written out. Arrays are functions from an index, with the bound tested where the code tests it,
-- and in Allocate and Deallocate, whose loops can leave the table of a header.
-- Memory that `new` leaves unset is an argument `garbage`. Loops run on the number of rounds that
-- the code's own bound gives, so none runs out of fuel; a loop over a list runs on the number of cells
-- that were ever made, which is no less than the cells of a list, and the whole pages of a transfer
-- on the number of its bytes. CheckIfDue runs once for each pending interrupt and once more, which is
-- enough since a handler that schedules does so for later. Ticks are counted without wrap-around. What
-- the world outside decides is data: the keys typed, the numbers of Random, whether a packet is lost.
-- The host is little endian.
--
-- Threads. An operation on the ready list or on a queue runs with interrupts off, so it is one step,
-- up to the point where its thread sleeps; where it goes on is part of the state. Queues there are
-- the sequences that their lists stand for. An interrupt is a call of V by its handler. The value of
-- a semaphore is taken not to overflow.
--
-- Not modelled. Locks are left out where one kernel operation runs at a time. SynchDisk waits for the
-- disk, so a request is one step. The swap file is the UNIX file of FILESYS_STUB: its bytes. DEBUG and
-- printf are left out. The exception handler that a trap enters is a parameter of Machine/Memory.
-- The file system of the kernel is a parameter of the open files and system calls, since the build
-- chooses between UNIX files and the disk. Exec, the Yield system call and the end of Kill, stacks and
-- the saved registers of a context switch, SynchList, the UNIX calls of machine/sysdep.cc, the
-- tools and the tests are outside this development.
pub mod Base
pub mod Bitmap
pub mod Filesys
pub mod Machine
pub mod Network
pub mod Threads
pub mod Userprog
pub mod Utility
pub mod Witnesses
