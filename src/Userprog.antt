-- ===== src/Userprog.antt =====
-- userprog/: the virtual memory, the processes, the tables of open files and the system calls.
pub mod Vm
pub mod MemoryMgr
pub mod AddrSpace
pub mod UserMemory
pub mod OpenFiles
pub mod Processes
pub mod System
pub mod FileCalls
pub mod OpenHandles
pub mod Families
pub mod WildNumbers
pub mod Transfers
pub mod ProcessCalls
