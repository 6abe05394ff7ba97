-- ===== src/Threads.antt =====
-- threads/: linked lists, the scheduler and the synchronization of threads.
pub mod LinkedList
pub mod Kernel
