-- ===== src/Witnesses.antt =====
-- Concrete inputs for the theorems: small disks, directories, machines and processes.
pub mod Files
pub mod FileSystems
pub mod Devices
pub mod Lists
pub mod Kernels
pub mod Handles
pub mod Machines
pub mod Names
pub mod Processes
