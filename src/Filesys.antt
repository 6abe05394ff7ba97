-- ===== src/Filesys.antt =====
-- filesys/ with FILESYS defined: files on the simulated disk. A byte is a natural number, the disk
-- a function from sectors to their bytes, an `int` that cannot be negative a natural number, and
-- the answer -1 is `none`. Offsets are far below `2 ^ 31`, since a file has at most 30 sectors.
pub mod Disk
pub mod Directory
pub mod FileHeader
pub mod OpenFile
pub mod Image
pub mod FileSystem
