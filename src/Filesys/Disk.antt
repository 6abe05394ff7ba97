-- ===== src/Filesys/Disk.antt =====
-- filesys/synchdisk.cc over machine/disk.cc: one sector at a time. `ReadSector` and `WriteSector`
-- return when the request is done, so they act as one step on the contents of the disk.
use cop5614nachos.Base.{ℕ, ◌+◌, ◌*◌, Option, some, ltb, Array, update, bcopy, assert, ◌>>◌}

abbrev pub sector_size : ℕ
sector_size = 128

abbrev pub num_sectors : ℕ
num_sectors = 32 * 32

abbrev pub Disk : Type 0
Disk = Array (Array ℕ)

-- The sector number is in range by an `ASSERT` of `Disk::ReadRequest`; the sector lands at
-- `&buffer[at]`.
unfoldable pub read_sector : Disk → ℕ → Array ℕ → ℕ → Option (Array ℕ)
read_sector disk sector buffer at = do
  assert (ltb sector num_sectors)
  some (bcopy (disk sector) 0 buffer at sector_size)

-- The 128 bytes from `&buffer[at]` on.
unfoldable pub write_sector : Disk → ℕ → Array ℕ → ℕ → Option Disk
write_sector disk sector buffer at = do
  assert (ltb sector num_sectors)
  some (update disk sector (λ j. buffer (at + j)))
