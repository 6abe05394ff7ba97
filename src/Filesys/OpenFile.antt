-- ===== src/Filesys/OpenFile.antt =====
-- filesys/openfile.cc: reads and writes of any part of a file, by whole sectors. A `numBytes` that
-- is not positive is 0. A pointer into a buffer is the buffer with an offset; a new buffer holds
-- anything, `garbage`.
pub mod Position
pub mod Read
pub mod RoundTrip
pub mod Write
use cop5614nachos.Base.{
  ℕ, zero, suc, ◌+◌, ◌-◌, ◌*◌, ◌/◌, Bool, true, false, not, Option, none, some, ◌&&◌, ◌||◌, ltb,
  leb, ◌==◌, if◌then◌else◌, Array, bcopy, ◌>>=◌,
}
use cop5614nachos.Utility.{div_round_down}
use cop5614nachos.Filesys.Disk.{Disk, sector_size, read_sector, write_sector}
use cop5614nachos.Filesys.FileHeader.{FileHeader, byte_to_sector, file_length}

-- The bytes that a request of `num_bytes` at `position` moves.
abbrev pub clip : FileHeader → ℕ → ℕ → ℕ
clip h num_bytes position =
    if ltb (file_length h) (position + num_bytes) then file_length h - position else num_bytes

-- `for (i = firstSector; i <= lastSector; i++)` of `ReadAt`.
unfoldable pub read_loop : ℕ → ℕ → ℕ → FileHeader → Disk → Array ℕ → Option (Array ℕ)
read_loop zero i first h disk buf = some buf
read_loop (suc rounds) i first h disk buf = do
  buf' ← read_sector disk (byte_to_sector h (i * sector_size)) buf ((i - first) * sector_size)
  read_loop rounds (i + 1) first h disk buf'

-- `ReadAt(&into[at], numBytes, position)`: the bytes read, and `into` afterwards.
unfoldable pub read_at : FileHeader → Disk → Array ℕ → Array ℕ → ℕ → ℕ → ℕ → Option (ℕ × Array ℕ)
unfolding read_loop
read_at h disk garbage into at num_bytes position =
    if num_bytes == 0 || leb (file_length h) position then some (0, into) else do
      let count = clip h num_bytes position
      let first = div_round_down position sector_size
      let last = div_round_down (position + count - 1) sector_size
      buf ← read_loop (1 + last - first) first first h disk garbage
      some (count, bcopy buf (position - first * sector_size) into at count)

-- `for (i = firstSector; i <= lastSector; i++)` of `WriteAt`.
unfoldable pub write_loop : ℕ → ℕ → ℕ → FileHeader → Array ℕ → Disk → Option Disk
write_loop zero i first h buf disk = some disk
write_loop (suc rounds) i first h buf disk = do
  disk' ← write_sector disk (byte_to_sector h (i * sector_size)) buf ((i - first) * sector_size)
  write_loop rounds (i + 1) first h buf disk'

-- A read of one sector of the file into `buf`, when the flag is set.
unfoldable pub fill : Bool → FileHeader → Disk → Array ℕ → Array ℕ → ℕ → ℕ → Option (Array ℕ)
fill wanted h disk garbage buf at sector = if not wanted then some buf else do
  (count, buf') ← read_at h disk garbage buf at sector_size (sector * sector_size)
  some buf'

-- `WriteAt(from, numBytes, position)`: the bytes written, and the disk afterwards. `garbage` is what
-- each new buffer holds, those of the two inner reads included.
unfoldable pub write_at : FileHeader → Disk → Array (Array ℕ) → Array ℕ → ℕ → ℕ → Option (ℕ × Disk)
unfolding fill write_loop
write_at h disk garbage from num_bytes position =
    if num_bytes == 0 || leb (file_length h) position then some (0, disk) else do
      let count = clip h num_bytes position
      let first = div_round_down position sector_size
      let last = div_round_down (position + count - 1) sector_size
      let first_aligned = position == first * sector_size
      let last_aligned = position + count == (last + 1) * sector_size
      buf ← fill (not first_aligned) h disk (garbage 1) (garbage 0) 0 first
      buf' ←
          fill (not last_aligned && (not (first == last) || first_aligned)) h disk (garbage 2) buf
            ((last - first) * sector_size) last
      let filled : Array ℕ = bcopy from 0 buf' (position - first * sector_size) count
      disk' ← write_loop (1 + last - first) first first h filled disk
      some (count, disk')
