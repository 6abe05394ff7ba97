-- ===== src/Filesys/FileHeader.antt =====
-- filesys/filehdr.cc and filehdr.h: the header that says which sectors hold a file.
pub mod Deallocation
pub mod Allocation
use cop5614nachos.Base.{
  ℕ, zero, suc, ◌+◌, ◌-◌, ◌*◌, ◌/◌, ◌%◌, ◌≤◌, ◌<◌, ◌≡◌, Bool, true, false, Option, none, some, ltb,
  Array, update, assert, ◌>>=◌, ◌>>◌, if◌then◌else◌,
}
use cop5614nachos.Utility.{div_round_up}
use cop5614nachos.Bitmap
use cop5614nachos.Bitmap.{BitMap}
use cop5614nachos.Filesys.Disk.{Disk, sector_size, num_sectors}

-- `NumDirect`: the header fills one sector.
abbrev pub num_direct : ℕ
num_direct = (sector_size - 2 * 4) / 4

pub record FileHeader : Type 0 where
  pub num_bytes : ℕ
  pub sectors : ℕ
  pub data_sectors : Array ℕ

-- The loop of `Allocate`. A store past the table is outside the object. `Find` answering -1 would store -1, the pattern `2 ^ 32 - 1`.
unfoldable pub allocate_loop : ℕ → ℕ → BitMap → Array ℕ → Option (BitMap × Array ℕ)
allocate_loop zero i free_map data_sectors = some (free_map, data_sectors)
allocate_loop (suc rounds) i free_map data_sectors = do
  (found, free_map') ← Bitmap.find free_map
  assert (ltb i num_direct)
  let sector : ℕ = elim found [ none ↦ 0xffff_ffff | some s ↦ s ]
  allocate_loop rounds (i + 1) free_map' (update data_sectors i sector)

-- `TRUE` with the map and the header as they are left, or `FALSE`, with the size already set.
unfoldable pub allocate : FileHeader → BitMap → ℕ → Option (Bool × BitMap × FileHeader)
unfolding allocate_loop
allocate h free_map file_size = do
  let wanted = div_round_up file_size sector_size
  free ← Bitmap.num_clear free_map
  let sized : FileHeader = record h { num_bytes = file_size; sectors = wanted }
  if ltb free wanted then some (false, free_map, sized) else do
    (free_map', data_sectors) ← allocate_loop wanted 0 free_map h.data_sectors
    some (true, free_map', record sized { data_sectors = data_sectors })

-- A look past the table is outside the object.
unfoldable pub deallocate_loop : ℕ → ℕ → FileHeader → BitMap → Option BitMap
deallocate_loop zero i h free_map = some free_map
deallocate_loop (suc rounds) i h free_map = do
  assert (ltb i num_direct)
  used ← Bitmap.test free_map (h.data_sectors i)
  assert used
  free_map' ← Bitmap.clear free_map (h.data_sectors i)
  deallocate_loop rounds (i + 1) h free_map'

unfoldable pub deallocate : FileHeader → BitMap → Option BitMap
unfolding deallocate_loop
deallocate h free_map = deallocate_loop h.sectors 0 h free_map

abbrev pub byte_to_sector : FileHeader → ℕ → ℕ
byte_to_sector h offset = h.data_sectors (offset / sector_size)

abbrev pub file_length : FileHeader → ℕ
file_length h = h.num_bytes

-- Byte `k` of the file that the header describes.
abbrev pub file_byte : FileHeader → Disk → ℕ → ℕ
file_byte h disk k = disk (byte_to_sector h k) (k % sector_size)

-- A header whose sectors are on the disk, distinct and enough for its bytes.
pub record IsFile (h : FileHeader) : Type 0 where
  pub room : h.num_bytes ≤ h.sectors * sector_size
  pub direct : h.sectors ≤ num_direct
  pub on_disk : (i : ℕ) → i < h.sectors → h.data_sectors i < num_sectors
  pub distinct :
      (i j : ℕ) → i < h.sectors → j < h.sectors → h.data_sectors i ≡ h.data_sectors j → i ≡ j
