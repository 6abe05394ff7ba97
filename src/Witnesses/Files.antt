-- ===== src/Witnesses/Files.antt =====
-- A file of 300 bytes in three sectors, and a free map with room.
use cop5614nachos.Base.{ℕ, ◌+◌, ◌<◌, ◌≡◌, ◌≢◌, refl, true, Array, arith, some}
use cop5614nachos.Bitmap.{BitMap}
use cop5614nachos.Bitmap.Bits.{is_set}
use cop5614nachos.Bitmap.Counting.{free_bits, clear_bits}
use cop5614nachos.Base.Bits.{bit}
use cop5614nachos.Filesys.Disk.{Disk}
use cop5614nachos.Filesys.FileHeader.{
  FileHeader, IsFile, file_length, file_byte, allocate, deallocate,
}
use cop5614nachos.Filesys.FileHeader.Deallocation.{deallocate-allocate}
use cop5614nachos.Filesys.OpenFile.{clip, read_at, write_at}
use cop5614nachos.Filesys.OpenFile.Position.{OpenFile}
use cop5614nachos.Filesys.OpenFile.Write.{overwritten, write_at-overwritten}
use cop5614nachos.Filesys.OpenFile.RoundTrip.{read_at-write_at}

abbrev header : FileHeader
header = record { num_bytes = 300; sectors = 3; data_sectors = λ i. 10 + i }

header-IsFile : IsFile header
header-IsFile = record {
  room = omega arith;
  direct = omega arith;
  on_disk = λ i lt. omega arith;
  distinct = λ i j hi hj e. omega arith;
}

abbrev disk : Disk
disk = λ s j. s + j

abbrev bytes : Array ℕ
bytes = λ i. 65 + i

abbrev zeros : Array ℕ
zeros = λ i. 0

abbrev buffers : Array (Array ℕ)
buffers = λ k i. k

read_at-write_at_example :
    (disk' : Disk) × (into' : Array ℕ) × (write_at header disk buffers bytes 100 100
      ≡ some (clip header 100 100, disk'))
    × (read_at header disk' zeros zeros 0 100 100 ≡ some (clip header 100 100, into'))
    × ((x : ℕ) → x < clip header 100 100 → into' x ≡ bytes x)
read_at-write_at_example =
    read_at-write_at header header-IsFile disk buffers zeros zeros bytes 100 100 (omega arith)
      (omega arith)

write_at-overwritten_example :
    (disk' : Disk) × (write_at header disk buffers bytes 500 200
      ≡ some (clip header 500 200, disk'))
    × ((k : ℕ)
        → k < file_length header
        → file_byte header disk' k
          ≡ overwritten header header-IsFile disk bytes (clip header 500 200) 200 k)
    × ((t : ℕ) → ((j : ℕ) → j < header.sectors → header.data_sectors j ≢ t) → disk' t ≡ disk t)
write_at-overwritten_example =
    write_at-overwritten header header-IsFile disk buffers bytes 500 200 (omega arith) (omega arith)

-- Sectors 0 to 3 of each 32 are in use.
abbrev free_map : BitMap
free_map = record { num_bits = 1024; num_words = 32; map = λ i. 15 }

free_map-free_bits : free_bits free_map ≡ 896
unfolding clear_bits is_set bit
free_map-free_bits = refl

deallocate-allocate_example :
    (map' map'' : BitMap) × (h' : FileHeader) × (allocate header free_map 1000
      ≡ some (true, map', h'))
    × (deallocate h' map' ≡ some map'')
    × (map''.num_bits ≡ free_map.num_bits)
    × ((s : ℕ) → is_set map'' s ≡ is_set free_map s)
deallocate-allocate_example =
    deallocate-allocate header free_map 1000 (omega (arith, free_map-free_bits)) (omega arith)

abbrev open_file : OpenFile
open_file = record { hdr = header; seek_position = 250 }
