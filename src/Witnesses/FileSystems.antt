-- ===== src/Witnesses/FileSystems.antt =====
-- A formatted disk with the free map in sector 2 and an empty directory in sectors 3 and 4.
use cop5614nachos.Base.{
  ℕ, zero, suc, ◌+◌, ◌<◌, ◌≡◌, ◌≢◌, refl, inr, true, false, none, some, Array, arith, if◌then◌else◌,
  ◌==◌,
}
use cop5614nachos.Base.Bits.{bit}
use cop5614nachos.Base.Loops.{first}
use cop5614nachos.Bitmap.Bits.{is_set}
use cop5614nachos.Bitmap.Counting.{free_bits, clear_bits}
use cop5614nachos.Filesys.Disk.{Disk}
use cop5614nachos.Filesys.FileHeader.{FileHeader, IsFile}
use cop5614nachos.Filesys.Directory.{same_name, find, find_index}
use cop5614nachos.Filesys.OpenFile.Position.{OpenFile}
use cop5614nachos.Filesys.FileSystem.{FileSystem, Fresh, format, create, open_name, remove_name}
use cop5614nachos.Filesys.FileSystem.Formatted.{IsFormatted, stored_directory, stored_map}
use cop5614nachos.Filesys.FileSystem.Opening.{open_name-create, create_refused}
use cop5614nachos.Filesys.FileSystem.Removing.{remove_name-create}
use cop5614nachos.Filesys.FileSystem.Formatting.{format-IsFormatted}

abbrev zeros : Array ℕ
zeros = λ j. 0

abbrev fresh : Fresh
fresh = record {
  garbage = λ k j. k;
  padding = zeros;
  words = λ i. 7;
  entries = λ i. record { in_use = true; sector = 0; name = zeros };
  blank = record { num_bytes = 0; sectors = 0; data_sectors = zeros };
}

abbrev map_header : FileHeader
map_header = record { num_bytes = 128; sectors = 1; data_sectors = λ i. 2 + i }

abbrev directory_header : FileHeader
directory_header = record { num_bytes = 200; sectors = 2; data_sectors = λ i. 3 + i }

-- Sectors 0 to 4 are in use.
abbrev disk : Disk
disk = λ s j. if s == 2 then (if j == 0 then 31 else 0) else 0

abbrev fs : FileSystem
fs = record {
  disk = disk;
  free_map_file = record { hdr = map_header; seek_position = 0 };
  directory_file = record { hdr = directory_header; seek_position = 0 };
}

map_used : (i : ℕ) → i < 1 → is_set (stored_map fs) (2 + i) ≡ true
unfolding is_set bit
map_used zero lt = refl
map_used (suc i) lt = absurd (omega arith)

directory_used : (i : ℕ) → i < 2 → is_set (stored_map fs) (3 + i) ≡ true
unfolding is_set bit
directory_used zero lt = refl
directory_used (suc zero) lt = refl
directory_used (suc (suc i)) lt = absurd (omega arith)

fs-IsFormatted : IsFormatted fs
fs-IsFormatted = record {
  map_file = record {
    room = omega arith;
    direct = omega arith;
    on_disk = λ i lt. omega arith;
    distinct = λ i j hi hj e. omega arith;
  };
  map_size = refl;
  directory_file = record {
    room = omega arith;
    direct = omega arith;
    on_disk = λ i lt. omega arith;
    distinct = λ i j hi hj e. omega arith;
  };
  directory_size = refl;
  apart = λ i j lt lt' e. omega arith;
  map_used = map_used;
  directory_used = directory_used;
  entries = λ i lt held. ground arith;
}

abbrev name : Array ℕ
name = λ j. if j == 0 then 97 else 0

absent : find (stored_directory fs) name ≡ none
unfolding find find_index first
absent = refl

free : free_bits (stored_map fs) ≡ 1019
unfolding clear_bits is_set bit
free = refl

open_name-create_example :
    (fs' : FileSystem) × (f : OpenFile) × (create fresh name 300 fs ≡ some (true, fs'))
    × (open_name fresh name fs' ≡ some (some f))
    × (f.hdr.num_bytes ≡ 300)
    × (f.seek_position ≡ 0)
    × IsFile f.hdr
    × ((j : ℕ) → j < f.hdr.sectors → is_set (stored_map fs) (f.hdr.data_sectors j) ≡ false)
    × ((name' : Array ℕ)
        → same_name name name' ≡ false
        → find (stored_directory fs') name' ≡ find (stored_directory fs) name')
    × IsFormatted fs'
    × ((t : ℕ)
        → is_set (stored_map fs) t ≡ true
        → ((j : ℕ) → j < 2 → 3 + j ≢ t)
        → ((j : ℕ) → j < 1 → 2 + j ≢ t)
        → fs'.disk t ≡ disk t)
open_name-create_example =
    open_name-create fresh fresh fs name 300 0 fs-IsFormatted absent (omega arith) refl
      (omega (arith, free)) (omega arith)

remove_name-create_example :
    (fs' fs'' : FileSystem) × (create fresh name 300 fs ≡ some (true, fs'))
    × (remove_name fresh name fs' ≡ some (true, fs''))
    × ((name' : Array ℕ) → find (stored_directory fs'') name' ≡ find (stored_directory fs) name')
    × ((s : ℕ) → s < 1024 → is_set (stored_map fs'') s ≡ is_set (stored_map fs) s)
remove_name-create_example =
    remove_name-create fresh fresh fs name 300 0 fs-IsFormatted
      (record { unique = λ i j hi hj ui uj same. ground arith }) absent (omega arith) refl
      (omega (arith, free)) (omega arith)

-- 131,072 bytes are as many sectors as the disk has.
create_refused_example : create fresh name 131072 fs ≡ some (false, fs)
create_refused_example =
    create_refused fresh fs fs-IsFormatted name 131072 (inr (inr (omega (arith, free))))

format-IsFormatted_example :
    (fs' : FileSystem) × (format fresh disk ≡ some fs')
    × IsFormatted fs'
    × ((i : ℕ) → i < 10 → ((stored_directory fs').table i).in_use ≡ false)
    × ((name' : Array ℕ) → find (stored_directory fs') name' ≡ none)
    × (free_bits (stored_map fs') ≡ 1019)
format-IsFormatted_example = format-IsFormatted fresh disk
