-- ===== src/Filesys/FileSystem.antt =====
-- filesys/filesys.cc, and the constructor of `OpenFile` in openfile.cc: `Create`, `Open` and `Remove`
-- on the disk. `garbage` is what new buffers hold, `padding` the unused bytes of new entries, `blank`
-- a new header and `entries` a new table.
pub mod CreatedDisk
pub mod Created
pub mod Formatted
pub mod Flushing
pub mod Creating
pub mod Opening
pub mod Removing
pub mod Formatting
use cop5614nachos.Base.{
  ℕ, ◌+◌, ◌*◌, ◌/◌, Bool, true, false, not, Option, none, some, ltb, ◌==◌, ◌>>=◌, ◌>>◌, assert,
  if◌then◌else◌, Array,
}
use cop5614nachos.Bitmap
use cop5614nachos.Bitmap.{BitMap, bit_map}
use cop5614nachos.Filesys.Disk.{Disk, num_sectors}
use cop5614nachos.Filesys.FileHeader.{FileHeader, allocate, deallocate}
use cop5614nachos.Filesys.Directory.{DirectoryEntry, Directory, directory, find, add, remove}
use cop5614nachos.Filesys.OpenFile.Position.{OpenFile}
use cop5614nachos.Filesys.Image.{
  entry_size, fetch_header, write_back_header, fetch_map, write_back_map, fetch_directory,
  write_back_directory,
}

abbrev pub num_dir_entries : ℕ
num_dir_entries = 10

abbrev pub free_map_sector : ℕ
free_map_sector = 0

abbrev pub directory_sector : ℕ
directory_sector = 1

abbrev pub free_map_file_size : ℕ
free_map_file_size = num_sectors / 8

abbrev pub directory_file_size : ℕ
directory_file_size = entry_size * num_dir_entries

-- The two files that stay open, and the disk.
pub record FileSystem : Type 0 where
  pub disk : Disk
  pub free_map_file : OpenFile
  pub directory_file : OpenFile

-- The int -1.
abbrev pub minus_one : ℕ
minus_one = 0xffff_ffff

abbrev pub int_of : Option ℕ → ℕ
int_of none = minus_one
int_of (some sector) = sector

-- What `Directory::Find` returns, as an int.
abbrev pub find_sector : Directory → Array ℕ → ℕ
find_sector d name = int_of (find d name)

unfoldable pub open_file : ℕ → Disk → Array ℕ → Option OpenFile
unfolding fetch_header
open_file sector disk garbage = do
  hdr ← fetch_header sector disk garbage
  some (record { hdr = hdr; seek_position = 0 })

-- What new objects hold.
pub record Fresh : Type 0 where
  pub garbage : Array (Array ℕ)
  pub padding : Array ℕ
  pub words : Array ℕ
  pub entries : Array DirectoryEntry
  pub blank : FileHeader

module _ (fresh : Fresh) where
  -- `new Directory(NumDirEntries)`, then `FetchFrom`.
  unfoldable pub fetched_directory : FileSystem → Option Directory
  unfolding directory fetch_directory
  fetched_directory fs =
      fetch_directory (directory num_dir_entries fresh.entries) fs.directory_file.hdr fs.disk
        (fresh.garbage 0) fresh.padding

  -- `new BitMap(NumSectors)`, then `FetchFrom`.
  unfoldable pub fetched_map : FileSystem → Option BitMap
  unfolding bit_map fetch_map
  fetched_map fs = do
    free_map ← bit_map num_sectors fresh.words
    fetch_map free_map fs.free_map_file.hdr fs.disk (fresh.garbage 1)

  -- The three flushes at the end of `Create`.
  unfoldable pub flush_new : FileHeader → ℕ → Directory → BitMap → FileSystem → Option FileSystem
  unfolding write_back_header write_back_directory write_back_map
  flush_new hdr sector d free_map fs = do
    disk1 ← write_back_header hdr sector fs.disk
    disk2 ← write_back_directory d fs.directory_file.hdr disk1 fresh.garbage fresh.padding
    disk3 ← write_back_map free_map fs.free_map_file.hdr disk2 fresh.garbage
    some (record fs { disk = disk3 })

  -- `Create` from the search for a sector of the header on.
  unfoldable pub create_in : Directory → Array ℕ → ℕ → FileSystem → Option (Bool × FileSystem)
  unfolding fetched_map flush_new add allocate
  create_in d name initial_size fs = do
    free_map ← fetched_map fs
    (found, free_map') ← Bitmap.find free_map
    elim found [
      | none ↦ some (false, fs)
      | some sector ↦
          let (entered, d') = add d name sector in
          if not entered then some (false, fs) else do
            (enough, free_map'', hdr) ← allocate fresh.blank free_map' initial_size
            if not enough
                then some (false, fs)
                else do fs' ← flush_new hdr sector d' free_map'' fs; some (true, fs')
    ]

  unfoldable pub create : Array ℕ → ℕ → FileSystem → Option (Bool × FileSystem)
  unfolding fetched_directory create_in
  create name initial_size fs = do
    d ← fetched_directory fs
    if not (find_sector d name == minus_one)
        then some (false, fs)
        else create_in d name initial_size fs

  -- `sector >= 0` as the test of an int.
  unfoldable pub open_name : Array ℕ → FileSystem → Option (Option OpenFile)
  unfolding fetched_directory open_file
  open_name name fs = do
    d ← fetched_directory fs
    let sector : ℕ = find_sector d name
    if not (ltb sector 0x8000_0000)
        then some none
        else do f ← open_file sector fs.disk (fresh.garbage 1); some (some f)

  unfoldable pub remove_name : Array ℕ → FileSystem → Option (Bool × FileSystem)
  unfolding fetched_directory fetched_map fetch_header deallocate remove write_back_map
      write_back_directory
  remove_name name fs = do
    d ← fetched_directory fs
    let sector : ℕ = find_sector d name
    if sector == minus_one then some (false, fs) else do
      file_hdr ← fetch_header sector fs.disk (fresh.garbage 2)
      free_map ← fetched_map fs
      free_map' ← deallocate file_hdr free_map
      free_map'' ← Bitmap.clear free_map' sector
      let d' : Directory = (remove d name).1
      disk1 ← write_back_map free_map'' fs.free_map_file.hdr fs.disk fresh.garbage
      disk2 ← write_back_directory d' fs.directory_file.hdr disk1 fresh.garbage fresh.padding
      some (true, record fs { disk = disk2 })

  -- The constructor, when it formats the disk.
  unfoldable pub format : Disk → Option FileSystem
  unfolding bit_map allocate write_back_header open_file write_back_map write_back_directory
  format disk = do
    free_map ← bit_map num_sectors fresh.words
    let d : Directory = directory num_dir_entries fresh.entries
    map1 ← Bitmap.mark free_map free_map_sector
    map2 ← Bitmap.mark map1 directory_sector
    (map_fits, map3, map_hdr) ← allocate fresh.blank map2 free_map_file_size
    assert map_fits
    (dir_fits, map4, dir_hdr) ← allocate fresh.blank map3 directory_file_size
    assert dir_fits
    disk1 ← write_back_header map_hdr free_map_sector disk
    disk2 ← write_back_header dir_hdr directory_sector disk1
    free_map_file ← open_file free_map_sector disk2 (fresh.garbage 0)
    directory_file ← open_file directory_sector disk2 (fresh.garbage 1)
    disk3 ← write_back_map map4 free_map_file.hdr disk2 fresh.garbage
    disk4 ← write_back_directory d directory_file.hdr disk3 fresh.garbage fresh.padding
    some (record { disk = disk4; free_map_file = free_map_file; directory_file = directory_file })
