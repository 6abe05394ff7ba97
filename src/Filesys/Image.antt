-- ===== src/Filesys/Image.antt =====
-- How a header, the free map and a directory lie in bytes: `FetchFrom` and `WriteBack` of
-- filesys/filehdr.cc, filesys/directory.cc and userprog/bitmap.cc. An `int` is four bytes, the lowest
-- first. An entry of a directory is 20 bytes: `inUse`, three unused, `sector`, ten of `name`, two
-- unused. `garbage` is what a buffer held before, `padding` what stands in the unused bytes.
pub mod Words
pub mod Fetching
use cop5614nachos.Base.{
  ℕ, ◌+◌, ◌-◌, ◌*◌, ◌/◌, ◌%◌, not, Option, some, ltb, ◌==◌, ◌>>=◌, if◌then◌else◌, Array,
}
use cop5614nachos.Bitmap.{BitMap}
use cop5614nachos.Machine.Memory.{load_word}
use cop5614nachos.Filesys.Disk.{Disk, read_sector, write_sector}
use cop5614nachos.Filesys.FileHeader.{FileHeader}
use cop5614nachos.Filesys.Directory.{DirectoryEntry, Directory}
use cop5614nachos.Filesys.OpenFile.{read_at, write_at}

-- Byte `j` of a word.
unfoldable pub word_byte : ℕ → ℕ → ℕ
word_byte word j =
    if j == 0
    then word % 256
    else if j == 1
    then word / 256 % 256
    else if j == 2
    then word / 65536 % 256
    else word / 16777216 % 256

-- `(char *)` of an array of words, and back.
unfoldable pub bytes_of : Array ℕ → Array ℕ
unfolding word_byte
bytes_of words j = word_byte (words (j / 4)) (j % 4)

abbrev pub words_of : Array ℕ → Array ℕ
words_of bytes i = load_word bytes (4 * i)

-- `(char *)this` of a header: the two sizes, then the table.
abbrev pub header_words : FileHeader → Array ℕ
header_words h i =
    if i == 0 then h.num_bytes else if i == 1 then h.sectors else h.data_sectors (i - 2)

abbrev pub header_of : Array ℕ → FileHeader
header_of words = record {
  num_bytes = words 0;
  sectors = words 1;
  data_sectors = λ i. words (2 + i);
}

unfoldable pub fetch_header : ℕ → Disk → Array ℕ → Option FileHeader
fetch_header sector disk garbage = do
  bytes ← read_sector disk sector garbage 0
  some (header_of (words_of bytes))

unfoldable pub write_back_header : FileHeader → ℕ → Disk → Option Disk
unfolding bytes_of
write_back_header h sector disk = write_sector disk sector (bytes_of (header_words h)) 0

unfoldable pub fetch_map : BitMap → FileHeader → Disk → Array ℕ → Option BitMap
unfolding bytes_of
fetch_map b file disk garbage = do
  (count, bytes) ← read_at file disk garbage (bytes_of b.map) 0 (b.num_words * 4) 0
  some (record b { map = words_of bytes })

unfoldable pub write_back_map : BitMap → FileHeader → Disk → Array (Array ℕ) → Option Disk
unfolding bytes_of
write_back_map b file disk garbage = do
  (count, disk') ← write_at file disk garbage (bytes_of b.map) (b.num_words * 4) 0
  some disk'

abbrev pub entry_size : ℕ
entry_size = 20

-- Byte `j` of an entry.
unfoldable pub entry_byte : DirectoryEntry → ℕ → ℕ → ℕ
unfolding word_byte
entry_byte e pad j =
    if j == 0
    then (if e.in_use then 1 else 0)
    else if ltb j 4
    then pad
    else if ltb j 8
    then word_byte e.sector (j - 4)
    else if ltb j 18
    then e.name (j - 8)
    else pad

-- `(char *)table`, and back.
unfoldable pub table_bytes : Array DirectoryEntry → Array ℕ → Array ℕ
unfolding entry_byte
table_bytes table padding j = entry_byte (table (j / entry_size)) (padding j) (j % entry_size)

abbrev pub entry_of : Array ℕ → ℕ → DirectoryEntry
entry_of bytes at = record {
  in_use = not (bytes at == 0);
  sector = load_word bytes (at + 4);
  name = λ k. bytes (at + 8 + k);
}

abbrev pub table_of : Array ℕ → Array DirectoryEntry
table_of bytes i = entry_of bytes (entry_size * i)

unfoldable pub fetch_directory :
    Directory → FileHeader → Disk → Array ℕ → Array ℕ → Option Directory
unfolding table_bytes
fetch_directory d file disk garbage padding = do
  (count, bytes) ←
      read_at file disk garbage (table_bytes d.table padding) 0 (d.table_size * entry_size) 0
  some (record d { table = table_of bytes })

unfoldable pub write_back_directory :
    Directory → FileHeader → Disk → Array (Array ℕ) → Array ℕ → Option Disk
unfolding table_bytes
write_back_directory d file disk garbage padding = do
  (count, disk') ←
      write_at file disk garbage (table_bytes d.table padding) (d.table_size * entry_size) 0
  some disk'
