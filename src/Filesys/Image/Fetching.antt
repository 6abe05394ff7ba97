-- ===== src/Filesys/Image/Fetching.antt =====
-- What a fetch finds on the disk, and what a write back leaves there.
use cop5614nachos.Base.{
  ℕ, ◌+◌, ◌*◌, ◌%◌, ◌^◌, ◌<◌, ◌≡◌, ◌≢◌, refl, ap, ◌∙◌, true, some, arith, Array, >>=-next, lt→ltb,
  update, bcopy, ==_refl,
}
use cop5614nachos.Bitmap.{BitMap}
use cop5614nachos.Filesys.Disk.{Disk, num_sectors, read_sector, write_sector}
use cop5614nachos.Filesys.FileHeader.{FileHeader, IsFile, file_byte}
use cop5614nachos.Filesys.Directory.{DirectoryEntry, Directory}
use cop5614nachos.Filesys.OpenFile.{clip, read_at, write_at}
use cop5614nachos.Filesys.OpenFile.Read.{read_at-file_byte}
use cop5614nachos.Filesys.OpenFile.Write.{write_at-overwritten}
use cop5614nachos.Filesys.Image.{
  bytes_of, words_of, header_words, header_of, fetch_header, write_back_header, fetch_map,
  write_back_map, table_bytes, table_of, fetch_directory, write_back_directory,
}
use cop5614nachos.Filesys.Image.Words.{words_of-bytes_of, entry_of-table_bytes}

-- Two entries that agree on what the directory looks at.
pub record SameEntry (e e' : DirectoryEntry) : Type 0 where
  pub in_use : e.in_use ≡ e'.in_use
  pub sector : e'.in_use ≡ true → e.sector ≡ e'.sector
  pub name : (k : ℕ) → k < 10 → e.name k ≡ e'.name k

-- The directory and the map that a file holds.
abbrev pub stored_table : FileHeader → Disk → Array DirectoryEntry
stored_table h disk = table_of (file_byte h disk)

abbrev pub stored_words : FileHeader → Disk → Array ℕ
stored_words h disk = words_of (file_byte h disk)

-- A read of a whole file, from its start.
read_whole :
    (h : FileHeader) (disk : Disk) (garbage into : Array ℕ) (size : ℕ)
    → IsFile h
    → h.num_bytes ≡ size
    → 0 < size
    → (into' : Array ℕ) × (read_at h disk garbage into 0 size 0 ≡ some (size, into'))
      × ((x : ℕ) → x < size → into' x ≡ file_byte h disk x)
read_whole h disk garbage into size file whole pos =
    let (into', e, f) = read_at-file_byte h disk garbage into 0 size 0 file pos (omega arith) in
    let all : clip h size 0 ≡ size = ground arith in
    (into', e ∙ ap (λ n. some (n, into')) all, λ x lt. ground (arith, f x))

-- A write of a whole file.
write_whole :
    (h : FileHeader) (disk : Disk) (garbage : Array (Array ℕ)) (from : Array ℕ) (size : ℕ)
    → IsFile h
    → h.num_bytes ≡ size
    → 0 < size
    → (disk' : Disk) × (write_at h disk garbage from size 0 ≡ some (size, disk'))
      × ((x : ℕ) → x < size → file_byte h disk' x ≡ from x)
      × ((t : ℕ) → ((j : ℕ) → j < h.sectors → h.data_sectors j ≢ t) → disk' t ≡ disk t)
write_whole h disk garbage from size file whole pos =
    let (disk', e, f, out) =
      write_at-overwritten h file disk garbage from size 0 pos (omega arith) in
    let all : clip h size 0 ≡ size = ground arith in
    (disk', e ∙ ap (λ n. some (n, disk')) all, λ x lt. ground (arith, f x), out)

-- Equal bytes make equal words and entries.
pub words_of-same :
    (a b : Array ℕ) (n i : ℕ)
    → ((x : ℕ) → x < 4 * n → a x ≡ b x)
    → i < n
    → words_of a i ≡ words_of b i
words_of-same a b n i same lt = omega (
  arith,
  same (4 * i) (omega arith),
  same (4 * i + 1) (omega arith),
  same (4 * i + 2) (omega arith),
  same (4 * i + 3) (omega arith),
)

pub table_of-same :
    (a b : Array ℕ) (n i : ℕ)
    → ((x : ℕ) → x < n * 20 → a x ≡ b x)
    → i < n
    → SameEntry (table_of a i) (table_of b i)
table_of-same a b n i same lt = record {
  in_use = ground (arith, same (20 * i) (omega arith));
  sector = λ used. omega (
    arith,
    same (20 * i + 4) (omega arith),
    same (20 * i + 4 + 1) (omega arith),
    same (20 * i + 4 + 2) (omega arith),
    same (20 * i + 4 + 3) (omega arith),
  );
  name = λ k small. same (20 * i + 8 + k) (omega arith);
}

module _ (h : FileHeader) (disk : Disk) (file : IsFile h) where
  pub fetch_map-stored :
      (b : BitMap) (garbage : Array ℕ)
      → h.num_bytes ≡ b.num_words * 4
      → 0 < b.num_words
      → (b' : BitMap) × (fetch_map b h disk garbage ≡ some b')
        × (b'.num_bits ≡ b.num_bits)
        × (b'.num_words ≡ b.num_words)
        × ((i : ℕ) → i < b.num_words → b'.map i ≡ stored_words h disk i)
  unfolding fetch_map
  fetch_map-stored b garbage whole pos =
      let (bytes, e, f) =
        read_whole h disk garbage (bytes_of b.map) (b.num_words * 4) file whole (omega arith) in
      (
        record b { map = words_of bytes },
        >>=-next _ e refl,
        refl,
        refl,
        λ i lt.
            words_of-same bytes (file_byte h disk) b.num_words i (λ x lt'. f x (omega arith)) lt,
      )

  -- A bitmap that is written back is found there, and no sector outside the file changes.
  pub write_back_map-stored :
      (b : BitMap) (garbage : Array (Array ℕ))
      → h.num_bytes ≡ b.num_words * 4
      → 0 < b.num_words
      → (disk' : Disk) × (write_back_map b h disk garbage ≡ some disk')
        × ((i : ℕ) → i < b.num_words → stored_words h disk' i ≡ b.map i % 2 ^ 32)
        × ((t : ℕ) → ((j : ℕ) → j < h.sectors → h.data_sectors j ≢ t) → disk' t ≡ disk t)
  unfolding write_back_map
  write_back_map-stored b garbage whole pos =
      let (disk', e, f, out) =
        write_whole h disk garbage (bytes_of b.map) (b.num_words * 4) file whole (omega arith) in
      (
        disk',
        >>=-next _ e refl,
        λ i lt.
            words_of-same (file_byte h disk') (bytes_of b.map) b.num_words i
              (λ x lt'. f x (omega arith)) lt
            ∙ words_of-bytes_of b.map i,
        out,
      )

  pub fetch_directory-stored :
      (d : Directory) (garbage padding : Array ℕ)
      → h.num_bytes ≡ d.table_size * 20
      → 0 < d.table_size
      → (d' : Directory) × (fetch_directory d h disk garbage padding ≡ some d')
        × (d'.table_size ≡ d.table_size)
        × ((i : ℕ) → i < d.table_size → SameEntry (d'.table i) (stored_table h disk i))
  unfolding fetch_directory
  fetch_directory-stored d garbage padding whole pos =
      let (bytes, e, f) =
        read_whole h disk garbage (table_bytes d.table padding) (d.table_size * 20) file whole
          (omega arith) in
      (
        record d { table = table_of bytes },
        >>=-next _ e refl,
        refl,
        λ i lt. table_of-same bytes (file_byte h disk) d.table_size i f lt,
      )

  -- A directory that is written back is found there, and no sector outside the file changes.
  pub write_back_directory-stored :
      (d : Directory) (garbage : Array (Array ℕ)) (padding : Array ℕ)
      → h.num_bytes ≡ d.table_size * 20
      → 0 < d.table_size
      → ((i : ℕ) → i < d.table_size → (d.table i).in_use ≡ true → (d.table i).sector < 2 ^ 32)
      → (disk' : Disk) × (write_back_directory d h disk garbage padding ≡ some disk')
        × ((i : ℕ) → i < d.table_size → SameEntry (stored_table h disk' i) (d.table i))
        × ((t : ℕ) → ((j : ℕ) → j < h.sectors → h.data_sectors j ≢ t) → disk' t ≡ disk t)
  unfolding write_back_directory
  write_back_directory-stored d garbage padding whole pos small =
      let (disk', e, f, out) =
        write_whole h disk garbage (table_bytes d.table padding) (d.table_size * 20) file whole
          (omega arith) in
      (
        disk',
        >>=-next _ e refl,
        λ i lt.
            let same =
              table_of-same (file_byte h disk') (table_bytes d.table padding) d.table_size i f lt in
            let (used, sector, name) = entry_of-table_bytes d.table padding i in
            record {
              in_use = same.in_use ∙ used;
              sector = λ held. omega (arith, same.sector (used ∙ held), sector, small i lt held);
              name = λ k lt'. same.name k lt' ∙ name k lt';
            },
        out,
      )

stored_byte :
    (disk : Disk) (sector : ℕ) (stored garbage : Array ℕ) (x : ℕ)
    → x < 128
    → bcopy (update disk sector (λ j. stored (0 + j)) sector) 0 garbage 0 128 x ≡ stored x
stored_byte disk sector stored garbage x lt = ground (arith, ==_refl sector)

-- A header that is written to a sector is fetched from it: the two sizes and the table of 30 sectors,
-- as far as they fit 32 bits, and no other sector of the disk changes.
pub fetch_header-write_back_header :
    (h : FileHeader) (sector : ℕ) (disk : Disk) (garbage : Array ℕ)
    → sector < num_sectors
    → (disk' : Disk) × (h' : FileHeader) × (write_back_header h sector disk ≡ some disk')
      × (fetch_header sector disk' garbage ≡ some h')
      × (h'.num_bytes ≡ h.num_bytes % 2 ^ 32)
      × (h'.sectors ≡ h.sectors % 2 ^ 32)
      × ((i : ℕ) → i < 30 → h'.data_sectors i ≡ h.data_sectors i % 2 ^ 32)
      × ((t : ℕ) → t ≢ sector → disk' t ≡ disk t)
unfolding fetch_header write_back_header read_sector write_sector
fetch_header-write_back_header h sector disk garbage on_disk =
    let stored = bytes_of (header_words h) in
    let disk' : Disk = update disk sector (λ j. stored (0 + j)) in
    let bytes : Array ℕ = bcopy (disk' sector) 0 garbage 0 128 in
    let back : (x : ℕ) → x < 128 → bytes x ≡ stored x =
      λ x lt. stored_byte disk sector stored garbage x lt in
    let word : (i : ℕ) → i < 32 → words_of bytes i ≡ header_words h i % 2 ^ 32 =
      λ i lt. words_of-same bytes stored 32 i back lt ∙ words_of-bytes_of (header_words h) i in
    let there = lt→ltb sector num_sectors on_disk in
    (
      disk',
      header_of (words_of bytes),
      rw there refl,
      rw there refl,
      word 0 (omega arith),
      word 1 (omega arith),
      λ i lt. word (2 + i) (omega arith) ∙ ground arith,
      λ t other. ground (arith, other),
    )
