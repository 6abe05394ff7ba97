-- ===== src/Filesys/FileSystem/Formatting.antt =====
-- The constructor of the file system on a disk that is to be formatted.
use cop5614nachos.Base.{
  ℕ, zero, suc, ◌+◌, ◌*◌, ◌/◌, ◌≤◌, ◌<◌, ◌≡◌, ◌≢◌, refl, ap, sym, subst, ◌∙◌, true, false, none,
  some, arith, Array, >>=-next,
}
use cop5614nachos.Utility.{div_round_up}
use cop5614nachos.Bitmap.{BitMap, bit_map}
use cop5614nachos.Bitmap.Bits.{
  is_set, marked, is_set-marked, mark-marked, num_bits-marked, num_words-marked,
}
use cop5614nachos.Bitmap.Counting.{free_bits, clear_bits, clear_bits-same, free_bits-marked}
use cop5614nachos.Bitmap.Search.{bit_map-is_set}
use cop5614nachos.Filesys.Disk.{Disk, num_sectors, sector_size}
use cop5614nachos.Filesys.FileHeader.{FileHeader, IsFile, num_direct, file_byte, allocate}
use cop5614nachos.Filesys.FileHeader.Allocation.{Allocated, allocate-Allocated, Allocated-IsFile}
use cop5614nachos.Filesys.Directory.{Directory, directory, find}
use cop5614nachos.Filesys.Directory.Names.{index-none, find-none}
use cop5614nachos.Filesys.Image.{fetch_header, write_back_header}
use cop5614nachos.Filesys.Image.Fetching.{
  words_of-same, fetch_header-write_back_header, write_back_directory-stored, write_back_map-stored,
}
use cop5614nachos.Filesys.FileSystem.{FileSystem, Fresh, open_file, format}
use cop5614nachos.Filesys.FileSystem.Formatted.{
  IsFormatted, stored_directory, stored_map, is_set-words, bit_map-num_words,
}
use cop5614nachos.Filesys.FileSystem.Flushing.{file_byte-same, fetch_header-same}
use cop5614nachos.Filesys.FileSystem.Created.{IsFile-same}

clear_bits-all :
    (b : BitMap) (rounds i : ℕ)
    → ((j : ℕ) → i ≤ j → j < i + rounds → is_set b j ≡ false)
    → clear_bits b rounds i ≡ rounds
unfolding clear_bits
clear_bits-all b zero i clear = refl
clear_bits-all b (suc rounds) i clear = ground (
  arith,
  clear i (omega arith) (omega arith),
  clear_bits-all b rounds (i + 1) (λ j le lt. clear j (omega arith) (omega arith)),
)

-- The free map when the two header sectors and the data sectors of both files are taken.
record Reserved (fresh : Fresh) : Type 0 where
  start : BitMap
  map' : BitMap
  map'' : BitMap
  map_table : Array ℕ
  dir_table : Array ℕ
  made : bit_map num_sectors fresh.words ≡ some start
  words : start.num_words ≡ 32
  bits : start.num_bits ≡ 1024
  count : free_bits (marked (marked start 0) 1) ≡ 1022
  map_allocated :
      allocate fresh.blank (marked (marked start 0) 1) 128
      ≡ some (
        true,
        map',
        record (fresh.blank) { num_bytes = 128; sectors = 1; data_sectors = map_table },
      )
  dir_allocated :
      allocate fresh.blank map' 200
      ≡ some (
        true,
        map'',
        record (fresh.blank) { num_bytes = 200; sectors = 2; data_sectors = dir_table },
      )
  for_map : Allocated 1 0 (marked (marked start 0) 1) map' fresh.blank.data_sectors map_table
  for_dir : Allocated 2 0 map' map'' fresh.blank.data_sectors dir_table

reserve : (fresh : Fresh) → Reserved fresh
reserve fresh =
    let (start, made, bits, clean) = bit_map-is_set num_sectors fresh.words in
    let words = bit_map-num_words fresh.words made in
    let all : free_bits start ≡ 1024 =
      ap (λ n. clear_bits start n 0) bits
      ∙ clear_bits-all start 1024 0 (λ j le lt. clean j (omega arith)) in
    let one = free_bits-marked start 0 (omega (arith, bits)) (clean 0 (omega arith)) in
    let first = marked start 0 in
    let second_clear : is_set first 1 ≡ false = is_set-marked start 0 1 ∙ clean 1 (omega arith) in
    let two =
      free_bits-marked first 1 (omega (arith, bits, num_bits-marked start 0)) second_clear in
    let count : free_bits (marked first 1) ≡ 1022 = omega (arith, all, one, two) in
    let (map', map_table, e, a) =
      allocate-Allocated fresh.blank (marked first 1) 128 (omega (arith, count)) (omega arith) in
    let (map'', dir_table, e', a') =
      allocate-Allocated fresh.blank map' 200 (omega (arith, count, a.count)) (omega arith) in
    record {
      start = start;
      map' = map';
      map'' = map'';
      map_table = map_table;
      dir_table = dir_table;
      made = made;
      words = words;
      bits = bits;
      count = count;
      map_allocated = e;
      dir_allocated = e';
      for_map = a;
      for_dir = a';
    }

-- A header that `Allocate` filled, from a sector of the disk.
module _ (size count : ℕ) (b b' : BitMap) (old table : Array ℕ)
    (wanted : div_round_up size sector_size ≡ count) (small : size ≤ num_direct * sector_size)
    (bits : b.num_bits ≡ num_sectors) (a : Allocated count 0 b b' old table) where
  abbrev file_header : FileHeader
  file_header = record { num_bytes = size; sectors = count; data_sectors = table }

  stored_header :
      (sector : ℕ) (disk : Disk) (garbage : Array ℕ)
      → sector < num_sectors
      → (disk' : Disk) × (h : FileHeader) × (write_back_header file_header sector disk ≡ some disk')
        × (fetch_header sector disk' garbage ≡ some h)
        × IsFile h
        × (h.num_bytes ≡ size)
        × (h.sectors ≡ count)
        × ((i : ℕ) → i < count → h.data_sectors i ≡ table i)
        × ((t : ℕ) → t ≢ sector → disk' t ≡ disk t)
  stored_header sector disk garbage on_disk =
      let file : IsFile file_header =
        subst (λ n. IsFile (record { num_bytes = size; sectors = n; data_sectors = table })) wanted
          (Allocated-IsFile (record { num_bytes = 0; sectors = 0; data_sectors = old }) b b' size
            table bits small (subst (λ n. Allocated n 0 b b' old table) (sym wanted) a)) in
      let (disk', h, e, f, bytes, sectors, same, out) =
        fetch_header-write_back_header file_header sector disk garbage on_disk in
      let size_kept : h.num_bytes ≡ size = omega arith in
      let count_kept : h.sectors ≡ count = omega (arith, file.direct) in
      let at : (i : ℕ) → i < count → h.data_sectors i ≡ table i =
        λ i lt. omega (arith, same i (omega (arith, file.direct)), file.on_disk i lt) in
      (
        disk',
        h,
        e,
        f,
        IsFile-same file_header h size_kept count_kept at file,
        size_kept,
        count_kept,
        at,
        out,
      )

-- Without an entry in use, no name is found.
find-unused :
    (d : Directory) (name : Array ℕ)
    → ((i : ℕ) → i < d.table_size → (d.table i).in_use ≡ false)
    → find d name ≡ none
find-unused d name unused =
    find-none d name (index-none d name λ j le lt. ground (arith, unused j (omega arith)))

-- What the constructor leaves.
abbrev Ready : FileSystem → Type 0
Ready fs =
    IsFormatted fs
    × ((i : ℕ) → i < 10 → ((stored_directory fs).table i).in_use ≡ false)
    × ((name : Array ℕ) → find (stored_directory fs) name ≡ none)
    × (free_bits (stored_map fs) ≡ 1019)

module _ (fresh : Fresh) (r : Reserved fresh) where
  -- Sectors of the map's file are in use before those of the directory are taken.
  tables_apart : (i j : ℕ) → i < 1 → j < 2 → r.map_table i ≢ r.dir_table j
  tables_apart i j lt lt' e = ground (
    arith,
    r.for_map.now_used i (omega arith) (omega arith),
    r.for_dir.was_free j (omega arith) (omega arith),
    ap (λ t. is_set r.map' t) e,
  )

  map_bits : r.map'.num_bits ≡ 1024
  map_bits =
      r.for_map.size ∙ num_bits-marked (marked r.start 0) 1 ∙ num_bits-marked r.start 0 ∙ r.bits

  map_words : r.map''.num_words ≡ 32
  map_words =
      r.for_dir.words
      ∙ r.for_map.words
      ∙ num_words-marked (marked r.start 0) 1
      ∙ num_words-marked r.start 0
      ∙ r.words

  -- The state that the disk and the two headers make.
  ready :
      (fs : FileSystem)
      → IsFile fs.free_map_file.hdr
      → fs.free_map_file.hdr.num_bytes ≡ 128
      → fs.free_map_file.hdr.sectors ≡ 1
      → ((i : ℕ) → i < 1 → fs.free_map_file.hdr.data_sectors i ≡ r.map_table i)
      → IsFile fs.directory_file.hdr
      → fs.directory_file.hdr.num_bytes ≡ 200
      → fs.directory_file.hdr.sectors ≡ 2
      → ((i : ℕ) → i < 2 → fs.directory_file.hdr.data_sectors i ≡ r.dir_table i)
      → ((s : ℕ) → s < num_sectors → is_set (stored_map fs) s ≡ is_set r.map'' s)
      → ((i : ℕ) → i < 10 → ((stored_directory fs).table i).in_use ≡ false)
      → Ready fs
  ready fs file1 bytes1 sectors1 table1 file2 bytes2 sectors2 table2 map unused = (
    record {
      map_file = file1;
      map_size = bytes1;
      directory_file = file2;
      directory_size = bytes2;
      apart = λ i j lt lt' e.
          let lt1 : i < 1 = omega (arith, sectors1) in
          let lt2 : j < 2 = omega (arith, sectors2) in
          tables_apart i j lt1 lt2 (sym (table1 i lt1) ∙ e ∙ table2 j lt2);
      map_used = λ i lt.
          let lt1 : i < 1 = omega (arith, sectors1) in
          map _ (file1.on_disk i lt)
          ∙ ap (λ t. is_set r.map'' t) (table1 i lt1)
          ∙ r.for_dir.kept _ (r.for_map.now_used i (omega arith) (omega arith));
      directory_used = λ i lt.
          let lt2 : i < 2 = omega (arith, sectors2) in
          map _ (file2.on_disk i lt)
          ∙ ap (λ t. is_set r.map'' t) (table2 i lt2)
          ∙ r.for_dir.now_used i (omega arith) (omega arith);
      entries = λ i lt held. ground (arith, unused i lt);
    },
    unused,
    λ name. find-unused (stored_directory fs) name unused,
    clear_bits-same r.map'' (stored_map fs) 1024 0 (λ j le lt. map j (omega arith))
        ∙ ap (λ n. clear_bits r.map'' n 0) (sym (r.for_dir.size ∙ map_bits))
        ∙ omega (arith, r.count, r.for_map.count, r.for_dir.count),
  )

  format-Ready : (disk : Disk) → (fs : FileSystem) × (format fresh disk ≡ some fs) × Ready fs
  unfolding format open_file directory
  format-Ready disk =
      let taken = marked (marked r.start 0) 1 in
      let d = directory 10 fresh.entries in
      let (disk1, h1, e1, f1, file1, bytes1, sectors1, table1, out1) =
        stored_header 128 1 taken r.map' fresh.blank.data_sectors r.map_table refl (omega arith)
          (num_bits-marked (marked r.start 0) 1 ∙ num_bits-marked r.start 0 ∙ r.bits) r.for_map 0
          disk (fresh.garbage 0) (omega arith) in
      let (disk2, h2, e2, f2, file2, bytes2, sectors2, table2, out2) =
        stored_header 200 2 r.map' r.map'' fresh.blank.data_sectors r.dir_table refl (omega arith)
          map_bits r.for_dir 1 disk1 (fresh.garbage 1) (omega arith) in
      let still = fetch_header-same 0 disk1 disk2 (fresh.garbage 0) (out2 0 (omega arith)) ∙ f1 in
      let (disk3, e3, words3, out3) =
        write_back_map-stored h1 disk2 file1 r.map'' fresh.garbage
          (omega (arith, bytes1, map_words)) (omega (arith, map_words)) in
      let (disk4, e4, table4, out4) =
        write_back_directory-stored h2 disk3 file2 d fresh.garbage fresh.padding
          (omega (arith, bytes2)) (omega arith) (λ i lt held. cc) in
      let fs : FileSystem = record {
        disk = disk4;
        free_map_file = record { hdr = h1; seek_position = 0 };
        directory_file = record { hdr = h2; seek_position = 0 };
      } in
      let kept : (j : ℕ) → j < h1.sectors → disk4 (h1.data_sectors j) ≡ disk3 (h1.data_sectors j) =
        λ j lt. out4 (h1.data_sectors j) λ i lt' e.
          tables_apart j i (omega (arith, sectors1)) (omega (arith, sectors2)) (
            sym (table1 j (omega (arith, sectors1)))
            ∙ sym e
            ∙ table2 i (omega (arith, sectors2))) in
      let map : (s : ℕ) → s < num_sectors → is_set (stored_map fs) s ≡ is_set r.map'' s = λ s lt.
        is_set-words r.map'' (stored_map fs) s (
          words_of-same (file_byte h1 disk4) (file_byte h1 disk3) 32 (s / 32)
            (λ x lt'. file_byte-same h1 disk3 disk4 x file1 kept (omega (arith, bytes1)))
            (omega arith)
          ∙ words3 (s / 32) (omega (arith, map_words))) in
      (
        fs,
        >>=-next _ r.made (
            >>=-next _ (mark-marked r.start 0 (omega (arith, r.bits))) (
              >>=-next _
                (mark-marked (marked r.start 0) 1
                  (omega (arith, r.bits, num_bits-marked r.start 0)))
                (>>=-next _ r.map_allocated (
                  >>=-next _ r.dir_allocated (
                    >>=-next _ e1 (
                      >>=-next _ e2 (
                        >>=-next _ (>>=-next _ still refl) (
                          >>=-next _ (>>=-next _ f2 refl)
                            (>>=-next _ e3 (>>=-next _ e4 refl)))))))))),
        ready fs file1 bytes1 sectors1 table1 file2 bytes2 sectors2 table2 map
            (λ i lt. (table4 i lt).in_use),
      )

-- A disk that is formatted, whatever it and the new buffers held: the constructor ends, the disk is
-- formatted, no entry of the directory is in use, no name is found, and all but five of the 1024
-- sectors are free.
pub format-IsFormatted :
    (fresh : Fresh) (disk : Disk)
    → (fs : FileSystem) × (format fresh disk ≡ some fs)
      × IsFormatted fs
      × ((i : ℕ) → i < 10 → ((stored_directory fs).table i).in_use ≡ false)
      × ((name : Array ℕ) → find (stored_directory fs) name ≡ none)
      × (free_bits (stored_map fs) ≡ 1019)
format-IsFormatted fresh disk =
    let (fs, e, (formatted, unused, absent, count)) = format-Ready fresh (reserve fresh) disk in
    (fs, e, formatted, unused, absent, count)
