-- ===== src/Filesys/FileSystem/Flushing.antt =====
-- The three flushes of `Create`: the header, the directory and the free map.
use cop5614nachos.Base.{
  ℕ, ◌/◌, ◌%◌, ◌^◌, ◌<◌, ◌≡◌, ◌≢◌, refl, ap, sym, ◌∙◌, true, some, arith, Array, >>=-next,
}
use cop5614nachos.Bitmap.{BitMap}
use cop5614nachos.Bitmap.Bits.{is_set}
use cop5614nachos.Filesys.Disk.{Disk, num_sectors, read_sector}
use cop5614nachos.Filesys.FileHeader.{FileHeader, IsFile, file_byte}
use cop5614nachos.Filesys.Directory.{DirectoryEntry, Directory}
use cop5614nachos.Filesys.Image.{fetch_header}
use cop5614nachos.Filesys.Image.Fetching.{
  SameEntry, table_of-same, fetch_header-write_back_header, write_back_directory-stored,
  write_back_map-stored,
}
use cop5614nachos.Filesys.FileSystem.{FileSystem, Fresh, flush_new}
use cop5614nachos.Filesys.FileSystem.Formatted.{
  IsFormatted, stored_directory, stored_map, is_set-words,
}

pub SameEntry-trans : {e f g : DirectoryEntry} → SameEntry e f → SameEntry f g → SameEntry e g
SameEntry-trans p q = record {
  in_use = p.in_use ∙ q.in_use;
  sector = λ held. p.sector (q.in_use ∙ held) ∙ q.sector held;
  name = λ k lt. p.name k lt ∙ q.name k lt;
}

-- The bytes of a file are those of its sectors.
pub file_byte-same :
    (h : FileHeader) (disk disk' : Disk) (x : ℕ)
    → IsFile h
    → ((j : ℕ) → j < h.sectors → disk' (h.data_sectors j) ≡ disk (h.data_sectors j))
    → x < h.num_bytes
    → file_byte h disk' x ≡ file_byte h disk x
file_byte-same h disk disk' x file same lt =
    ap (λ f. f (x % 128)) (same (x / 128) (omega (arith, file.room)))

pub fetch_header-same :
    (sector : ℕ) (disk disk' : Disk) (garbage : Array ℕ)
    → disk' sector ≡ disk sector
    → fetch_header sector disk' garbage ≡ fetch_header sector disk garbage
unfolding fetch_header read_sector
fetch_header-same sector disk disk' garbage same = rw same refl

-- What is found on the disk after the flushes.
pub record Flushed (hdr : FileHeader) (sector : ℕ) (d : Directory) (b : BitMap)
    (fs fs' : FileSystem) : Type 0 where
  pub same_map_file : fs'.free_map_file ≡ fs.free_map_file
  pub same_directory_file : fs'.directory_file ≡ fs.directory_file
  pub table : (i : ℕ) → i < 10 → SameEntry ((stored_directory fs').table i) (d.table i)
  pub map : (s : ℕ) → s < num_sectors → is_set (stored_map fs') s ≡ is_set b s
  pub header :
      (garbage : Array ℕ)
      → (h : FileHeader) × (fetch_header sector fs'.disk garbage ≡ some h)
        × (h.num_bytes ≡ hdr.num_bytes % 2 ^ 32)
        × (h.sectors ≡ hdr.sectors % 2 ^ 32)
        × ((i : ℕ) → i < 30 → h.data_sectors i ≡ hdr.data_sectors i % 2 ^ 32)
  pub others :
      (t : ℕ)
      → t ≢ sector
      → ((j : ℕ) → j < fs.directory_file.hdr.sectors → fs.directory_file.hdr.data_sectors j ≢ t)
      → ((j : ℕ) → j < fs.free_map_file.hdr.sectors → fs.free_map_file.hdr.data_sectors j ≢ t)
      → fs'.disk t ≡ fs.disk t

module _ (fresh : Fresh) (fs : FileSystem) (formatted : IsFormatted fs) where
  pub flush_new-Flushed :
      (hdr : FileHeader) (sector : ℕ) (d : Directory) (b : BitMap)
      → sector < num_sectors
      → ((j : ℕ)
          → j < fs.directory_file.hdr.sectors
          → fs.directory_file.hdr.data_sectors j ≢ sector)
      → ((j : ℕ) → j < fs.free_map_file.hdr.sectors → fs.free_map_file.hdr.data_sectors j ≢ sector)
      → d.table_size ≡ 10
      → ((i : ℕ) → i < 10 → (d.table i).in_use ≡ true → (d.table i).sector < 2 ^ 32)
      → b.num_words ≡ 32
      → (fs' : FileSystem) × (flush_new fresh hdr sector d b fs ≡ some fs')
        × Flushed hdr sector d b fs fs'
  unfolding flush_new
  flush_new-Flushed hdr sector d b on_disk not_dir not_map size small words =
      let dir = fs.directory_file.hdr in
      let mp = fs.free_map_file.hdr in
      let (disk1, h1, e1, _, _, _, _, out1) =
        fetch_header-write_back_header hdr sector fs.disk (fresh.garbage 0) on_disk in
      let (disk2, e2, table2, out2) =
        write_back_directory-stored dir disk1 formatted.directory_file d fresh.garbage fresh.padding
          (omega (arith, size, formatted.directory_size)) (omega (arith, size))
          (λ i lt held. small i (omega (arith, size)) held) in
      let (disk3, e3, words3, out3) =
        write_back_map-stored mp disk2 formatted.map_file b fresh.garbage
          (omega (arith, words, formatted.map_size)) (omega (arith, words)) in
      let fs' : FileSystem = record fs { disk = disk3 } in
      let kept : (j : ℕ)
          → j < dir.sectors
          → disk3 (dir.data_sectors j) ≡ disk2 (dir.data_sectors j) =
        λ j lt. out3 (dir.data_sectors j) (λ i lt'. formatted.apart i j lt' lt) in
      let here : disk3 sector ≡ disk1 sector = out3 sector not_map ∙ out2 sector not_dir in
      (
        fs',
        >>=-next _ e1 (>>=-next _ e2 (>>=-next _ e3 refl)),
        record {
          same_map_file = refl;
          same_directory_file = refl;
          table = λ i lt.
              SameEntry-trans
                (table_of-same (file_byte dir disk3) (file_byte dir disk2) 10 i
                  (λ x lt'.
                    file_byte-same dir disk2 disk3 x formatted.directory_file kept
                      (omega (arith, formatted.directory_size)))
                  lt)
                (table2 i (omega (arith, size)));
          map = λ s lt. is_set-words b (stored_map fs') s (words3 (s / 32) (omega (arith, words)));
          header = λ garbage.
              let (disk1', h, e1', f, bytes, sectors, table, _) =
                fetch_header-write_back_header hdr sector fs.disk garbage on_disk in
              let same : disk1' ≡ disk1 = ground (arith, e1, e1') in
              (
                h,
                fetch_header-same sector disk1 disk3 garbage here
                    ∙ ap (λ k. fetch_header sector k garbage) (sym same)
                    ∙ f,
                bytes,
                sectors,
                table,
              );
          others = λ t ne not_dir' not_map'. out3 t not_map' ∙ out2 t not_dir' ∙ out1 t ne;
        },
      )
