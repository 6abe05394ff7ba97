-- ===== src/Filesys/FileSystem/Created.antt =====
-- What a `Create` that succeeds took and wrote.
use cop5614nachos.Base.{
  ℕ, ◌<◌, ◌≡◌, ◌≢◌, ◌⊎◌, refl, sym, ◌∙◌, true, false, none, some, inl, inr, arith, ◌==◌,
  if◌then◌else◌, Array, Bool-cases,
}
use cop5614nachos.Bitmap.Bits.{is_set}
use cop5614nachos.Filesys.Disk.{num_sectors}
use cop5614nachos.Filesys.FileHeader.{FileHeader, IsFile}
use cop5614nachos.Filesys.Directory.{Directory, same_name, find, add}
use cop5614nachos.Filesys.Directory.Names.{IsUnique}
use cop5614nachos.Filesys.Directory.Adding.{added, add-cases, add-false}
use cop5614nachos.Filesys.Image.{fetch_header}
use cop5614nachos.Filesys.Image.Fetching.{SameEntry}
use cop5614nachos.Filesys.FileSystem.{FileSystem}
use cop5614nachos.Filesys.FileSystem.Formatted.{IsFormatted, stored_directory, stored_map}

-- `Add` of a name that is not there, with an entry that is not in use.
pub add-true :
    (d : Directory) (name : Array ℕ) (s i : ℕ)
    → find d name ≡ none
    → i < d.table_size
    → (d.table i).in_use ≡ false
    → (d' : Directory) × (add d name s ≡ (true, d'))
add-true d name s i absent lt unused = elim (add-cases d name s) [
  | inr entered ↦ entered
  | inl refused ↦ elim ((add-false d name s).0 refused) [
    | inl there ↦ absurd (there absent)
    | inr full ↦ ground (arith, full i lt)
  ]
]

-- A header that agrees with one that describes a file does so too.
pub IsFile-same :
    (h h' : FileHeader)
    → h'.num_bytes ≡ h.num_bytes
    → h'.sectors ≡ h.sectors
    → ((i : ℕ) → i < h.sectors → h'.data_sectors i ≡ h.data_sectors i)
    → IsFile h
    → IsFile h'
IsFile-same h h' bytes sectors table file = record {
  room = omega (arith, file.room, bytes, sectors);
  direct = omega (arith, file.direct, sectors);
  on_disk = λ i lt.
      omega (arith, table i (omega (arith, sectors)), file.on_disk i (omega (arith, sectors)));
  distinct = λ i j hi hj same.
      file.distinct i j (omega (arith, sectors)) (omega (arith, sectors))
        (sym (table i (omega (arith, sectors))) ∙ same ∙ table j (omega (arith, sectors)));
}

-- What `Create` took and wrote.
pub record Created (name : Array ℕ) (size : ℕ) (fs fs' : FileSystem) (sector : ℕ) : Type 0 where
  pub formatted : IsFormatted fs'
  pub on_disk : sector < num_sectors
  pub was_free : is_set (stored_map fs) sector ≡ false
  pub found :
      (name' : Array ℕ)
      → find (stored_directory fs') name'
        ≡ (if same_name name name' then some sector else find (stored_directory fs) name')
  pub header :
      (garbage : Array ℕ)
      → (h : FileHeader) × (fetch_header sector fs'.disk garbage ≡ some h)
        × IsFile h
        × (h.num_bytes ≡ size)
        × ((i : ℕ) → i < h.sectors → is_set (stored_map fs) (h.data_sectors i) ≡ false)
        × ((i : ℕ) → i < h.sectors → h.data_sectors i ≢ sector)
        × ((i : ℕ) → i < h.sectors → is_set (stored_map fs') (h.data_sectors i) ≡ true)
        × ((s : ℕ)
            → s < num_sectors
            → s ≢ sector
            → ((i : ℕ) → i < h.sectors → h.data_sectors i ≢ s)
            → is_set (stored_map fs') s ≡ is_set (stored_map fs) s)
  pub unique : IsUnique (stored_directory fs) → IsUnique (stored_directory fs')
  pub kept :
      (s : ℕ) → s < num_sectors → is_set (stored_map fs) s ≡ true → is_set (stored_map fs') s ≡ true
  pub others :
      (t : ℕ)
      → t ≢ sector
      → ((j : ℕ) → j < fs.directory_file.hdr.sectors → fs.directory_file.hdr.data_sectors j ≢ t)
      → ((j : ℕ) → j < fs.free_map_file.hdr.sectors → fs.free_map_file.hdr.data_sectors j ≢ t)
      → fs'.disk t ≡ fs.disk t

-- The entries of the directory with the new one.
pub entries-added :
    (fs : FileSystem) (d : Directory) (name : Array ℕ) (k i : ℕ)
    → ((j : ℕ) → j < 10 → SameEntry (d.table j) ((stored_directory fs).table j))
    → IsFormatted fs
    → k < num_sectors
    → (j : ℕ) → j < 10
    → ((added d name k i).table j).in_use ≡ true
    → (((added d name k i).table j).sector < num_sectors)
      × ((((added d name k i).table j).sector ≡ k)
          ⊎ (is_set (stored_map fs) ((added d name k i).table j).sector ≡ true))
entries-added fs d name k i same formatted on_disk j lt held = elim (Bool-cases (j == i)) [
  | inl at ↦ (rw at on_disk, inl (rw at refl))
  | inr other ↦
      let old : (d.table j).in_use ≡ true = ground arith in
      let stored = sym (same j lt).in_use ∙ old in
      let at = (same j lt).sector stored in
      let (small, used) = formatted.entries j lt stored in
      (rw (other, at) small, inr (rw (other, at) used))
]
