-- ===== src/Machine/Disk/Sectors.antt =====
-- The UNIX file as the sectors that the file system sees.
use mathlib.Core.Path.{fun_ext}
use cop5614nachos.Base.{
  arith, ℕ, true, ◌+◌, ◌<◌, ◌≡◌, refl, ap, some, ◌==◌, inl, inr, Bool-cases, Array, lt→ltb, update,
}
use cop5614nachos.Filesys.Disk as Storage
use cop5614nachos.Filesys.Disk.{num_sectors, sector_size, read_sector, write_sector}
use cop5614nachos.Machine.Disk.{
  Disk, sector_start, load_sector, save_sector, magic_number, opened, created_file, disk,
}
use cop5614nachos.Machine.Memory.{load_word}

-- Byte `j` of a sector lies after the magic number.
abbrev pub sectors : Disk → Storage.Disk
sectors d sector j = d.file (sector_start sector + j)

-- A read of the UNIX file is the file system's read of one sector.
pub load_sector-read_sector :
    (d : Disk) (sector : ℕ) (buffer : Array ℕ)
    → sector < num_sectors
    → read_sector (sectors d) sector buffer 0 ≡ some (load_sector d sector buffer)
unfolding load_sector read_sector
load_sector-read_sector d sector buffer on_disk =
    rw (lt→ltb sector num_sectors on_disk) (ap some (fun_ext λ j. ground arith))

save_sector-byte :
    (d : Disk) (sector s j : ℕ) (buffer : Array ℕ)
    → j < sector_size
    → sectors (save_sector d sector buffer) s j
      ≡ update (sectors d) sector (λ i. buffer (0 + i)) s j
unfolding save_sector
save_sector-byte d sector s j buffer lt = elim (Bool-cases (s == sector)) [
  | inl same ↦ ground (arith, same)
  | inr other ↦ ground (arith, other)
]

-- A write to the UNIX file is the file system's write of one sector, on all bytes of all sectors, and
-- leaves the magic number alone.
pub save_sector-write_sector :
    (d : Disk) (sector : ℕ) (buffer : Array ℕ)
    → sector < num_sectors
    → (disk : Storage.Disk) × (write_sector (sectors d) sector buffer 0 ≡ some disk)
      × ((s j : ℕ) → j < sector_size → sectors (save_sector d sector buffer) s j ≡ disk s j)
      × ((j : ℕ) → j < 4 → (save_sector d sector buffer).file j ≡ d.file j)
unfolding write_sector save_sector
save_sector-write_sector d sector buffer on_disk = (
  update (sectors d) sector (λ i. buffer (0 + i)),
  rw (lt→ltb sector num_sectors on_disk) refl,
  λ s j lt. save_sector-byte d sector s j buffer lt,
  λ j lt. ground arith,
)

disk-accepts :
    (file : Array ℕ) → load_word file 0 ≡ magic_number → disk (some file) ≡ some (opened file)
unfolding disk
disk-accepts file magic =
    let test : (load_word file 0 == magic_number) ≡ true = ground arith in rw test refl

-- A disk that was made because there was no file is accepted when it is opened again, with any
-- sectors written in between: a write keeps the magic number.
pub disk-save_sector :
    (load_word (opened created_file).file 0 ≡ magic_number)
    × ((d : Disk) (sector : ℕ) (buffer : Array ℕ)
        → load_word d.file 0 ≡ magic_number
        → let file = (save_sector d sector buffer).file in
          (load_word file 0 ≡ magic_number) × (disk (some file) ≡ some (opened file)))
unfolding disk save_sector
disk-save_sector = (
  refl,
  λ d sector buffer magic.
      let file = (save_sector d sector buffer).file in
      let kept : load_word file 0 ≡ magic_number = ground arith in (kept, disk-accepts file kept),
)
