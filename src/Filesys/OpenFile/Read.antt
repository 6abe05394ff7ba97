-- ===== src/Filesys/OpenFile/Read.antt =====
-- What `ReadAt` delivers.
use cop5614nachos.Base.{
  ℕ, zero, suc, ◌+◌, ◌-◌, ◌*◌, ◌/◌, ◌%◌, ◌≤◌, ◌<◌, ◌≡◌, refl, some, ◌&&◌, arith, ltb, leb,
  if◌then◌else◌, Array, bcopy,
}
use cop5614nachos.Filesys.Disk.{Disk, sector_size, num_sectors, read_sector}
use cop5614nachos.Filesys.FileHeader.{FileHeader, byte_to_sector, file_length, file_byte, IsFile}
use cop5614nachos.Filesys.OpenFile.{clip, read_loop, read_at}

module _ (h : FileHeader) (disk : Disk) where
  -- The buffer after the sectors from `i` on, `rounds` of them, were read into their places.
  abbrev pub loaded : ℕ → ℕ → ℕ → Array ℕ → Array ℕ
  loaded rounds i first buf x =
      if leb ((i - first) * sector_size) x && ltb x ((i - first + rounds) * sector_size)
      then disk (h.data_sectors (first + x / sector_size)) (x % sector_size)
      else buf x

  read_sector-some :
      (sector at : ℕ) (buf : Array ℕ)
      → sector < num_sectors
      → read_sector disk sector buf at ≡ some (bcopy (disk sector) 0 buf at sector_size)
  unfolding read_sector
  read_sector-some sector at buf lt = ground arith

  pub read_loop-loaded :
      (rounds i first : ℕ) (buf : Array ℕ)
      → first ≤ i
      → ((j : ℕ) → i ≤ j → j < i + rounds → h.data_sectors j < num_sectors)
      → (buf' : Array ℕ) × (read_loop rounds i first h disk buf ≡ some buf')
        × ((x : ℕ) → buf' x ≡ loaded rounds i first buf x)
  unfolding read_loop
  read_loop-loaded zero i first buf le ok = (buf, refl, λ x. ground arith)
  read_loop-loaded (suc rounds) i first buf le ok =
      let here : i * sector_size / sector_size ≡ i = omega arith in
      let sector = byte_to_sector h (i * sector_size) in
      let lt : sector < num_sectors =
        rw (here, byte_to_sector) (ok i (omega arith) (omega arith)) in
      let next = bcopy (disk sector) 0 buf ((i - first) * sector_size) sector_size in
      let (buf', e, f) =
        read_loop-loaded rounds (i + 1) first next (omega arith)
          (λ j a b. ok j (omega arith) (omega arith)) in
      (
        buf',
        rw (read_sector-some sector ((i - first) * sector_size) buf lt) e,
        λ x. ground (arith, f x, here),
      )

  -- For a header that describes a file, a read of some bytes at a position inside the file
  -- delivers the bytes of the file from there on, as many as were asked for or are left, and
  -- nothing else in the buffer changes.
  pub read_at-file_byte :
      (garbage into : Array ℕ) (at num_bytes position : ℕ)
      → IsFile h
      → 0 < num_bytes
      → position < file_length h
      → (into' : Array ℕ) × (read_at h disk garbage into at num_bytes position
          ≡ some (clip h num_bytes position, into'))
        × ((x : ℕ)
            → into' x ≡ (
                if leb at x && ltb x (at + clip h num_bytes position)
                then file_byte h disk (position + (x - at))
                else into x))
  unfolding read_at
  read_at-file_byte garbage into at num_bytes position file some_bytes inside =
      let count = clip h num_bytes position in
      let first = position / sector_size in
      let last = (position + count - 1) / sector_size in
      let fits : (0 < count) × (position + count ≤ h.num_bytes) = ground arith in
      let (buf, e, f) =
        read_loop-loaded (1 + last - first) first first garbage (omega arith)
          (λ j a b. file.on_disk j (omega (arith, file.room))) in
      (
        bcopy buf (position - first * sector_size) into at count,
        ground (arith, e),
        λ x. ground (arith, f (position - first * sector_size + (x - at))),
      )
