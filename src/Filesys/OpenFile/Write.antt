-- ===== src/Filesys/OpenFile/Write.antt =====
-- What `WriteAt` leaves on the disk.
use cop5614nachos.Base.{
  ℕ, zero, suc, ◌+◌, ◌-◌, ◌*◌, ◌/◌, ◌%◌, ◌≤◌, ◌<◌, ◌≡◌, ◌≢◌, refl, ◌⊎◌, inl, inr, some, not, ◌&&◌,
  ◌||◌, arith, ltb, leb, ◌==◌, if◌then◌else◌, Array, update, bcopy, Bool, true, false, Bool-cases,
  ap, ◌∙◌,
}
use cop5614nachos.Filesys.Disk.{Disk, sector_size, num_sectors, write_sector}
use cop5614nachos.Filesys.FileHeader.{FileHeader, byte_to_sector, file_length, file_byte, IsFile}
use cop5614nachos.Filesys.OpenFile.{clip, fill, write_loop, write_at}
use cop5614nachos.Filesys.OpenFile.Read.{read_at-file_byte}

write_sector-some :
    (disk : Disk) (sector : ℕ) (buf : Array ℕ) (at : ℕ)
    → sector < num_sectors
    → write_sector disk sector buf at ≡ some (update disk sector (λ j. buf (at + j)))
unfolding write_sector
write_sector-some disk sector buf at lt = ground arith

module _ (h : FileHeader) (file : IsFile h) where
  same_sector :
      (i j : ℕ) → i < h.sectors → j < h.sectors → (h.data_sectors j == h.data_sectors i) ≡ (j == i)
  same_sector i j hi hj = elim (Bool-cases (j == i)) [
    | inl e ↦ ground (arith, ap h.data_sectors (let at : j ≡ i = ground arith in at))
    | inr ne ↦ ground (arith, file.distinct j i hj hi)
  ]

  -- The sectors of the file afterwards, and every other sector of the disk.
  record Written (rounds i first : ℕ) (buf : Array ℕ) (disk disk' : Disk) : Type 0 where
    inside :
        (j x : ℕ)
        → j < h.sectors
        → disk' (h.data_sectors j) x ≡ (
            if leb i j && ltb j (i + rounds)
            then buf ((j - first) * sector_size + x)
            else disk (h.data_sectors j) x)
    outside : (t : ℕ) → ((j : ℕ) → j < h.sectors → h.data_sectors j ≢ t) → disk' t ≡ disk t

  write_loop-Written :
      (rounds i first : ℕ) (buf : Array ℕ) (disk : Disk)
      → i + rounds ≤ h.sectors
      → (disk' : Disk) × (write_loop rounds i first h buf disk ≡ some disk')
        × Written rounds i first buf disk disk'
  unfolding write_loop
  write_loop-Written zero i first buf disk le =
      (disk, refl, record { inside = λ j x lt. ground arith; outside = λ t out. refl })
  write_loop-Written (suc rounds) i first buf disk le =
      let here : i * sector_size / sector_size ≡ i = omega arith in
      let sector = byte_to_sector h (i * sector_size) in
      let lt : sector < num_sectors = rw (here, byte_to_sector) (file.on_disk i (omega arith)) in
      let next : Disk = update disk sector (λ j. buf ((i - first) * sector_size + j)) in
      let (disk', e, w) = write_loop-Written rounds (i + 1) first buf next (omega arith) in
      (
        disk',
        rw (write_sector-some disk sector buf ((i - first) * sector_size) lt) e,
        record {
          inside =
              λ j x lt. ground (arith, w.inside j x lt, same_sector i j (omega arith) lt, here);
          outside = λ t out. ground (arith, w.outside t out, out i (omega arith), here);
        },
      )

  -- A sector of the file that is to be kept in part is read first; otherwise the buffer stays.
  fill-file_byte :
      (wanted : Bool) (disk : Disk) (garbage buf : Array ℕ) (at sector : ℕ)
      → sector * sector_size < file_length h
      → (buf' : Array ℕ) × (fill wanted h disk garbage buf at sector ≡ some buf')
        × ((x : ℕ)
            → sector * sector_size + x < file_length h
            → x < sector_size
            → wanted ≡ true
            → buf' (at + x) ≡ file_byte h disk (sector * sector_size + x))
        × ((x : ℕ) → (wanted ≡ false) ⊎ (x < at) → buf' x ≡ buf x)
  unfolding fill
  fill-file_byte true disk garbage buf at sector lt =
      let (buf', e, f) =
        read_at-file_byte h disk garbage buf at sector_size (sector * sector_size) file
          (omega arith) lt in
      (
        buf',
        rw e refl,
        λ x inside small w. ground (arith, f (at + x)),
        λ x out. ground (arith, f x),
      )
  fill-file_byte false disk garbage buf at sector lt =
      (buf, refl, λ x inside small w. cc, λ x out. refl)

  -- A file after a write: the bytes from `from`, `count` of them at `position`, and the rest as it was.
  abbrev pub overwritten : Disk → Array ℕ → ℕ → ℕ → ℕ → ℕ
  overwritten disk from count position k =
      if leb position k && ltb k (position + count) then from (k - position) else file_byte h disk k

  -- The buffer that is written back holds the new file contents, where they are inside the file.
  record Prepared (disk : Disk) (from : Array ℕ) (count position : ℕ) (buf : Array ℕ) : Type 0 where
    contents :
        (x : ℕ)
        → let first = position / sector_size in
          let last = (position + count - 1) / sector_size in
          x < (1 + last - first) * sector_size
          → first * sector_size + x < file_length h
          → buf x ≡ overwritten disk from count position (first * sector_size + x)

  -- The two partial reads of `WriteAt` and the copy that follows them.
  prepare :
      (disk : Disk) (garbage : Array (Array ℕ)) (from : Array ℕ) (count position : ℕ)
      → 0 < count
      → position + count ≤ file_length h
      → let first = position / sector_size in
        let last = (position + count - 1) / sector_size in
        let first_aligned = position == first * sector_size in
        let last_aligned = position + count == (last + 1) * sector_size in
        (buf buf' : Array ℕ) × (fill (not first_aligned) h disk (garbage 1) (garbage 0) 0 first
          ≡ some buf)
        × (fill
              (not last_aligned && (not (first == last) || first_aligned))
              h
              disk
              (garbage 2)
              buf
              ((last - first) * sector_size)
              last
            ≡ some buf')
        × Prepared disk from count position
            (bcopy from 0 buf' (position - first * sector_size) count)
  prepare disk garbage from count position pos fits =
      let first = position / sector_size in
      let last = (position + count - 1) / sector_size in
      let first_aligned = position == first * sector_size in
      let last_aligned = position + count == (last + 1) * sector_size in
      let (buf, e, f, g) =
        fill-file_byte (not first_aligned) disk (garbage 1) (garbage 0) 0 first (omega arith) in
      let (buf', e', f', g') =
        fill-file_byte (not last_aligned && (not (first == last) || first_aligned)) disk (garbage 2)
          buf ((last - first) * sector_size) last (omega arith) in
      (
        buf,
        buf',
        e,
        e',
        record {
          contents = λ x small inside.
              ground (arith, f x, g x, g' x, f' (x - (last - first) * sector_size));
        },
      )

  -- What the write loop and the prepared buffer say of byte `k` of the file.
  byte_after_write :
      (disk disk' : Disk) (from buf : Array ℕ) (count position k : ℕ)
      → 0 < count
      → position + count ≤ file_length h
      → k < file_length h
      → let first = position / sector_size in
        let last = (position + count - 1) / sector_size in
        Prepared disk from count position buf
        → Written (1 + last - first) first first buf disk disk'
        → file_byte h disk' k ≡ overwritten disk from count position k
  byte_after_write disk disk' from buf count position k pos fits lt p w =
      let first = position / sector_size in
      let last = (position + count - 1) / sector_size in
      let at = w.inside (k / sector_size) (k % sector_size) (omega (arith, file.room)) in
      elim (Bool-cases
        (leb first (k / sector_size) && ltb (k / sector_size) (first + (1 + last - first)))) [
          | inl covered ↦
              let range : (first ≤ k / sector_size)
                  × (k / sector_size < first + (1 + last - first)) =
                ground arith in
              let offset : (k / sector_size - first) * sector_size + k % sector_size
                  ≡ k - first * sector_size =
                omega arith in
              let back : first * sector_size + (k - first * sector_size) ≡ k = omega arith in
              let held = p.contents (k - first * sector_size) (omega arith) (omega arith) in
              at
              ∙ rw covered (ap buf offset)
              ∙ held
              ∙ ap (overwritten disk from count position) back
          | inr spared ↦
              let away : (leb position k && ltb k (position + count)) ≡ false = ground arith in
              at ∙ rw (spared, away) refl
        ]

  -- For a header that describes a file, a write of some bytes at a position inside the file moves
  -- as many bytes as were asked for or fit. Afterwards the file holds them there and its old bytes
  -- elsewhere, and no sector outside the file changes, whatever the new buffers held.
  pub write_at-overwritten :
      (disk : Disk) (garbage : Array (Array ℕ)) (from : Array ℕ) (num_bytes position : ℕ)
      → 0 < num_bytes
      → position < file_length h
      → (disk' : Disk) × (write_at h disk garbage from num_bytes position
          ≡ some (clip h num_bytes position, disk'))
        × ((k : ℕ)
            → k < file_length h
            → file_byte h disk' k ≡ overwritten disk from (clip h num_bytes position) position k)
        × ((t : ℕ) → ((j : ℕ) → j < h.sectors → h.data_sectors j ≢ t) → disk' t ≡ disk t)
  unfolding write_at
  write_at-overwritten disk garbage from num_bytes position some_bytes inside =
      let count = clip h num_bytes position in
      let first = position / sector_size in
      let last = (position + count - 1) / sector_size in
      let fits : (0 < count) × (position + count ≤ h.num_bytes) = ground arith in
      let (buf, buf', e, e', p) = prepare disk garbage from count position fits.0 fits.1 in
      let filled = bcopy from 0 buf' (position - first * sector_size) count in
      let (disk', e'', w) =
        write_loop-Written (1 + last - first) first first filled disk (omega (arith, file.room)) in
      let valid : ((num_bytes == 0) ≡ false) × (leb (file_length h) position ≡ false) =
        ground arith in
      (
        disk',
        rw (valid.0, valid.1, e, e', e'') refl,
        λ k lt. byte_after_write disk disk' from filled count position k fits.0 fits.1 lt p w,
        w.outside,
      )
